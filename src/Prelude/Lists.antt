-- ===== src/Prelude/Lists.antt =====
-- Lists over the native numbers, under the library's names, and Boolean quantifiers.
use Prim.Native.Nat.{ℕ, zero, suc, ◌+◌}
use mathlib.Core.Path.{◌≡◌, refl}
use mathlib.Core.Bool.{Bool, true, false, ◌&&◌, ◌||◌}
use mathlib.Core.List.{List, [], ◌∷◌, ◌++◌, reverse, reverse-append}
use mathlib.Core.Option.{Option, none, some}
use native.Mathlib.Omega.{arith}
use vpn_director.Prelude.Tests.{if◌then◌else◌}

module _ {ℓ} {A : Type ℓ} where
  abbrev pub length : List A → ℕ
  length [] = 0
  length (x ∷ xs) = suc (length xs)

  abbrev pub get_elem? : List A → ℕ → Option A
  get_elem? [] i = none
  get_elem? (x ∷ xs) zero = some x
  get_elem? (x ∷ xs) (suc i) = get_elem? xs i

  abbrev pub take : ℕ → List A → List A
  take zero xs = []
  take (suc n) [] = []
  take (suc n) (x ∷ xs) = x ∷ take n xs

  abbrev pub drop : ℕ → List A → List A
  drop zero xs = xs
  drop (suc n) [] = []
  drop (suc n) (x ∷ xs) = drop n xs

  -- the elements that pass a Boolean test, in order
  unfoldable pub keep_if : (A → Bool) → List A → List A
  keep_if p [] = []
  keep_if p (x ∷ xs) = let rest = keep_if p xs in if p x then x ∷ rest else rest

  unfoldable pub any : (A → Bool) → List A → Bool
  any p [] = false
  any p (x ∷ xs) = p x || any p xs

  unfoldable pub all : (A → Bool) → List A → Bool
  all p [] = true
  all p (x ∷ xs) = p x && all p xs

module _ {ℓ} {A : Type ℓ} where
  pub length-append : (xs ys : List A) → length (xs ++ ys) ≡ length xs + length ys
  length-append [] ys = omega arith
  length-append (x ∷ xs) ys = omega (arith, length-append xs ys)

  pub any-append : (p : A → Bool) (xs ys : List A) → any p (xs ++ ys) ≡ (any p xs || any p ys)
  unfolding any
  any-append p [] ys = refl
  any-append p (x ∷ xs) ys = ground (arith, any-append p xs ys)

  pub all-append : (p : A → Bool) (xs ys : List A) → all p (xs ++ ys) ≡ (all p xs && all p ys)
  unfolding all
  all-append p [] ys = refl
  all-append p (x ∷ xs) ys = ground (arith, all-append p xs ys)

  pub keep_if-append :
      (p : A → Bool) (xs ys : List A) → keep_if p (xs ++ ys) ≡ keep_if p xs ++ keep_if p ys
  unfolding keep_if
  keep_if-append p [] ys = refl
  keep_if-append p (x ∷ xs) ys = ground (arith, keep_if-append p xs ys)

  pub any-keep_if : (p q : A → Bool) (xs : List A) → any p (keep_if q xs) ≡ any (λ x. q x && p x) xs
  unfolding any keep_if
  any-keep_if p q [] = refl
  any-keep_if p q (x ∷ xs) = ground (arith, any-keep_if p q xs)

  pub keep_if_of_all : (p : A → Bool) (xs : List A) → all p xs ≡ true → keep_if p xs ≡ xs
  unfolding all keep_if
  keep_if_of_all p [] h = refl
  keep_if_of_all p (x ∷ xs) h = ground (arith, keep_if_of_all p xs)

  pub all_mono :
      (p q : A → Bool)
      → ((x : A) → p x ≡ true → q x ≡ true)
      → (xs : List A) → all p xs ≡ true
      → all q xs ≡ true
  unfolding all
  all_mono p q f [] h = refl
  all_mono p q f (x ∷ xs) h = ground (arith, f x, all_mono p q f xs)

  pub all-reverse : (p : A → Bool) (xs : List A) → all p xs ≡ true → all p (reverse xs) ≡ true
  unfolding all
  all-reverse p [] h = refl
  all-reverse p (x ∷ xs) h =
      rw (reverse-append (x ∷ []) xs, all-append) (ground (arith, all-reverse p xs))
