-- ===== src/Prelude/Texts.antt =====
-- Go strings as lists of code points, their equality, and lists of strings with the `contains`
-- and `sort.Strings` that the packages use.
use Prim.Native.Nat.{ℕ}
use Prim.Native.Char.{code}
use Prim.Native.String.{String}
use mathlib.Core.Path.{◌≡◌, refl}
use mathlib.Core.Logic.{◌↔◌, inl, inr}
use mathlib.Core.Bool.{Bool, true, false, ◌&&◌, ◌||◌}
use mathlib.Core.List.{List, [], ◌∷◌, ◌++◌}
use native.Mathlib.Omega.{arith}
use vpn_director.Prelude.Tests.{◌==◌, ltb, if◌then◌else◌, Bool-cases, Bool-ext}
use vpn_director.Prelude.Lists.{any, keep_if}

-- A Go string that is valid UTF-8, by its runes.
abbrev pub Text : Type 0
Text = List ℕ

-- the runes of a literal
abbrev pub runes : String → Text
runes String.[] = []
runes (String.◌∷◌ c s) = code c ∷ runes s

unfoldable pub text_eq : Text → Text → Bool
text_eq [] [] = true
text_eq (c ∷ s) (d ∷ t) = c == d && text_eq s t
text_eq _ _ = false

pub text_eq_refl : (s : Text) → text_eq s s ≡ true
unfolding text_eq
text_eq_refl [] = refl
text_eq_refl (c ∷ s) = ground (arith, text_eq_refl s)

pub text_eq_sound : (s t : Text) → text_eq s t ≡ true → s ≡ t
unfolding text_eq
text_eq_sound [] [] h = refl
text_eq_sound [] (d ∷ t) h = cc
text_eq_sound (c ∷ s) [] h = cc
text_eq_sound (c ∷ s) (d ∷ t) h = ground (arith, text_eq_sound s t)

pub text_eq_iff : (s t : Text) → (text_eq s t ≡ true) ↔ (s ≡ t)
text_eq_iff s t = (text_eq_sound s t, λ e. rw e (text_eq_refl t))

-- The hand-written `contains` of the packages.
unfoldable pub contains : List Text → Text → Bool
contains [] s = false
contains (v ∷ list) s = text_eq v s || contains list s

pub contains-append :
    (xs ys : List Text) (s : Text) → contains (xs ++ ys) s ≡ (contains xs s || contains ys s)
unfolding contains
contains-append [] ys s = refl
contains-append (x ∷ xs) ys s = ground (arith, contains-append xs ys s)

-- A filter by a property of the text keeps exactly the members that have it.
pub contains-keep_if :
    (p : Text → Bool) (xs : List Text) (s : Text)
    → contains (keep_if p xs) s ≡ (p s && contains xs s)
unfolding contains keep_if
contains-keep_if p [] s = ground arith
contains-keep_if p (x ∷ xs) s =
    ground (arith, contains-keep_if p xs s, text_eq_iff x s, text_eq_refl x)

-- The order of `sort.Strings`: of code points, which for valid UTF-8 is that of the bytes.
unfoldable pub text_lt : Text → Text → Bool
text_lt [] [] = false
text_lt [] (d ∷ t) = true
text_lt (c ∷ s) [] = false
text_lt (c ∷ s) (d ∷ t) = ltb c d || (c == d && text_lt s t)

insert_text : Text → List Text → List Text
insert_text s [] = s ∷ []
insert_text s (x ∷ xs) = let rest = insert_text s xs in if text_lt x s then x ∷ rest else s ∷ x ∷ xs

-- `sort.Strings`, as a list.
unfoldable pub sort_texts : List Text → List Text
unfolding insert_text text_lt
sort_texts [] = []
sort_texts (x ∷ xs) = insert_text x (sort_texts xs)

any-insert_text :
    (p : Text → Bool) (s : Text) (xs : List Text) → any p (insert_text s xs) ≡ (p s || any p xs)
unfolding insert_text any
any-insert_text p s [] = refl
any-insert_text p s (x ∷ xs) = ground (arith, any-insert_text p s xs)

pub any-sort_texts : (p : Text → Bool) (xs : List Text) → any p (sort_texts xs) ≡ any p xs
unfolding sort_texts any
any-sort_texts p [] = refl
any-sort_texts p (x ∷ xs) = ground (arith, any-insert_text p x (sort_texts xs), any-sort_texts p xs)

pub contains-any : (xs : List Text) (s : Text) → contains xs s ≡ any (λ x. text_eq x s) xs
unfolding contains any
contains-any [] s = refl
contains-any (x ∷ xs) s = ground (arith, contains-any xs s)

pub any-witness :
    (p : Text → Bool) (xs : List Text)
    → any p xs ≡ true
    → (s : Text) × (contains xs s ≡ true) × (p s ≡ true)
unfolding any contains
any-witness p [] h = cc
any-witness p (x ∷ xs) h = elim (Bool-cases (p x)) [
  | inl e ↦ (x, ground (arith, text_eq_refl x), e)
  | inr e ↦ let (s, m, q) = any-witness p xs (ground arith) in (s, ground arith, q)
]

pub any-member :
    (p : Text → Bool) (xs : List Text) (s : Text)
    → contains xs s ≡ true
    → p s ≡ true
    → any p xs ≡ true
unfolding any contains
any-member p [] s m q = cc
any-member p (x ∷ xs) s m q = ground (arith, any-member p xs s, text_eq_iff x s)

-- A test that some member passes looks only at the members that could pass it.
pub any-ext :
    (p : Text → Bool) (xs ys : List Text)
    → ((s : Text) → p s ≡ true → contains xs s ≡ contains ys s)
    → any p xs ≡ any p ys
any-ext p xs ys h =
    Bool-ext _ _ (λ a. pass xs ys (λ s q m. ground (arith, h s q)) a)
      (λ a. pass ys xs (λ s q m. ground (arith, h s q)) a)
  where
    pass :
        (us vs : List Text)
        → ((s : Text) → p s ≡ true → contains us s ≡ true → contains vs s ≡ true)
        → any p us ≡ true
        → any p vs ≡ true
    pass us vs f a = let (s, m, q) = any-witness p us a in any-member p vs s (f s q m) q
