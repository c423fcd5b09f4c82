-- ===== src/Subwatch/Order/Turns.antt =====
-- The turns of `walkOrder` against the queues they run on.
use vpn_director.Prelude.{
  ℕ, zero, suc, ◌+◌, ◌<◌, ◌≡◌, refl, ◌⊎◌, inl, inr, length-append, ap, sym, some, List, [], ◌∷◌,
  ◌++◌, take, drop, get_elem?, length, arith, append_assoc,
}
use mathlib.Core.List.{Perm, perm_append_comm}
use mathlib.Core.List.Perm
use vpn_director.Subwatch.Order.{pass, turns, enough_turns}

-- the servers of all queues
abbrev pub joined {ℓ} : {A : Type ℓ} → List (List A) → List A
joined [] = []
joined (q ∷ queues) = q ++ joined queues

module _ {ℓ} {A : Type ℓ} where
  List-cases : (xs : List A) → (xs ≡ []) ⊎ ((y : A) × (ys : List A) × (xs ≡ y ∷ ys))
  List-cases [] = inl refl
  List-cases (x ∷ xs) = inr (x, xs, refl)

  past : (xs ys zs : List A) → Perm (xs ++ (ys ++ zs)) (ys ++ (xs ++ zs))
  past xs ys zs =
      rw (sym (append_assoc xs ys zs), sym (append_assoc ys xs zs))
        (Perm.append_right zs (perm_append_comm xs ys))

  pass-perm :
      (queues : List (List A)) → Perm ((pass queues).0 ++ joined (pass queues).1) (joined queues)
  unfolding pass
  pass-perm [] = Perm.refl []
  pass-perm ([] ∷ queues) = pass-perm queues
  pass-perm ((s ∷ q) ∷ queues) =
      let placed = (pass queues).0 in
      let left = joined (pass queues).1 in
      Perm.cons s (Perm.trans (past placed q left) (Perm.append_left q (pass-perm queues)))

  -- A pass that places nobody leaves nobody.
  pass-done : (queues : List (List A)) → (pass queues).0 ≡ [] → joined queues ≡ []
  unfolding pass
  pass-done [] h = refl
  pass-done ([] ∷ queues) h = pass-done queues h
  pass-done ((s ∷ q) ∷ queues) h = cc

  length-pass :
      (queues : List (List A))
      → length (pass queues).0 + length (joined (pass queues).1) ≡ length (joined queues)
  unfolding pass
  length-pass [] = refl
  length-pass ([] ∷ queues) = length-pass queues
  length-pass ((s ∷ q) ∷ queues) = omega (
    arith,
    length-pass queues,
    length-append q (joined (pass queues).1),
    length-append q (joined queues),
  )

  turns-none :
      (fuel : ℕ) (queues : List (List A)) → (pass queues).0 ≡ [] → turns (suc fuel) queues ≡ []
  unfolding turns
  turns-none fuel queues e = ground arith

  turns-some :
      (fuel : ℕ) (queues : List (List A)) (y : A) (ys : List A)
      → (pass queues).0 ≡ y ∷ ys
      → turns (suc fuel) queues ≡ (pass queues).0 ++ turns fuel (pass queues).1
  unfolding turns
  turns-some fuel queues y ys e = ground arith

  pub turns-perm :
      (fuel : ℕ) (queues : List (List A))
      → length (joined queues) < fuel
      → Perm (turns fuel queues) (joined queues)
  turns-perm zero queues h = absurd (omega arith)
  turns-perm (suc fuel) queues h = elim (List-cases (pass queues).0) [
    | inl e ↦ rw (turns-none fuel queues e, pass-done queues e) (Perm.refl [])
    | inr (y, ys, e) ↦ rw (turns-some fuel queues y ys e) (
        Perm.trans
          (Perm.append_left (pass queues).0 (turns-perm fuel (pass queues).1 (fewer y ys e)))
          (pass-perm queues))
  ]
    where
      fewer :
          (y : A) (ys : List A) → (pass queues).0 ≡ y ∷ ys → length (joined (pass queues).1) < fuel
      fewer y ys e = omega (arith, length-pass queues, ap length e)

  pub enough_turns-joined : (queues : List (List A)) → length (joined queues) < enough_turns queues
  unfolding enough_turns
  enough_turns-joined [] = omega arith
  enough_turns-joined (q ∷ queues) =
      omega (arith, enough_turns-joined queues, length-append q (joined queues))

  pub joined-append : (qs rs : List (List A)) → joined (qs ++ rs) ≡ joined qs ++ joined rs
  joined-append [] rs = refl
  joined-append (q ∷ qs) rs =
      rw (joined-append qs rs) (sym (append_assoc q (joined qs) (joined rs)))

  pub take-drop : (n : ℕ) (xs : List A) → take n xs ++ drop n xs ≡ xs
  take-drop zero xs = refl
  take-drop (suc n) [] = refl
  take-drop (suc n) (x ∷ xs) = ap (λ ys. x ∷ ys) (take-drop n xs)

  -- one of a list to the front
  pub front-perm :
      (xs : List A) (i : ℕ) (x : A)
      → get_elem? xs i ≡ some x
      → Perm (x ∷ (take i xs ++ drop (suc i) xs)) xs
  front-perm [] i x e = cc
  front-perm (y ∷ ys) zero x e = rw head (Perm.refl (x ∷ ys))
    where
      head : y ≡ x
      head = cc
  front-perm (y ∷ ys) (suc i) x e =
      Perm.trans (Perm.swap y x (take i ys ++ drop (suc i) ys)) (Perm.cons y (front-perm ys i x e))

  pub joined-split :
      (qs : List (List A)) (i : ℕ) (q : List A)
      → get_elem? qs i ≡ some q
      → joined qs ≡ joined (take i qs) ++ (q ++ joined (drop (suc i) qs))
  joined-split [] i q e = cc
  joined-split (p ∷ qs) zero q e = cc
  joined-split (p ∷ qs) (suc i) q e =
      rw (append_assoc p (joined (take i qs)) (q ++ joined (drop (suc i) qs)))
        (ap (λ ys. p ++ ys) (joined-split qs i q e))

  -- the start p of q first, then what is behind q, what is before it and the end r of it
  pub turning-perm :
      (p r q ds ks : List A) → Perm (p ++ r) q → Perm (p ++ (ds ++ (ks ++ r))) (ks ++ (q ++ ds))
  turning-perm p r q ds ks h = Perm.trans (past p ds (ks ++ r)) (
      Perm.trans (Perm.append_left ds (past p ks r)) (
        Perm.trans (Perm.append_left ds (Perm.append_left ks h))
          (rw (sym (append_assoc ks q ds)) (perm_append_comm ds (ks ++ q)))))
