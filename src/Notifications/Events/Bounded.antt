-- ===== src/Notifications/Events/Bounded.antt =====
-- `boundedEvents` against the last events that pass.
use vpn_director.Prelude.{
  ℕ, zero, suc, ◌-◌, ◌≤◌, ◌<◌, ◌≡◌, ◌∙◌, sym, ap, refl, Bool, ◌&&◌, List, [], ◌∷◌, ◌++◌,
  append_assoc, append-nil, ◌==◌, length, length-append, drop, keep_if, arith, Bool-cases, inl, inr,
}
use vpn_director.Notifications.Events.{
  StoredEvent, is_fresh, push_bounded, bounded_loop, bounded_events,
}

module _ {ℓ} {A : Type ℓ} where
  -- the last n of a list
  abbrev pub last : ℕ → List A → List A
  last n xs = drop (length xs - n) xs

  last-cons : (n : ℕ) (x : A) (ys : List A) → n ≤ length ys → last n (x ∷ ys) ≡ last n ys
  last-cons n x ys h =
      let e : suc (length ys) - n ≡ suc (length ys - n) = omega arith in ap (λ k. drop k (x ∷ ys)) e

  last_all : (n : ℕ) (xs : List A) → length xs ≤ n → last n xs ≡ xs
  last_all n xs h = let e : length xs - n ≡ 0 = omega arith in ap (λ k. drop k xs) e

  length-drop : (n : ℕ) (xs : List A) → length (drop n xs) ≡ length xs - n
  length-drop zero xs = omega arith
  length-drop (suc n) [] = omega arith
  length-drop (suc n) (x ∷ xs) = omega (arith, length-drop n xs)

  pub length-last : (n : ℕ) (xs : List A) → length (last n xs) ≤ n
  length-last n xs = omega (arith, length-drop (length xs - n) xs)

unfoldable pub passes : ℕ → (StoredEvent → Bool) → StoredEvent → Bool
passes at keep event = is_fresh at event && keep event

push_bounded-last :
    (limit : ℕ) (kept : List StoredEvent) (e : StoredEvent) (rest : List StoredEvent)
    → 0 < limit
    → length kept ≤ limit
    → last limit (push_bounded limit kept e ++ rest) ≡ last limit (kept ++ e ∷ rest)
unfolding push_bounded
push_bounded-last limit [] e rest p h = ground arith
push_bounded-last limit (k ∷ kept) e rest p h = elim (Bool-cases (length (k ∷ kept) == limit)) [
  | inl y ↦
      rw (y, append_assoc kept (e ∷ []) rest)
        (sym (last-cons limit k (kept ++ e ∷ rest) (ground (arith, length-append kept (e ∷ rest)))))
  | inr n ↦ rw (n, append_assoc kept (e ∷ []) rest) refl
]

length-push_bounded :
    (limit : ℕ) (kept : List StoredEvent) (e : StoredEvent)
    → 0 < limit
    → length kept ≤ limit
    → length (push_bounded limit kept e) ≤ limit
unfolding push_bounded
length-push_bounded limit kept e p h =
    ground
      (arith, length-append (drop 1 kept) (e ∷ []), length-append kept (e ∷ []), length-drop 1 kept)

bounded_loop-last :
    (at limit : ℕ) (keep : StoredEvent → Bool) (events kept : List StoredEvent)
    → 0 < limit
    → length kept ≤ limit
    → bounded_loop at limit keep events kept ≡ last limit (kept ++ keep_if (passes at keep) events)
unfolding bounded_loop keep_if passes
bounded_loop-last at limit keep [] kept p h =
    sym (ap (last limit) (append-nil kept) ∙ last_all limit kept h)
bounded_loop-last at limit keep (e ∷ events) kept p h = ground (
  arith,
  bounded_loop-last at limit keep events kept p h,
  bounded_loop-last at limit keep events (push_bounded limit kept e) p,
  length-push_bounded limit kept e p h,
  push_bounded-last limit kept e (keep_if (passes at keep) events) p h,
)

-- What is kept are the last events of those that are young enough and pass the test, in their order.
pub bounded_events-last :
    (at limit : ℕ) (keep : StoredEvent → Bool) (events : List StoredEvent)
    → 0 < limit
    → bounded_events at limit keep events ≡ last limit (keep_if (passes at keep) events)
unfolding bounded_events
bounded_events-last at limit keep events p =
    bounded_loop-last at limit keep events [] p (omega arith)

pub length-bounded_events :
    (at limit : ℕ) (keep : StoredEvent → Bool) (events : List StoredEvent)
    → 0 < limit
    → length (bounded_events at limit keep events) ≤ limit
length-bounded_events at limit keep events p =
    rw (bounded_events-last at limit keep events p)
      (length-last limit (keep_if (passes at keep) events))
