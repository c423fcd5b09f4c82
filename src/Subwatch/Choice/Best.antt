-- ===== src/Subwatch/Choice/Best.antt =====
-- `chosenIndex` and the ranks of the entries of a choice.
use vpn_director.Prelude.{
  ℕ, zero, suc, ◌+◌, ◌≤◌, ◌<◌, true, false, ◌≡◌, ◌⊎◌, inl, inr, refl, ◌∙◌, ap, sym, Bool-cases,
  Option, none, some, List, [], ◌∷◌, text_eq, get_elem?, arith,
}
use vpn_director.VpnConfig.Config.{ActiveServer}
use vpn_director.VpnConfig.Servers.{Server, Kinds, same_choice}
use vpn_director.Subwatch.Choice.{rank, chosen_loop, chosen_index}

module _ (kinds : Kinds) (a : ActiveServer) where
  rank_bound : (s : Server) → rank kinds a s < 4
  unfolding rank
  rank_bound s = ground arith

  -- every entry of the choice has at least this rank
  abbrev Above : List Server → ℕ → Type 0
  Above ss r =
      (j : ℕ) (t : Server)
      → get_elem? ss j ≡ some t
      → same_choice kinds a t ≡ true
      → r ≤ rank kinds a t

  Above-cons :
      (s : Server) (ss : List Server) (r : ℕ)
      → (same_choice kinds a s ≡ true → r ≤ rank kinds a s)
      → Above ss r
      → Above (s ∷ ss) r
  Above-cons s ss r h f zero t g c = ground arith
  Above-cons s ss r h f (suc j) t g c = f j t g c

  -- the entry at j is the first with the least rank
  abbrev IsFirstBest : List Server → ℕ → Server → Type 0
  IsFirstBest ss j s =
      (get_elem? ss j ≡ some s)
      × (same_choice kinds a s ≡ true)
      × ((i : ℕ) (t : Server)
          → get_elem? ss i ≡ some t
          → same_choice kinds a t ≡ true
          → (rank kinds a s ≤ rank kinds a t) × ((j ≤ i) ⊎ (rank kinds a s < rank kinds a t)))

  head_best :
      (s : Server) (ss : List Server)
      → same_choice kinds a s ≡ true
      → Above ss (rank kinds a s)
      → IsFirstBest (s ∷ ss) 0 s
  head_best s ss c f = (
    refl,
    c,
    λ i t g d. (Above-cons s ss (rank kinds a s) (λ _. omega arith) f i t g d, inl (omega arith)),
  )

  tail_best :
      (s : Server) (ss : List Server) (j : ℕ) (u : Server)
      → (same_choice kinds a s ≡ true → rank kinds a u < rank kinds a s)
      → IsFirstBest ss j u
      → IsFirstBest (s ∷ ss) (suc j) u
  tail_best s ss j u h (g, c, f) = (g, c, later)
    where
      later :
          (i : ℕ) (t : Server)
          → get_elem? (s ∷ ss) i ≡ some t
          → same_choice kinds a t ≡ true
          → (rank kinds a u ≤ rank kinds a t) × ((suc j ≤ i) ⊎ (rank kinds a u < rank kinds a t))
      later zero t e d = ground arith
      later (suc i) t e d = ground (arith, f i t e d)

  -- what the loop returns, from the best so far and its rank
  abbrev Found : List Server → ℕ → Option ℕ → ℕ → Type 0
  Found ss i best r =
      ((chosen_loop kinds a ss i best r ≡ best) × Above ss r)
      ⊎ ((j : ℕ) × (s : Server) × (chosen_loop kinds a ss i best r ≡ some (j + i))
          × (rank kinds a s < r)
          × IsFirstBest ss j s)

  skipped :
      (s : Server) (ss : List Server) (i : ℕ) (best : Option ℕ) (r : ℕ)
      → chosen_loop kinds a (s ∷ ss) i best r ≡ chosen_loop kinds a ss (suc i) best r
      → (same_choice kinds a s ≡ true → r ≤ rank kinds a s)
      → Found ss (suc i) best r
      → Found (s ∷ ss) i best r
  skipped s ss i best r e h found = elim found [
    | inl (q, f) ↦ inl (rw e q, Above-cons s ss r h f)
    | inr (j, u, q, l, b) ↦
        inr (
          suc j,
          u,
          e ∙ q ∙ ap some (omega arith),
          l,
          tail_best s ss j u (λ c. omega (arith, h c)) b,
        )
  ]

  taken :
      (s : Server) (ss : List Server) (i : ℕ) (best : Option ℕ) (r : ℕ)
      → chosen_loop kinds a (s ∷ ss) i best r
        ≡ chosen_loop kinds a ss (suc i) (some i) (rank kinds a s)
      → same_choice kinds a s ≡ true
      → rank kinds a s < r
      → Found ss (suc i) (some i) (rank kinds a s)
      → Found (s ∷ ss) i best r
  taken s ss i best r e c l found = elim found [
    | inl (q, f) ↦ inr (0, s, e ∙ q ∙ ap some (omega arith), l, head_best s ss c f)
    | inr (j, u, q, m, b) ↦
        inr (suc j, u, e ∙ q ∙ ap some (omega arith), omega arith, tail_best s ss j u (λ _. m) b)
  ]

  chosen_loop-Found : (ss : List Server) (i : ℕ) (best : Option ℕ) (r : ℕ) → Found ss i best r
  chosen_loop-Found [] i best r = inl (start, λ j t g c. cc)
    where
      start : chosen_loop kinds a [] i best r ≡ best
      start = unfold chosen_loop in refl
  chosen_loop-Found (s ∷ ss) i best r = elim (Bool-cases (same_choice kinds a s)) [
    | inr n ↦ skipped s ss i best r (unmatched n) (λ c. cc) (chosen_loop-Found ss (suc i) best r)
    | inl c ↦ elim (decide (rank kinds a s) r) [
      | inl l ↦ elim (decide 0 (rank kinds a s)) [
        | inl pos ↦
            taken s ss i best r (better c l pos) c l
              (chosen_loop-Found ss (suc i) (some i) (rank kinds a s))
        | inr z ↦
            inr (
              0,
              s,
              stop c l z ∙ ap some (omega arith),
              l,
              head_best s ss c (λ j t g d. omega arith),
            )
      ]
      | inr ge ↦ elim (decide 0 r) [
        | inl pos ↦
            skipped s ss i best r (worse c ge pos) (λ _. ge) (chosen_loop-Found ss (suc i) best r)
        | inr z ↦ inl (kept c ge z, λ j t g d. omega arith)
      ]
    ]
  ]
    where
      decide : (m n : ℕ) → (m < n) ⊎ (n ≤ m)
      decide m n = omega arith

      unmatched :
          same_choice kinds a s ≡ false
          → chosen_loop kinds a (s ∷ ss) i best r ≡ chosen_loop kinds a ss (suc i) best r
      unmatched n = unfold chosen_loop in ground arith

      better :
          same_choice kinds a s ≡ true
          → rank kinds a s < r
          → 0 < rank kinds a s
          → chosen_loop kinds a (s ∷ ss) i best r
            ≡ chosen_loop kinds a ss (suc i) (some i) (rank kinds a s)
      better c l pos = unfold chosen_loop in ground arith

      stop :
          same_choice kinds a s ≡ true
          → rank kinds a s < r
          → rank kinds a s ≤ 0
          → chosen_loop kinds a (s ∷ ss) i best r ≡ some i
      stop c l z = unfold chosen_loop in ground arith

      worse :
          same_choice kinds a s ≡ true
          → r ≤ rank kinds a s
          → 0 < r
          → chosen_loop kinds a (s ∷ ss) i best r ≡ chosen_loop kinds a ss (suc i) best r
      worse c ge pos = unfold chosen_loop in ground arith

      kept :
          same_choice kinds a s ≡ true
          → r ≤ rank kinds a s
          → r ≤ 0
          → chosen_loop kinds a (s ∷ ss) i best r ≡ best
      kept c ge z = unfold chosen_loop in ground arith

  -- Where the record has a name and the list an entry of its choice, the index found is that of an
  -- entry of the choice whose rank is no higher, and lower if it stands behind that entry.
  pub chosen_index-best :
      (servers : List Server) (j : ℕ) (t : Server)
      → text_eq a.name [] ≡ false
      → get_elem? servers j ≡ some t
      → same_choice kinds a t ≡ true
      → (i : ℕ) × (s : Server) × (chosen_index kinds servers (some a) ≡ some i)
        × (get_elem? servers i ≡ some s)
        × (same_choice kinds a s ≡ true)
        × (rank kinds a s ≤ rank kinds a t)
        × ((i ≤ j) ⊎ (rank kinds a s < rank kinds a t))
  unfolding chosen_index
  chosen_index-best servers j t n g c = elim (chosen_loop-Found servers 0 none 4) [
    | inl (q, f) ↦ absurd (omega (arith, f j t g c, rank_bound t))
    | inr (i, s, q, l, (e, d, f)) ↦
        let (le, first) = f j t g c in (i, s, rw n (q ∙ ap some (omega arith)), e, d, le, first)
  ]

  -- An index found is that of an entry of the choice.
  pub chosen_index-entry :
      (servers : List Server) (i : ℕ)
      → chosen_index kinds servers (some a) ≡ some i
      → (s : Server) × (get_elem? servers i ≡ some s) × (same_choice kinds a s ≡ true)
  unfolding chosen_index
  chosen_index-entry servers i h = elim (Bool-cases (text_eq a.name [])) [
    | inl y ↦ cc
    | inr n ↦ elim (chosen_loop-Found servers 0 none 4) [
      | inl (q, f) ↦ cc
      | inr (j, s, q, l, (e, d, f)) ↦ (s, rw (sym (index j n q)) e, d)
    ]
  ]
    where
      index :
          (j : ℕ)
          → text_eq a.name [] ≡ false
          → chosen_loop kinds a servers 0 none 4 ≡ some (j + 0)
          → j ≡ i
      index j n q = ground arith
