-- ===== src/Subwatch/Best/Ordered.antt =====
-- What `orderBest` orders, and how, without the ranks.
use mathlib.Core.Path.{subst}
use vpn_director.Prelude.{
  ℕ, Text, text_eq, ltb, if◌then◌else◌, none, some, ◌||◌, Bool, true, false, ◌&&◌, not, List, [],
  ◌∷◌, ◌≡◌, refl, sym, ap, ◌∙◌, all, keep_if, arith, Option-cases, inl, inr,
}
use mathlib.Core.List.{Perm}
use vpn_director.VpnConfig.Servers.{Server, Kinds}
use vpn_director.Monitor.Entries.{Status, alive, rejected, same_status}
use vpn_director.Monitor.State.{find_key}
use vpn_director.Monitor.Evidence.{Evidence}
use vpn_director.Subwatch.Best.{
  BestRef, ranks_before, is_left_out, ranked, order_best, tier_of, is_alive_server, is_status_alive,
  is_status_rejected, latency_of, known_state, state_of,
}
use vpn_director.Subwatch.Best.Ranks.{
  is_sorted, same_rank, rank_all, not_left_out, of_rank, order_best-ranked,
}

-- the ranks of two copies, from whether each is alive, of the group and of the subscription
rank_facts :
    (s t : Server) (a g o b h q : Bool) (l m : ℕ)
    → ranks_before
        (record { server = s; tier = tier_of a g o; latency = if a then l else 0 })
        (record { server = t; tier = tier_of b h q; latency = if b then m else 0 })
      ≡ (if not a
          then not b && g && not h
          else if not b
          then true
          else if g && not h
          then true
          else if h && not g
          then false
          else if o && not q
          then true
          else if q && not o
          then false
          else ltb l m)
unfolding ranks_before tier_of
rank_facts s t a g o b h q l m = ground arith

module _ (kinds : Kinds) (key : Server → Text) (ref : BestRef) (e : Evidence) (ok : Bool) where
  -- what the monitor says of a copy, where its evidence is valid
  abbrev pub is_found_as : Status → Server → Bool
  is_found_as status c = ok && elim (find_key e.found (key c)) [
    | none ↦ false
    | some (st, proof) ↦ same_status st.status status
  ]

  abbrev pub latency_at : Server → ℕ
  latency_at c = elim (find_key e.found (key c)) [ none ↦ 0 | some (st, proof) ↦ st.latency_ms ]

  abbrev pub of_group : Server → Bool
  of_group c = text_eq ref.group [] || text_eq (kinds.group c) ref.group

  abbrev pub of_subscription : Server → Bool
  of_subscription c = text_eq c.subscription ref.subscription

  -- An alive copy goes before one that is not. Of two alive ones the one of the group goes before,
  -- then the one of the subscription, then the faster one; of two others the one of the group.
  unfoldable pub goes_before : Server → Server → Bool
  goes_before a b =
      if not (is_found_as alive a)
      then not (is_found_as alive b) && of_group a && not (of_group b)
      else if not (is_found_as alive b)
      then true
      else if of_group a && not (of_group b)
      then true
      else if of_group b && not (of_group a)
      then false
      else if of_subscription a && not (of_subscription b)
      then true
      else if of_subscription b && not (of_subscription a)
      then false
      else ltb (latency_at a) (latency_at b)

  -- none comes behind one that it goes before
  unfoldable pub is_in_order : List Server → Bool
  is_in_order [] = true
  is_in_order (c ∷ cs) = all (λ d. not (goes_before d c)) cs && is_in_order cs

  -- neither goes before the other
  unfoldable pub is_level : Server → Server → Bool
  is_level a b = not (goes_before a b) && not (goes_before b a)

  unfoldable pub not_rejected : List Server → List Server
  not_rejected = keep_if (λ c. not (is_found_as rejected c))

  alive_lem : (c : Server) → is_alive_server kinds key ref e ok c ≡ is_found_as alive c
  unfolding is_alive_server is_status_alive known_state state_of
  alive_lem c = elim (Option-cases (find_key e.found (key c))) [
    | inl n ↦ rw n refl
    | inr (found, f) ↦ rw f refl
  ]

  left_out_lem : (c : Server) → is_left_out kinds key ref e ok c ≡ is_found_as rejected c
  unfolding is_left_out is_status_rejected known_state state_of
  left_out_lem c = elim (Option-cases (find_key e.found (key c))) [
    | inl n ↦ rw n refl
    | inr (found, f) ↦ rw f refl
  ]

  latency_lem : (c : Server) → latency_of (known_state kinds key ref e ok c) ≡ latency_at c
  unfolding latency_of known_state state_of
  latency_lem c = elim (Option-cases (find_key e.found (key c))) [
    | inl n ↦ ground arith
    | inr (found, f) ↦ ground arith
  ]

  ranks_lem :
      (a b : Server)
      → ranks_before (ranked kinds key ref e ok a) (ranked kinds key ref e ok b) ≡ goes_before a b
  unfolding ranked goes_before
  ranks_lem a b =
      rw (alive_lem a, alive_lem b, latency_lem a, latency_lem b)
        (rank_facts a b (is_found_as alive a) (of_group a) (of_subscription a) (is_found_as alive b)
          (of_group b) (of_subscription b) (latency_at a) (latency_at b))

  -- the order by ranks is this order
  none_before_lem :
      (c : Server) (cs : List Server)
      → all
          (λ y. not (ranks_before y (ranked kinds key ref e ok c)))
          (rank_all kinds key ref e ok cs)
        ≡ all (λ d. not (goes_before d c)) cs
  unfolding rank_all all
  none_before_lem c [] = refl
  none_before_lem c (d ∷ ds) = ground (arith, none_before_lem c ds, ranks_lem d c)

  in_order_lem : (cs : List Server) → is_sorted (rank_all kinds key ref e ok cs) ≡ is_in_order cs
  unfolding is_sorted rank_all is_in_order
  in_order_lem [] = refl
  in_order_lem (c ∷ cs) = ground (arith, in_order_lem cs, none_before_lem c cs)

  of_rank_lem :
      (r : Server) (cs : List Server)
      → of_rank kinds key ref e ok (ranked kinds key ref e ok r) cs ≡ keep_if (λ c. is_level c r) cs
  unfolding of_rank same_rank is_level keep_if
  of_rank_lem r [] = refl
  of_rank_lem r (c ∷ cs) = ground (arith, of_rank_lem r cs, ranks_lem c r, ranks_lem r c)

  left_out_all : (cs : List Server) → not_left_out kinds key ref e ok cs ≡ not_rejected cs
  unfolding not_left_out not_rejected keep_if
  left_out_all [] = refl
  left_out_all (c ∷ cs) = ground (arith, left_out_all cs, left_out_lem c)

  -- The order holds each copy that the monitor has not rejected, by evidence that is valid, as often as
  -- the list does. None comes behind one that it goes before: an alive copy before one that is not, of
  -- two alive ones first that of the group, then that of the subscription, then the faster one, and of
  -- two others that of the group. Those of which neither goes before the other keep their order.
  pub order_best-sorted :
      (copies : List Server) (r : Server)
      → Perm (not_rejected copies) (order_best kinds key ref e ok copies)
        × (is_in_order (order_best kinds key ref e ok copies) ≡ true)
        × (keep_if (λ c. is_level c r) (order_best kinds key ref e ok copies)
            ≡ keep_if (λ c. is_level c r) (not_rejected copies))
  order_best-sorted copies r =
      let out = order_best kinds key ref e ok copies in
      let (same, sorted, stable) =
        order_best-ranked kinds key ref e ok copies (ranked kinds key ref e ok r) in
      (
        subst (λ t. Perm t out) (left_out_all copies) same,
        sym (in_order_lem out) ∙ sorted,
        sym (of_rank_lem r out)
            ∙ stable
            ∙ of_rank_lem r (not_left_out kinds key ref e ok copies)
            ∙ ap (keep_if (λ c. is_level c r)) (left_out_all copies),
      )
