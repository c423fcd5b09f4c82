-- ===== src/Subwatch/Order/First.antt =====
-- The front of the order of `walkOrder`, and what the function reports of it.
use vpn_director.Prelude.{
  ℕ, suc, true, ◌≡◌, ◌∙◌, ap, inl, inr, some, List, [], ◌∷◌, ◌++◌, take, drop, get_elem?,
  Option-cases, arith,
}
use vpn_director.VpnConfig.Config.{ActiveServer}
use vpn_director.VpnConfig.Servers.{Server, Kinds, Subscription, same_choice}
use vpn_director.Subwatch.Choice.{chosen_index, move_to_front, pick_order}
use vpn_director.Subwatch.Choice.Best.{chosen_index-entry}
use vpn_director.Subwatch.Order.{
  own_first, turns, enough_turns, queues_of, own_index, order_from, walk_order,
}

module _ (kinds : Kinds) (a : ActiveServer) where
  pick_order-head :
      (servers : List Server) (i : ℕ) (s : Server)
      → chosen_index kinds servers (some a) ≡ some i
      → get_elem? servers i ≡ some s
      → pick_order kinds servers (some a) ≡ s ∷ (take i servers ++ drop (suc i) servers)
  unfolding pick_order move_to_front
  pick_order-head servers i s e g = ground arith

  -- the order from the own queue q, and whether it holds the chosen server
  order_from-queue :
      (queues : List (List Server)) (own : ℕ) (q : List Server)
      → get_elem? queues own ≡ some q
      → (rest : List Server) × ((order_from kinds queues (some a) own).0
          ≡ take own_first (pick_order kinds q (some a)) ++ rest)
  order_from-queue queues own q e =
      let turning =
        drop (suc own) queues
        ++ take own queues
        ++ drop own_first (pick_order kinds q (some a)) ∷ [] in
      (turns (enough_turns turning) turning, unfold order_from in ground arith)

  own_queue :
      (queues : List (List Server)) (own : ℕ)
      → (order_from kinds queues (some a) own).1 ≡ true
      → (q : List Server) × (i : ℕ) × (get_elem? queues own ≡ some q)
        × (chosen_index kinds q (some a) ≡ some i)
  own_queue queues own h = elim (Option-cases (get_elem? queues own)) [
    | inl e ↦ unfold order_from in ground arith
    | inr (q, e) ↦ elim (Option-cases (chosen_index kinds q (some a))) [
      | inl f ↦ unfold order_from in ground arith
      | inr (i, f) ↦ (q, i, e, f)
    ]
  ]

  order_from-head :
      (queues : List (List Server)) (own : ℕ)
      → (order_from kinds queues (some a) own).1 ≡ true
      → (s : Server) × (rest : List Server) × ((order_from kinds queues (some a) own).0 ≡ s ∷ rest)
        × (same_choice kinds a s ≡ true)
  order_from-head queues own h =
      let (q, i, e, f) = own_queue queues own h in
      let (s, g, c) = chosen_index-entry kinds a q i f in
      let (rest, order) = order_from-queue queues own q e in
      let others = take i q ++ drop (suc i) q in
      (
        s,
        take 2 others ++ rest,
        order ∙ ap (λ ys. take own_first ys ++ rest) (pick_order-head q i s f g),
        c,
      )

  -- A walk that reports its chosen server first starts with an entry of the choice.
  pub walk_order-first :
      (subs : List Subscription)
      → (walk_order kinds subs (some a)).1 ≡ true
      → (s : Server) × (rest : List Server) × ((walk_order kinds subs (some a)).0 ≡ s ∷ rest)
        × (same_choice kinds a s ≡ true)
  walk_order-first subs h = elim (Option-cases (own_index subs (some a))) [
    | inl e ↦ unfold walk_order in ground arith
    | inr (own, e) ↦
        let (s, rest, g, c) = order_from-head (queues_of subs) own (from own e) in
        (s, rest, unfold walk_order in ground arith, c)
  ]
    where
      from :
          (own : ℕ)
          → own_index subs (some a) ≡ some own
          → (order_from kinds (queues_of subs) (some a) own).1 ≡ true
      from own e = unfold walk_order in ground arith
