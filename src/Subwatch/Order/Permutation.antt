-- ===== src/Subwatch/Order/Permutation.antt =====
-- The order of `walkOrder` against the servers of all subscriptions.
use vpn_director.Prelude.{
  ℕ, zero, suc, ◌≡◌, refl, inl, inr, ap, sym, Option, none, some, List, [], ◌∷◌, ◌++◌, Option-cases,
  take, drop, get_elem?, arith, append_assoc, append-nil,
}
use mathlib.Core.List.{Perm}
use mathlib.Core.List.Perm
use vpn_director.VpnConfig.Config.{ActiveServer}
use vpn_director.VpnConfig.Servers.{Server, Kinds, Subscription, tag_servers, all_servers}
use vpn_director.Subwatch.Choice.{chosen_index, pick_order, move_to_front}
use vpn_director.Subwatch.Order.{
  own_first, turns, enough_turns, queues_of, own_index, order_from, walk_order,
}
use vpn_director.Subwatch.Order.Turns.{
  joined, turns-perm, enough_turns-joined, take-drop, front-perm, joined-append, joined-split,
  turning-perm,
}

joined-queues_of : (subs : List Subscription) → joined (queues_of subs) ≡ all_servers subs
unfolding queues_of all_servers
joined-queues_of [] = refl
joined-queues_of (sub ∷ subs) =
    ap (λ ys. tag_servers sub.id sub.servers ++ ys) (joined-queues_of subs)

queue_of-own :
    (subs : List Subscription) (a : Option ActiveServer) (i : ℕ)
    → own_index subs a ≡ some i
    → (q : List Server) × (get_elem? (queues_of subs) i ≡ some q)
unfolding own_index queues_of
queue_of-own subs none i e = cc
queue_of-own [] (some a) i e = cc
queue_of-own (sub ∷ subs) (some a) zero e = (tag_servers sub.id sub.servers, refl)
queue_of-own (sub ∷ subs) (some a) (suc i) e = queue_of-own subs (some a) i later
  where
    later : own_index subs (some a) ≡ some i
    later = ground arith

move_to_front-perm : (servers : List Server) (i : ℕ) → Perm (move_to_front servers i) servers
move_to_front-perm servers i = elim (Option-cases (get_elem? servers i)) [
  | inl e ↦ rw (none_front e) (Perm.refl servers)
  | inr (s, e) ↦ rw (some_front s e) (front-perm servers i s e)
]
  where
    none_front : get_elem? servers i ≡ none → move_to_front servers i ≡ servers
    none_front e = unfold move_to_front in ground arith

    some_front :
        (s : Server)
        → get_elem? servers i ≡ some s
        → move_to_front servers i ≡ s ∷ (take i servers ++ drop (suc i) servers)
    some_front s e = unfold move_to_front in ground arith

module _ (kinds : Kinds) where
  pick_order-perm :
      (servers : List Server) (chosen : Option ActiveServer)
      → Perm (pick_order kinds servers chosen) servers
  pick_order-perm servers chosen = elim (Option-cases (chosen_index kinds servers chosen)) [
    | inl e ↦ rw (none_picked e) (Perm.refl servers)
    | inr (i, e) ↦ rw (some_picked i e) (move_to_front-perm servers i)
  ]
    where
      none_picked :
          chosen_index kinds servers chosen ≡ none → pick_order kinds servers chosen ≡ servers
      none_picked e = unfold pick_order in ground arith

      some_picked :
          (i : ℕ)
          → chosen_index kinds servers chosen ≡ some i
          → pick_order kinds servers chosen ≡ move_to_front servers i
      some_picked i e = unfold pick_order in ground arith

  order_from-perm :
      (queues : List (List Server)) (chosen : Option ActiveServer) (i : ℕ) (q : List Server)
      → get_elem? queues i ≡ some q
      → Perm (order_from kinds queues chosen i).0 (joined queues)
  order_from-perm queues chosen i q e =
      rw (from_queue, joined-split queues i q e)
        (Perm.trans
          (Perm.append_left p (
            rw (sym turning_joined)
              (turns-perm (enough_turns turning) turning (enough_turns-joined turning))))
          (turning-perm p r q ds ks picked))
    where
      order : List Server
      order = pick_order kinds q chosen

      p : List Server
      p = take own_first order

      r : List Server
      r = drop own_first order

      ds : List Server
      ds = joined (drop (suc i) queues)

      ks : List Server
      ks = joined (take i queues)

      turning : List (List Server)
      turning = drop (suc i) queues ++ take i queues ++ r ∷ []

      from_queue : (order_from kinds queues chosen i).0 ≡ p ++ turns (enough_turns turning) turning
      from_queue = unfold order_from in ground arith

      turning_joined : joined turning ≡ ds ++ (ks ++ r)
      turning_joined =
          rw
            (
              joined-append (drop (suc i) queues ++ take i queues) (r ∷ []),
              joined-append (drop (suc i) queues) (take i queues),
              append-nil r,
              append_assoc ds ks r,
            )
            refl

      picked : Perm (p ++ r) q
      picked = rw (take-drop own_first order) (pick_order-perm q chosen)

  -- The order of a walk has every server of every subscription, each as often as it is listed.
  pub walk_order-perm :
      (subs : List Subscription) (chosen : Option ActiveServer)
      → Perm (walk_order kinds subs chosen).0 (all_servers subs)
  walk_order-perm subs chosen = elim (Option-cases (own_index subs chosen)) [
    | inl e ↦
        rw (no_own e, sym (joined-queues_of subs))
          (turns-perm (enough_turns queues) queues (enough_turns-joined queues))
    | inr (i, e) ↦
        let (q, f) = queue_of-own subs chosen i e in
        rw (own i e, sym (joined-queues_of subs)) (order_from-perm queues chosen i q f)
  ]
    where
      queues : List (List Server)
      queues = queues_of subs

      no_own :
          own_index subs chosen ≡ none
          → (walk_order kinds subs chosen).0 ≡ turns (enough_turns queues) queues
      no_own e = unfold walk_order in ground arith

      own :
          (i : ℕ)
          → own_index subs chosen ≡ some i
          → (walk_order kinds subs chosen).0 ≡ (order_from kinds queues chosen i).0
      own i e = unfold walk_order in ground arith
