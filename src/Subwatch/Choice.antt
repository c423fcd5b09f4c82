-- ===== src/Subwatch/Choice.antt =====
-- Which listed server a record names: `sameServer`, `chosenIndex` and `pickOrder` of
-- server/internal/subwatch/watch.go.
pub mod Best
use vpn_director.Prelude.{
  ℕ, zero, suc, ◌+◌, Text, Bool, true, false, ◌&&◌, ◌||◌, not, Option, none, some, List, [], ◌∷◌,
  ◌++◌, if◌then◌else◌, ◌==◌, ltb, text_eq, take, drop, get_elem?,
}
use vpn_director.VpnConfig.Config.{ActiveServer}
use vpn_director.VpnConfig.Servers.{
  Server, Kinds, Subscription, same_choice, find_subscription, tag_servers,
}

unfoldable pub same_server : Server → ActiveServer → Bool
same_server s a =
    text_eq s.subscription a.subscription
    && text_eq s.name a.name
    && ((text_eq a.address [] && a.port == 0) || (text_eq s.address a.address && s.port == a.port))

-- the entry at the index first, then those before it and those behind it
unfoldable pub move_to_front : List Server → ℕ → List Server
move_to_front servers i = elim (get_elem? servers i) [
  | none ↦ servers
  | some s ↦ s ∷ (take i servers ++ drop (suc i) servers)
]

module _ (kinds : Kinds) where
  -- 0 at the record's address with its mark, 1 there without it, 2 and 3 elsewhere
  unfoldable pub rank : ActiveServer → Server → ℕ
  rank a s =
      (if same_server s a then 0 else 2)
      + (if text_eq a.identity [] || not (text_eq (kinds.identity_mark s) a.identity) then 1 else 0)

  -- the loop, with the index, the best entry so far and its rank
  unfoldable pub chosen_loop : ActiveServer → List Server → ℕ → Option ℕ → ℕ → Option ℕ
  chosen_loop a [] i best best_rank = best
  chosen_loop a (s ∷ ss) i best best_rank =
      let skip = chosen_loop a ss (suc i) best best_rank in
      let take_it = chosen_loop a ss (suc i) (some i) (rank a s) in
      if not (same_choice kinds a s)
      then skip
      else if ltb (rank a s) best_rank
      then (if rank a s == 0 then some i else take_it)
      else if best_rank == 0
      then best
      else skip

  -- `chosenIndex`; `none` is -1
  unfoldable pub chosen_index : List Server → Option ActiveServer → Option ℕ
  chosen_index servers none = none
  chosen_index servers (some a) = if text_eq a.name [] then none else chosen_loop a servers 0 none 4

  unfoldable pub pick_order : List Server → Option ActiveServer → List Server
  pick_order servers chosen = elim (chosen_index servers chosen) [
    | none ↦ servers
    | some i ↦ move_to_front servers i
  ]
