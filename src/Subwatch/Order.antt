-- ===== src/Subwatch/Order.antt =====
-- server/internal/subwatch/order.go: the order in which a walk tries the servers of all
-- subscriptions.
pub mod First
pub mod Permutation
pub mod Turns
use vpn_director.Prelude.{
  ℕ, zero, suc, ◌+◌, Text, Bool, true, false, Option, none, some, List, [], ◌∷◌, ◌++◌,
  if◌then◌else◌, ◌==◌, text_eq, take, drop, get_elem?, length, map,
}
use vpn_director.VpnConfig.Config.{ActiveServer}
use vpn_director.VpnConfig.Servers.{Server, Kinds, Subscription, tag_servers}
use vpn_director.Subwatch.Choice.{chosen_index, pick_order}

abbrev pub own_first : ℕ
own_first = 3

module _ {ℓ} {A : Type ℓ} where
  -- one pass of the loop over the subscriptions: the first server of each queue, and what is left
  unfoldable pub pass : List (List A) → List A × List (List A)
  pass [] = ([], [])
  pass ([] ∷ queues) = let (placed, left) = pass queues in (placed, [] ∷ left)
  pass ((s ∷ q) ∷ queues) = let (placed, left) = pass queues in (s ∷ placed, q ∷ left)

  -- the passes until one places nothing
  unfoldable pub turns : ℕ → List (List A) → List A
  turns zero queues = []
  turns (suc fuel) queues =
      let (placed, left) = pass queues in
      let rest = turns fuel left in elim placed [ [] ↦ [] | s ∷ more ↦ (s ∷ more) ++ rest ]

  -- one pass more than the servers
  unfoldable pub enough_turns : List (List A) → ℕ
  enough_turns [] = 1
  enough_turns (q ∷ queues) = length q + enough_turns queues

unfoldable pub queues_of : List Subscription → List (List Server)
queues_of [] = []
queues_of (sub ∷ subs) = tag_servers sub.id sub.servers ∷ queues_of subs

-- the index of the chosen server's subscription, `own`
unfoldable pub own_index : List Subscription → Option ActiveServer → Option ℕ
own_index subs none = none
own_index [] (some a) = none
own_index (sub ∷ subs) (some a) =
    let rest = own_index subs (some a) in
    if text_eq sub.id a.subscription
    then some 0
    else elim rest [ none ↦ none | some i ↦ some (suc i) ]

module _ (kinds : Kinds) where
  -- The turns start behind the own subscription and come round to what is left of it.
  unfoldable pub order_from : List (List Server) → Option ActiveServer → ℕ → List Server × Bool
  order_from queues chosen own = elim (get_elem? queues own) [
    | none ↦ ([], false)
    | some queue ↦
        let q = pick_order kinds queue chosen in
        let turning = drop (suc own) queues ++ take own queues ++ drop own_first q ∷ [] in
        (
          take own_first q ++ turns (enough_turns turning) turning,
          elim (chosen_index kinds queue chosen) [ none ↦ false | some _ ↦ true ],
        )
  ]

  -- `walkOrder`
  unfoldable pub walk_order : List Subscription → Option ActiveServer → List Server × Bool
  walk_order subs chosen = elim (own_index subs chosen) [
    | none ↦ (turns (enough_turns (queues_of subs)) (queues_of subs), false)
    | some own ↦ order_from (queues_of subs) chosen own
  ]
