-- ===== src/Subwatch/Returns.antt =====
-- Where a switch of the watch goes and comes back to: `aliveFor` and `rollbackOrder` of
-- server/internal/subwatch/return.go, and the candidates of `replaceActive` of keeper.go. The keys of
-- an endpoint, a hash and a JSON text of what is dialed, are arguments.
pub mod Ways
use vpn_director.Prelude.{
  ℕ, ◌+◌, Text, text_eq, Bool, true, false, ◌&&◌, ◌||◌, not, Option, none, some, List, [], ◌∷◌,
  ◌++◌, if◌then◌else◌, ◌==◌, ltb, leb, get_elem?, map, keep_if, contains,
}
use vpn_director.VpnConfig.Config.{ActiveServer}
use vpn_director.VpnConfig.Servers.{Server, Kinds, Subscription, same_choice}
use vpn_director.Monitor.Entries.{EndpointState}
use vpn_director.Monitor.State.{find_key}
use vpn_director.Monitor.Evidence.{Evidence}
use vpn_director.Subwatch.Choice.{chosen_index, same_server}
use vpn_director.Subwatch.Order.{walk_order}
use vpn_director.Subwatch.Best.{BestRef, state_of, is_status_alive, latency_of, order_best}
use vpn_director.Subwatch.Watch.Guards.{unit_separator}
use vpn_director.Subwatch.Copies.{per_address, server_id, dial_ip}

-- a copy that is alive, with its latency
pub record Held : Type 0 where
  pub server : Server
  pub latency : ℕ

-- alive for at least as long; times are in seconds
unfoldable pub is_held : ℕ → ℕ → Option EndpointState → Bool
is_held now wait none = false
is_held now wait (some st) = is_status_alive (some st) && leb (st.since + wait) now

unfoldable pub insert_held : Held → List Held → List Held
insert_held x [] = x ∷ []
insert_held x (y ∷ ys) =
    let rest = insert_held x ys in if ltb y.latency x.latency then y ∷ rest else x ∷ y ∷ ys

-- the stable sort
unfoldable pub sort_held : List Held → List Held
sort_held [] = []
sort_held (x ∷ xs) = insert_held x (sort_held xs)

module _ (key : Server → Text) (e : Evidence) (now wait : ℕ) where
  unfoldable pub held_copies : List Server → List Held
  held_copies [] = []
  held_copies (c ∷ cs) =
      let rest = held_copies cs in
      let st = state_of (find_key e.found (key c)) in
      if is_held now wait st then record { server = c; latency = latency_of st } ∷ rest else rest

  -- `aliveFor`
  unfoldable pub alive_for : List Server → List Server
  alive_for copies = map (λ h. h.server) (sort_held (held_copies copies))

unfoldable pub is_server_of : Server → Option ActiveServer → Bool
is_server_of s none = false
is_server_of s (some a) = same_server s a

module _ (ipv4 : Text → Text) where
  unfoldable pub is_copy : Server → Server → Bool
  is_copy last c =
      text_eq (server_id c) (server_id last) && text_eq (dial_ip ipv4 c) (dial_ip ipv4 last)

  -- the remembered copy among the copies, and the others in their order
  unfoldable pub take_copy : Server → List Server → Option (Server × List Server)
  take_copy last [] = none
  take_copy last (c ∷ cs) =
      let rest = take_copy last cs in
      if is_copy last c
      then some (c, cs)
      else elim rest [ none ↦ none | some (d, ds) ↦ some (d, c ∷ ds) ]

  unfoldable pub way_back : List Server → Option ActiveServer → Option Server → List Server
  way_back copies before none = copies
  way_back copies before (some last) = elim (take_copy last copies) [
    | some (c, cs) ↦ c ∷ cs
    | none ↦
        if not (is_server_of last before)
        then copies
        else last ∷ keep_if (λ c. not (text_eq (dial_ip ipv4 c) (dial_ip ipv4 last))) copies
  ]

  module _ (kinds : Kinds) where
    -- the copies of the entry that the record names
    unfoldable pub entry_copies : List Server → Option ActiveServer → List Server
    entry_copies servers before = elim (chosen_index kinds servers before) [
      | none ↦ []
      | some j ↦ elim (get_elem? servers j) [ none ↦ [] | some s ↦ per_address (s ∷ []) ]
    ]

    -- `rollbackOrder`
    unfoldable pub rollback_order : List Server → Option ActiveServer → Option Server → List Server
    rollback_order servers before last = way_back (entry_copies servers before) before last

  module _ (dial_key : Server → Text) where
    -- `leftKey`
    unfoldable pub left_key : Server → Text
    left_key c =
        if text_eq (dial_key c) []
        then 0 ∷ server_id c ++ (unit_separator ∷ dial_ip ipv4 c)
        else dial_key c

    unfoldable pub left_keys : List Server → List Text
    left_keys copies = map left_key copies

    module _ (kinds : Kinds) (dead : Option Server) (replaced : ActiveServer) where
      -- a copy of the dead server's current entry
      unfoldable pub is_dead : Server → Bool
      is_dead c = elim dead [
        | none ↦ false
        | some d ↦ text_eq (server_id c) (server_id d) && same_choice kinds replaced c
      ]

      unfoldable pub dead_keys : List Text
      dead_keys = elim dead [ none ↦ [] | some d ↦ left_keys (per_address (d ∷ [])) ]

      unfoldable pub comes_last : Server → Bool
      comes_last c = is_dead c || contains dead_keys (left_key c)

      -- the copies of a replacement: those of other servers, and those of the dead one
      unfoldable pub replacement_copies : List Server → List Server → List Server × List Server
      replacement_copies tried [] = ([], [])
      replacement_copies tried (c ∷ cs) =
          let (copies, last) = replacement_copies tried cs in
          if contains (left_keys tried) (left_key c)
          then (copies, last)
          else if comes_last c
          then (copies, c ∷ last)
          else (c ∷ copies, last)

      -- the candidates in their order, with what `walkEvidence` says for each part
      unfoldable pub replacement_order :
          (Server → Text)
          → BestRef
          → Evidence × Bool
          → Evidence × Bool
          → List Server
          → List Subscription
          → Option ActiveServer
          → List Server
      replacement_order key ref (e, ok) (e', ok') tried subs chosen =
          let (copies, last) =
            replacement_copies tried (per_address (walk_order kinds subs chosen).0) in
          order_best kinds key ref e ok copies ++ order_best kinds key ref e' ok' last
