-- ===== src/Subwatch/Best.antt =====
-- The order in which a switch tries the servers: server/internal/subwatch/best.go. The key of an
-- endpoint, a hash of what is dialed, is an argument.
pub mod Ordered
pub mod Ranks
use vpn_director.Prelude.{
  ℕ, Text, text_eq, Bool, true, false, ◌&&◌, ◌||◌, not, Option, none, some, List, [], ◌∷◌,
  if◌then◌else◌, ◌==◌, ltb, get_elem?, map,
}
use vpn_director.VpnConfig.Config.{Config, ActiveServer}
use vpn_director.VpnConfig.Servers.{Server, Kinds}
use vpn_director.Subwatch.Choice.{chosen_index}
use vpn_director.Monitor.Entries.{alive, rejected, same_status, EndpointState}
use vpn_director.Monitor.State.{find_key}
use vpn_director.Monitor.Evidence.{Proof, Evidence}

pub record BestRef : Type 0 where
  pub subscription : Text
  pub group : Text

unfoldable pub reference_record : Option ActiveServer → Option ActiveServer → Option ActiveServer
reference_record none active = active
reference_record (some preferred) active = some preferred

unfoldable pub group_at : Kinds → List Server → Option ℕ → Text
group_at kinds servers none = []
group_at kinds servers (some i) = elim (get_elem? servers i) [ none ↦ [] | some s ↦ kinds.group s ]

unfoldable pub ref_of : Kinds → List Server → Option ActiveServer → BestRef
ref_of kinds servers none = record { subscription = []; group = [] }
ref_of kinds servers (some a) = record {
  subscription = a.subscription;
  group =
      if text_eq a.group []
      then group_at kinds servers (chosen_index kinds servers (some a))
      else a.group;
}

-- `refFor`
unfoldable pub ref_for : Kinds → Config → List Server → BestRef
ref_for kinds cfg servers =
    ref_of kinds servers (reference_record cfg.xray.preferred_server cfg.xray.active_server)

-- a server with its rank
pub record Ranked : Type 0 where
  pub server : Server
  pub tier : ℕ
  pub latency : ℕ

unfoldable pub state_of : Option (EndpointState × Proof) → Option EndpointState
state_of none = none
state_of (some (st, proof)) = some st

unfoldable pub is_status_alive : Option EndpointState → Bool
is_status_alive none = false
is_status_alive (some st) = same_status st.status alive

unfoldable pub is_status_rejected : Option EndpointState → Bool
is_status_rejected none = false
is_status_rejected (some st) = same_status st.status rejected

unfoldable pub latency_of : Option EndpointState → ℕ
latency_of none = 0
latency_of (some st) = st.latency_ms

unfoldable pub tier_of : Bool → Bool → Bool → ℕ
tier_of is_alive group own =
    if is_alive && group && own
    then 0
    else if is_alive && group
    then 1
    else if is_alive && own
    then 2
    else if is_alive
    then 3
    else if group
    then 4
    else 5

unfoldable pub ranks_before : Ranked → Ranked → Bool
ranks_before a b =
    if not (a.tier == b.tier) then ltb a.tier b.tier else ltb a.tier 4 && ltb a.latency b.latency

-- the stable sort
unfoldable pub insert_ranked : Ranked → List Ranked → List Ranked
insert_ranked x [] = x ∷ []
insert_ranked x (y ∷ ys) =
    let rest = insert_ranked x ys in if ranks_before y x then y ∷ rest else x ∷ y ∷ ys

unfoldable pub sort_ranked : List Ranked → List Ranked
sort_ranked [] = []
sort_ranked (x ∷ xs) = insert_ranked x (sort_ranked xs)

unfoldable pub servers_of : List Ranked → List Server
servers_of rs = map (λ r. r.server) rs

module _ (kinds : Kinds) (key : Server → Text) (ref : BestRef) (e : Evidence) (ok : Bool) where
  unfoldable pub known_state : Server → Option EndpointState
  known_state c = state_of (find_key e.found (key c))

  unfoldable pub is_left_out : Server → Bool
  is_left_out c = ok && is_status_rejected (known_state c)

  unfoldable pub is_alive_server : Server → Bool
  is_alive_server c = ok && is_status_alive (known_state c)

  unfoldable pub ranked : Server → Ranked
  ranked c = record {
    server = c;
    tier =
        tier_of (is_alive_server c) (text_eq ref.group [] || text_eq (kinds.group c) ref.group)
          (text_eq c.subscription ref.subscription);
    latency = if is_alive_server c then latency_of (known_state c) else 0;
  }

  unfoldable pub rank_each : List Server → List Ranked
  rank_each [] = []
  rank_each (c ∷ cs) = let rest = rank_each cs in if is_left_out c then rest else ranked c ∷ rest

  -- `orderBest`
  unfoldable pub order_best : List Server → List Server
  order_best copies = servers_of (sort_ranked (rank_each copies))
