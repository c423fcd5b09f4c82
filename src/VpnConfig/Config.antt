-- ===== src/VpnConfig/Config.antt =====
-- The configuration of server/internal/vpnconfig/vpnconfig.go that routing reads and writes:
-- `VPNDirectorConfig` with its tunnels, the Xray section, the failover and restore records of
-- failover.go and pending_restore.go, and `CollectClients`.
--
-- A `Config` is what a non-nil *VPNDirectorConfig points to, so the operations have no nil guard
-- on it. A Go slice is a list, and `Option` of one where the code tells nil from empty. A port is
-- only compared, so a natural number. A Go map is an association list: only its lookups, its updates and its sorted keys are used. The `webui`,
-- `monitor` and `advanced` sections, which no operation on clients reads or writes, are left out.
pub mod Maps
use vpn_director.Prelude.{
  ℕ, ◌+◌, Text, runes, Bool, true, false, ◌||◌, Option, none, some, List, [], ◌∷◌, ◌++◌, map,
  if◌then◌else◌, text_eq, contains, sort_texts, keep_if, not,
}

pub record TunnelConfig : Type 0 where
  pub clients : List Text
  pub exclude : List Text
  pub gateway : Text

abbrev pub Tunnels : Type 0
Tunnels = List (Text × TunnelConfig)

-- `t, ok := tunnels[id]`
unfoldable pub get_tunnel : Tunnels → Text → Option TunnelConfig
get_tunnel [] id = none
get_tunnel ((k, t) ∷ m) id = if text_eq k id then some t else get_tunnel m id

-- `tunnels[id] = t`
unfoldable pub put_tunnel : Tunnels → Text → TunnelConfig → Tunnels
put_tunnel [] id t = (id, t) ∷ []
put_tunnel ((k, u) ∷ m) id t =
    let rest = put_tunnel m id t in if text_eq k id then (k, t) ∷ m else (k, u) ∷ rest

abbrev pub tunnel_names : Tunnels → List Text
tunnel_names = map (λ e. e.0)

pub record ActiveServer : Type 0 where
  pub name : Text
  pub address : Text
  pub port : ℕ
  pub subscription : Text
  pub seq : ℕ
  pub identity : Text
  pub group : Text

pub record XrayFailover : Type 0 where
  pub tunnel : Text
  pub clients : List Text
  pub added : Option (List Text)
  pub committed : Bool

pub record XrayPendingRestore : Type 0 where
  pub snapshot : Option XrayFailover
  pub restored : List Text
  pub active : Option ActiveServer

pub record XrayConfig : Type 0 where
  pub clients : List Text
  pub servers : List Text
  pub exclude_ips : List Text
  pub exclude_sets : List Text
  pub active_server : Option ActiveServer
  pub failover : Option XrayFailover
  pub pending_restore : Option XrayPendingRestore
  pub preferred_server : Option ActiveServer

pub record Config : Type 0 where
  pub data_dir : Text
  pub interfaces : List Text
  pub paused_clients : List Text
  pub tunnels : Tunnels
  pub xray : XrayConfig

-- the clients of a tunnel that may not be there
unfoldable pub clients_of : Option TunnelConfig → List Text
clients_of none = []
clients_of (some t) = t.clients

-- `pausedSet`, as the test on it
unfoldable pub is_paused : Config → Text → Bool
is_paused cfg ip = contains cfg.paused_clients ip

pub record ClientInfo : Type 0 where
  pub ip : Text
  pub route : Text
  pub paused : Bool

abbrev pub xray_route : Text
xray_route = runes "xray"

unfoldable pub client_infos : Config → Text → List Text → List ClientInfo
client_infos cfg route [] = []
client_infos cfg route (ip ∷ ips) =
    record { ip = ip; route = route; paused = is_paused cfg ip } ∷ client_infos cfg route ips

-- the second loop of `CollectClients`
unfoldable pub tunnel_infos : Config → List Text → List ClientInfo
tunnel_infos cfg [] = []
tunnel_infos cfg (name ∷ names) =
    client_infos cfg name (clients_of (get_tunnel cfg.tunnels name)) ++ tunnel_infos cfg names

unfoldable pub collect_clients : Config → List ClientInfo
collect_clients cfg =
    client_infos cfg xray_route cfg.xray.clients
    ++ tunnel_infos cfg (sort_texts (tunnel_names cfg.tunnels))
