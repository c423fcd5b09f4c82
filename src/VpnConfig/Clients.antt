-- ===== src/VpnConfig/Clients.antt =====
-- server/internal/vpnconfig/clients.go: the routes that hold an address, and `MoveClient`.
pub mod Routes
pub mod Move
pub mod Choice
pub mod Others
use vpn_director.Prelude.{
  ℕ, Text, Bool, true, false, ◌&&◌, ◌||◌, not, Option, none, some, List, [], ◌∷◌, ◌++◌,
  if◌then◌else◌, text_eq, contains, any,
}
use vpn_director.VpnConfig.Address.{addr_key, without_addr}
use vpn_director.VpnConfig.Config.{
  Config, TunnelConfig, Tunnels, ClientInfo, get_tunnel, put_tunnel, collect_clients, xray_route,
}
use vpn_director.VpnConfig.Failover.{append_new}
use vpn_director.VpnConfig.Moves.{detach_failover_client}

pub data MoveResult : Type 0 where
  client_moved client_already_there client_not_found : MoveResult

-- the loop of `ClientRoutes`
unfoldable pub route_loop : Text → List ClientInfo → List Text → List Text
route_loop key [] routes = routes
route_loop key (c ∷ cs) routes =
    route_loop key cs (if text_eq (addr_key c.ip) key then append_new routes c.route else routes)

unfoldable pub client_routes : Config → Text → List Text
client_routes cfg addr = route_loop (addr_key addr) (collect_clients cfg) []

-- Paused as the shell reads it: some stored spelling of the address is a paused entry exactly.
unfoldable pub was_paused : Config → Text → Bool
was_paused cfg addr =
    any (λ c. text_eq (addr_key c.ip) (addr_key addr) && c.paused) (collect_clients cfg)

-- what a Go map gives for a missing tunnel
unfoldable pub tunnel_or_zero : Option TunnelConfig → TunnelConfig
tunnel_or_zero none = record { clients = []; exclude = []; gateway = [] }
tunnel_or_zero (some t) = t

unfoldable pub take_off_route : Config → Text → Text → Config
take_off_route cfg addr r =
    if text_eq r xray_route
    then record cfg { xray = record cfg.xray { clients = without_addr cfg.xray.clients addr } }
    else (let t = tunnel_or_zero (get_tunnel cfg.tunnels r) in
        record cfg {
          tunnels = put_tunnel cfg.tunnels r (record t { clients = without_addr t.clients addr });
        })

-- the loop over the routes that hold the address
unfoldable pub take_off_routes : Config → Text → List Text → Config
take_off_routes cfg addr [] = cfg
take_off_routes cfg addr (r ∷ rs) = take_off_routes (take_off_route cfg addr r) addr rs

-- A tunnel new to the config inherits the exclude sets of Xray.
unfoldable pub tunnel_or_new : Config → Option TunnelConfig → TunnelConfig
tunnel_or_new cfg none = record { clients = []; exclude = cfg.xray.exclude_sets; gateway = [] }
tunnel_or_new cfg (some t) = t

unfoldable pub put_on_route : Config → Text → Text → Config
put_on_route cfg key route =
    if text_eq route xray_route
    then record cfg { xray = record cfg.xray { clients = cfg.xray.clients ++ key ∷ [] } }
    else (let t = tunnel_or_new cfg (get_tunnel cfg.tunnels route) in
        record cfg {
          tunnels = put_tunnel cfg.tunnels route (record t { clients = t.clients ++ key ∷ [] });
        })

unfoldable pub repause : List Text → Text → Bool → List Text
repause [] addr paused = []
repause (p ∷ ps) addr paused =
    if paused then without_addr (p ∷ ps) addr ++ addr_key addr ∷ [] else without_addr (p ∷ ps) addr

-- the body of `MoveClient` once the address is to move, from the routes `on`
unfoldable pub relocate : Config → Text → Text → List Text → Config
relocate cfg addr route on =
    let put = put_on_route (take_off_routes cfg addr on) (addr_key addr) route in
    detach_failover_client
      (record put { paused_clients = repause put.paused_clients addr (was_paused cfg addr) }) addr

unfoldable pub move_from : Config → Text → Text → List Text → Config × MoveResult
move_from cfg addr route [] = (cfg, client_not_found)
move_from cfg addr route (r ∷ []) =
    if text_eq r route
    then (cfg, client_already_there)
    else (relocate cfg addr route (r ∷ []), client_moved)
move_from cfg addr route (r ∷ q ∷ rs) = (relocate cfg addr route (r ∷ q ∷ rs), client_moved)

-- `MoveClient`
unfoldable pub move_client : Config → Text → Text → Config × MoveResult
move_client cfg addr route = move_from cfg addr route (client_routes cfg addr)
