-- ===== src/VpnConfig/Exits.antt =====
-- The exits of Tunnel Director that a failover may use: `TDExits`, `FirstTDExit`, `FailoverTDExit`
-- and `NextTDExit` of server/internal/vpnconfig/failover.go. An exit that is "" is the empty text.
pub mod Progress
use vpn_director.Prelude.{
  Text, Bool, true, false, ◌&&◌, ◌||◌, not, Option, none, some, List, [], ◌∷◌, if◌then◌else◌, runes,
  text_eq, contains, keep_if, sort_texts,
}
use vpn_director.VpnConfig.Config.{
  Config, TunnelConfig, Tunnels, get_tunnel, tunnel_names, clients_of,
}

pub record PlatformTunnel : Type 0 where
  pub id : Text
  pub iface : Text
  pub kind : Text
  pub connected : Bool
  pub description : Text

-- `byID[id]`: of two tunnels with one id the last
unfoldable pub by_id : List PlatformTunnel → Text → Option PlatformTunnel
by_id [] id = none
by_id (t ∷ tunnels) id = elim (by_id tunnels id) [
  | some u ↦ some u
  | none ↦ if text_eq t.id id then some t else none
]

unfoldable pub is_up : Option PlatformTunnel → Bool
is_up none = false
is_up (some t) = t.connected && not (text_eq t.iface [])

unfoldable pub has_clients : List Text → Bool
has_clients [] = false
has_clients (c ∷ cs) = true

unfoldable pub is_exit : Config → List PlatformTunnel → Text → Bool
is_exit cfg plat id =
    not (text_eq id (runes "main"))
    && has_clients (clients_of (get_tunnel cfg.tunnels id))
    && is_up (by_id plat id)

unfoldable pub td_exits : Config → List PlatformTunnel → List Text
td_exits cfg plat = sort_texts (keep_if (is_exit cfg plat) (tunnel_names cfg.tunnels))

unfoldable pub first_exit : List Text → Text
first_exit [] = []
first_exit (id ∷ ids) = id

unfoldable pub first_td_exit : Config → List PlatformTunnel → Text
first_td_exit cfg plat = first_exit (td_exits cfg plat)

unfoldable pub failover_td_exit : Config → List PlatformTunnel → Text
failover_td_exit cfg plat = elim cfg.xray.failover [
  | none ↦ first_td_exit cfg plat
  | some fo ↦ if contains (td_exits cfg plat) fo.tunnel then fo.tunnel else first_td_exit cfg plat
]

unfoldable pub first_untried : List Text → List Text → Text
first_untried tried [] = []
first_untried tried (id ∷ ids) =
    let rest = first_untried tried ids in if contains tried id then rest else id

unfoldable pub next_td_exit : Config → List PlatformTunnel → List Text → Text
next_td_exit cfg plat tried = first_untried tried (td_exits cfg plat)
