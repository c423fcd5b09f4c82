-- ===== src/VpnConfig/Moves/Safety.antt =====
-- The routes of the clients that `MoveXrayClientsToTunnel` and `CommitXrayFailover` take off Xray.
use vpn_director.Prelude.{
  Text, true, ◌&&◌, ◌||◌, not, ◌≡◌, ◌⊎◌, refl, List, arith, contains, contains-keep_if, inl, inr,
  some, none, Option,
}
use vpn_director.VpnConfig.Config.{
  Config, TunnelConfig, XrayFailover, is_paused, get_tunnel, clients_of,
}
use vpn_director.VpnConfig.Config.Maps.{get-put_tunnel_self}
use vpn_director.VpnConfig.Failover.{snapshot_on_tunnel, still_on}
use vpn_director.VpnConfig.Moves.{commit_xray_failover, move_xray_clients_to_tunnel}
use vpn_director.VpnConfig.Moves.Texts.{contains-append_all_new}
use vpn_director.VpnConfig.Moves.Stage.{is_movable, moved_clients, staged, stage_cases}
use vpn_director.VpnConfig.Moves.RoundTrip.{clients-commit-staged}

-- the clients of the tunnel `id`, none if it is not there
abbrev pub on_tunnel : Config → Text → List Text
on_tunnel cfg id = clients_of (get_tunnel cfg.tunnels id)

pub contains-still_on :
    (tun : Option TunnelConfig) (ips : List Text) (s : Text)
    → contains (still_on tun ips) s ≡ (contains (clients_of tun) s && contains ips s)
unfolding still_on clients_of contains
contains-still_on none ips s = refl
contains-still_on (some tun) ips s = contains-keep_if (contains tun.clients) ips s

-- A commit takes off Xray exactly the unpaused addresses of the snapshot that are on the fallback
-- tunnel, and changes no tunnel.
pub clients-commit :
    (cfg : Config) (fo : XrayFailover) (s : Text)
    → cfg.xray.failover ≡ some fo
    → (contains (commit_xray_failover cfg).xray.clients s ≡ (
        contains cfg.xray.clients s
        && (is_paused cfg s
            || not (contains (on_tunnel cfg fo.tunnel) s && contains fo.clients s))))
      × ((commit_xray_failover cfg).tunnels ≡ cfg.tunnels)
unfolding commit_xray_failover snapshot_on_tunnel
clients-commit cfg fo s e = ground (
  arith,
  contains-keep_if (λ (ip : Text). is_paused cfg ip || not (contains (snapshot_on_tunnel cfg) ip))
      cfg.xray.clients s,
  contains-still_on (get_tunnel cfg.tunnels fo.tunnel) fo.clients s,
)

on_tunnel-commit-staged :
    (cfg : Config) (tunnel : Text) (tun : TunnelConfig) (ips : List Text) (s : Text)
    → contains (on_tunnel (commit_xray_failover (staged cfg tunnel tun ips)) tunnel) s
      ≡ (contains tun.clients s || contains ips s)
unfolding commit_xray_failover clients_of
on_tunnel-commit-staged cfg tunnel tun ips s =
    rw get-put_tunnel_self (contains-append_all_new tun.clients ips s)

-- While no failover is recorded: the clients that a move takes off Xray are unpaused ones that Tunnel
-- Director carries, and they are on the tunnel afterwards; every other Xray client stays on Xray.
pub move-keeps_route :
    (cfg : Config) (tunnel s : Text)
    → cfg.xray.failover ≡ none
    → contains cfg.xray.clients s ≡ true
    → (contains (move_xray_clients_to_tunnel cfg tunnel).xray.clients s ≡ true)
      ⊎ ((is_movable cfg s ≡ true)
          × (contains (on_tunnel (move_xray_clients_to_tunnel cfg tunnel) tunnel) s ≡ true))
unfolding move_xray_clients_to_tunnel
move-keeps_route cfg tunnel s f m = elim (stage_cases cfg tunnel) [
  | inl e ↦ inl (rw e (unfold commit_xray_failover in ground arith))
  | inr (tun, g, _, e) ↦ rw e (
      ground (
        arith,
        clients-commit-staged cfg tunnel tun s,
        on_tunnel-commit-staged cfg tunnel tun (moved_clients cfg) s,
        contains-keep_if (is_movable cfg) cfg.xray.clients s,
      ))
]
