-- ===== src/VpnConfig/Moves/RoundTrip.antt =====
-- A restore behind a move: what `RestoreXrayClientsFromFailover` leaves after
-- `StageXrayClientsToTunnel` and after `MoveXrayClientsToTunnel`.
use vpn_director.Prelude.{
  Text, Bool, true, false, ◌&&◌, ◌||◌, not, ◌≡◌, refl, sym, List, arith, contains, contains-keep_if,
  Option-cases, inl, inr, some, none,
}
use vpn_director.VpnConfig.Config.{Config, TunnelConfig, is_paused, get_tunnel}
use vpn_director.VpnConfig.Config.Maps.{get-put_tunnel_self, put-put_tunnel, put-get_tunnel_self}
use vpn_director.VpnConfig.Failover.{append_all_new, snapshot_on_tunnel, still_on}
use vpn_director.VpnConfig.Moves.{
  stage_xray_clients_to_tunnel, commit_xray_failover, move_xray_clients_to_tunnel,
  restore_xray_clients_from_failover, restore_tunnels, restore_drop,
}
use vpn_director.VpnConfig.Moves.Texts.{
  new_texts, contains-append_all_new, keep_if_members, append_all_new_id, remove-append_all_new,
}
use vpn_director.VpnConfig.Moves.Stage.{is_movable, moved_clients, staged, stage_cases}

-- `back` is `cfg` again, up to the order of the Xray clients.
pub record IsUndone (cfg back : Config) : Type 0 where
  pub tunnels : back.tunnels ≡ cfg.tunnels
  pub failover : back.xray.failover ≡ none
  pub paused : back.paused_clients ≡ cfg.paused_clients
  pub clients : (s : Text) → contains back.xray.clients s ≡ contains cfg.xray.clients s

-- A staged snapshot is whole on its tunnel.
still_on-staged :
    (cfg : Config) (tunnel : Text) (tun : TunnelConfig) (ips : List Text)
    → still_on (get_tunnel (staged cfg tunnel tun ips).tunnels tunnel) ips ≡ ips
unfolding still_on
still_on-staged cfg tunnel tun ips =
    rw (get-put_tunnel_self, still_on)
      (keep_if_members _ ips (λ s m. ground (arith, contains-append_all_new tun.clients ips s)))

snapshot-staged :
    (cfg : Config) (tunnel : Text) (tun : TunnelConfig) (ips : List Text)
    → snapshot_on_tunnel (staged cfg tunnel tun ips) ≡ ips
unfolding snapshot_on_tunnel
snapshot-staged cfg tunnel tun ips = still_on-staged cfg tunnel tun ips

snapshot-commit-staged :
    (cfg : Config) (tunnel : Text) (tun : TunnelConfig) (ips : List Text)
    → snapshot_on_tunnel (commit_xray_failover (staged cfg tunnel tun ips)) ≡ ips
unfolding snapshot_on_tunnel commit_xray_failover
snapshot-commit-staged cfg tunnel tun ips = still_on-staged cfg tunnel tun ips

restore_tunnels-staged :
    (cfg : Config) (tunnel : Text) (tun : TunnelConfig) (ips back : List Text)
    → get_tunnel cfg.tunnels tunnel ≡ some tun
    → (committed : Bool)
    → restore_tunnels
        (staged cfg tunnel tun ips).tunnels
        (record {
          tunnel = tunnel;
          clients = ips;
          added = some (new_texts tun.clients ips);
          committed = committed;
        })
        back
      ≡ cfg.tunnels
unfolding restore_tunnels restore_drop
restore_tunnels-staged cfg tunnel tun ips back h committed =
    rw (restore_tunnels, get-put_tunnel_self, restore_drop, remove-append_all_new, put-put_tunnel)
      (put-get_tunnel_self cfg.tunnels tunnel tun h)

snapshot_on_xray :
    (cfg : Config) (s : Text)
    → contains (moved_clients cfg) s ≡ true
    → contains cfg.xray.clients s ≡ true
snapshot_on_xray cfg s h = ground (arith, contains-keep_if (is_movable cfg) cfg.xray.clients s)

restore-staged :
    (cfg : Config) (tunnel : Text) (tun : TunnelConfig)
    → get_tunnel cfg.tunnels tunnel ≡ some tun
    → cfg.xray.failover ≡ none
    → (restore_xray_clients_from_failover (staged cfg tunnel tun (moved_clients cfg))).0 ≡ cfg
unfolding restore_xray_clients_from_failover
restore-staged cfg tunnel tun h f = λ i. record cfg {
  tunnels = back i;
  xray = record cfg.xray { clients = same i; failover = sym f i };
}
  where
    ips : List Text
    ips = moved_clients cfg

    snap : List Text
    snap = snapshot_on_tunnel (staged cfg tunnel tun ips)

    back :
        restore_tunnels
          (staged cfg tunnel tun ips).tunnels
          (record {
            tunnel = tunnel;
            clients = ips;
            added = some (new_texts tun.clients ips);
            committed = false;
          })
          snap
        ≡ cfg.tunnels
    back = restore_tunnels-staged cfg tunnel tun ips snap h false

    same : append_all_new cfg.xray.clients snap ≡ cfg.xray.clients
    same =
        rw (snapshot-staged cfg tunnel tun ips)
          (append_all_new_id cfg.xray.clients ips (snapshot_on_xray cfg))

-- While no failover is recorded, a restore right after a stage gives the whole configuration back,
-- whatever the tunnel: each list in its order, and each tunnel with the clients it had.
pub restore-stage :
    (cfg : Config) (tunnel : Text)
    → cfg.xray.failover ≡ none
    → (restore_xray_clients_from_failover (stage_xray_clients_to_tunnel cfg tunnel)).0 ≡ cfg
restore-stage cfg tunnel f = elim (stage_cases cfg tunnel) [
  | inl e ↦ rw e (unfold restore_xray_clients_from_failover in ground arith)
  | inr (tun, g, _, e) ↦ rw e (restore-staged cfg tunnel tun g f)
]

pub clients-commit-staged :
    (cfg : Config) (tunnel : Text) (tun : TunnelConfig) (s : Text)
    → contains (commit_xray_failover (staged cfg tunnel tun (moved_clients cfg))).xray.clients s
      ≡ (contains cfg.xray.clients s && not (is_movable cfg s))
unfolding commit_xray_failover is_paused
clients-commit-staged cfg tunnel tun s =
    rw (contains-keep_if, snapshot-staged, contains-keep_if) (ground arith)

pub clients-restore :
    (cfg : Config) (s : Text)
    → contains (restore_xray_clients_from_failover cfg).0.xray.clients s
      ≡ (contains cfg.xray.clients s || contains (snapshot_on_tunnel cfg) s)
unfolding restore_xray_clients_from_failover snapshot_on_tunnel contains
clients-restore cfg s = elim (Option-cases cfg.xray.failover) [
  | inl e ↦ ground arith
  | inr (fo, e) ↦
      ground (arith, contains-append_all_new cfg.xray.clients (snapshot_on_tunnel cfg) s)
]

tunnels-restore-commit :
    (cfg : Config) (tunnel : Text) (tun : TunnelConfig)
    → get_tunnel cfg.tunnels tunnel ≡ some tun
    → (restore_xray_clients_from_failover
        (commit_xray_failover (staged cfg tunnel tun (moved_clients cfg)))).0.tunnels
      ≡ cfg.tunnels
unfolding restore_xray_clients_from_failover commit_xray_failover
tunnels-restore-commit cfg tunnel tun h =
    restore_tunnels-staged cfg tunnel tun (moved_clients cfg) _ h true

restore-commit-staged :
    (cfg : Config) (tunnel : Text) (tun : TunnelConfig)
    → get_tunnel cfg.tunnels tunnel ≡ some tun
    → IsUndone cfg
        (restore_xray_clients_from_failover
          (commit_xray_failover (staged cfg tunnel tun (moved_clients cfg)))).0
restore-commit-staged cfg tunnel tun h = record {
  tunnels = tunnels-restore-commit cfg tunnel tun h;
  failover = unfold restore_xray_clients_from_failover commit_xray_failover in refl;
  paused = unfold restore_xray_clients_from_failover commit_xray_failover in refl;
  clients = λ s.
      rw (clients-restore, snapshot-commit-staged, clients-commit-staged, contains-keep_if)
        (ground arith);
}

-- While no failover is recorded, a move and the restore after it put back every tunnel exactly,
-- leave no failover and the pauses as they were, and have on Xray exactly the addresses that were.
pub restore-move :
    (cfg : Config) (tunnel : Text)
    → cfg.xray.failover ≡ none
    → IsUndone cfg (restore_xray_clients_from_failover (move_xray_clients_to_tunnel cfg tunnel)).0
unfolding move_xray_clients_to_tunnel
restore-move cfg tunnel f = elim (stage_cases cfg tunnel) [
  | inl e ↦ rw e (unfold restore_xray_clients_from_failover commit_xray_failover in ground arith)
  | inr (tun, g, _, e) ↦ rw e (restore-commit-staged cfg tunnel tun g)
]
