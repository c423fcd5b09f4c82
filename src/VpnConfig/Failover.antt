-- ===== src/VpnConfig/Failover.antt =====
-- What server/internal/vpnconfig/failover.go reads of a failover: which Xray clients are active,
-- which of them Tunnel Director can carry, and how far the recorded move has come.
use vpn_director.Prelude.{
  ℕ, Text, Bool, true, false, ◌&&◌, ◌||◌, not, Option, none, some, List, [], ◌∷◌, ◌++◌,
  if◌then◌else◌, ltb, length, contains, keep_if, any,
}
use vpn_director.VpnConfig.Address.{td_carries}
use vpn_director.VpnConfig.Config.{Config, TunnelConfig, get_tunnel, is_paused}

-- `if !contains(list, ip) { list = append(list, ip) }`
unfoldable pub append_new : List Text → Text → List Text
append_new list ip = if contains list ip then list else list ++ ip ∷ []

unfoldable pub append_all_new : List Text → List Text → List Text
append_all_new list [] = list
append_all_new list (ip ∷ ips) = append_all_new (append_new list ip) ips

unfoldable pub effective_xray_clients : Config → List Text
effective_xray_clients cfg = keep_if (λ ip. not (is_paused cfg ip)) cfg.xray.clients

unfoldable pub carriable_xray_clients : Config → List Text
carriable_xray_clients cfg = keep_if td_carries (effective_xray_clients cfg)

-- the addresses of a snapshot that its tunnel, if it is there, still has
unfoldable pub still_on : Option TunnelConfig → List Text → List Text
still_on none ips = []
still_on (some tun) ips = keep_if (contains tun.clients) ips

unfoldable pub snapshot_on_tunnel : Config → List Text
snapshot_on_tunnel cfg = elim cfg.xray.failover [
  | none ↦ []
  | some fo ↦ still_on (get_tunnel cfg.tunnels fo.tunnel) fo.clients
]

unfoldable pub failover_staged : Config → Bool
failover_staged cfg = elim cfg.xray.failover [
  | none ↦ false
  | some fo ↦
      any (λ ip. not (is_paused cfg ip) && contains (snapshot_on_tunnel cfg) ip) cfg.xray.clients
]

unfoldable pub failover_committed : Config → Bool
failover_committed cfg = elim cfg.xray.failover [
  | none ↦ false
  | some fo ↦ fo.committed || (ltb 0 (length (snapshot_on_tunnel cfg)) && not (failover_staged cfg))
]

unfoldable pub failover_carries : Config → Bool
failover_carries cfg = elim cfg.xray.failover [
  | none ↦ false
  | some fo ↦ any (λ ip. not (is_paused cfg ip)) (snapshot_on_tunnel cfg)
]

unfoldable pub xray_clients_outside_failover : Config → List Text
xray_clients_outside_failover cfg = elim cfg.xray.failover [
  | none ↦ []
  | some fo ↦ elim (get_tunnel cfg.tunnels fo.tunnel) [
    | none ↦ []
    | some tun ↦
        keep_if (λ ip. not (contains fo.clients ip && contains tun.clients ip))
          (carriable_xray_clients cfg)
  ]
]

-- `Armed`
unfoldable pub armed : Config → ℕ → Bool
armed cfg subscriptions = elim cfg.xray.failover [
  | some _ ↦ true
  | none ↦ elim cfg.xray.pending_restore [
    | some _ ↦ true
    | none ↦ ltb 0 subscriptions && ltb 0 (length (effective_xray_clients cfg))
  ]
]
