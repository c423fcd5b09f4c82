-- ===== src/VpnConfig/Moves/Resume.antt =====
-- `EnsureFailoverStaged`, which runs before a restore touches the tunnel.
use vpn_director.Prelude.{
  Text, Bool, true, ◌&&◌, ◌||◌, not, ◌≡◌, refl, List, arith, contains, keep_if, contains-keep_if,
  any, any-append, Option-cases, inl, inr, some,
}
use vpn_director.VpnConfig.Config.{Config, XrayFailover, is_paused}
use vpn_director.VpnConfig.Failover.{
  append_all_new, snapshot_on_tunnel, failover_staged, failover_committed,
}
use vpn_director.VpnConfig.Moves.{ensure_failover_staged}
use vpn_director.VpnConfig.Moves.Texts.{contains-append_all_new, append_all_new-new_texts}

-- the configuration after it, when a failover is recorded
abbrev ensured : Config → XrayFailover → Config
ensured cfg fo = record cfg {
  xray = record cfg.xray {
    failover = some (record fo { committed = fo.committed || failover_committed cfg });
    clients =
        append_all_new cfg.xray.clients
          (keep_if (λ ip. not (is_paused cfg ip)) (snapshot_on_tunnel cfg));
  };
}

ensure_lem :
    (cfg : Config) (fo : XrayFailover)
    → cfg.xray.failover ≡ some fo
    → ensure_failover_staged cfg ≡ ensured cfg fo
unfolding ensure_failover_staged
ensure_lem cfg fo e = ground arith

snapshot-ensured :
    (cfg : Config) (fo : XrayFailover)
    → cfg.xray.failover ≡ some fo
    → snapshot_on_tunnel (ensured cfg fo) ≡ snapshot_on_tunnel cfg
unfolding snapshot_on_tunnel
snapshot-ensured cfg fo e = ground arith

staged_lem :
    (cfg : Config) (fo : XrayFailover)
    → cfg.xray.failover ≡ some fo
    → failover_staged cfg
      ≡ any (λ ip. not (is_paused cfg ip) && contains (snapshot_on_tunnel cfg) ip) cfg.xray.clients
unfolding failover_staged
staged_lem cfg fo e = ground arith

-- After it every unpaused address of the snapshot that is on the tunnel is on Xray too, no client
-- has left Xray, and the tunnels and the pauses are untouched.
pub clients-ensure :
    (cfg : Config) (s : Text)
    → contains (ensure_failover_staged cfg).xray.clients s ≡ (
        contains cfg.xray.clients s
        || (not (is_paused cfg s) && contains (snapshot_on_tunnel cfg) s))
unfolding ensure_failover_staged
clients-ensure cfg s = elim (Option-cases cfg.xray.failover) [
  | inl e ↦ unfold snapshot_on_tunnel contains in ground arith
  | inr (fo, e) ↦
      let back = keep_if (λ (ip : Text). not (is_paused cfg ip)) (snapshot_on_tunnel cfg) in
      ground (
        arith,
        contains-append_all_new cfg.xray.clients back s,
        contains-keep_if (λ (ip : Text). not (is_paused cfg ip)) (snapshot_on_tunnel cfg) s,
      )
]

any-append_all_new :
    (p : Text → Bool) (list ips : List Text)
    → any p list ≡ true
    → any p (append_all_new list ips) ≡ true
any-append_all_new p list ips h = rw (append_all_new-new_texts list ips, any-append, h) refl

staged-ensured :
    (cfg : Config) (fo : XrayFailover)
    → cfg.xray.failover ≡ some fo
    → failover_staged cfg ≡ true
    → failover_staged (ensured cfg fo) ≡ true
unfolding failover_staged is_paused
staged-ensured cfg fo e h =
    rw (snapshot-ensured cfg fo e)
      (any-append_all_new _ cfg.xray.clients _ (rw (staged_lem cfg fo e) at h))

-- It leaves what a restore announces as it was: whether the failover counts as committed.
pub committed-ensure :
    (cfg : Config) → failover_committed (ensure_failover_staged cfg) ≡ failover_committed cfg
unfolding failover_committed
committed-ensure cfg = elim (Option-cases cfg.xray.failover) [
  | inl e ↦ unfold ensure_failover_staged in ground arith
  | inr (fo, e) ↦
      rw (ensure_lem cfg fo e) (ground (arith, snapshot-ensured cfg fo e, staged-ensured cfg fo e))
]
