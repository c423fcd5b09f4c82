-- ===== src/Subwatch/Watch/Moves.antt =====
-- What the watch may write while it carries clients through a failover: an abstract machine over the
-- configuration.
use vpn_director.Prelude.{Text, none, some, ◌≡◌}
use vpn_director.VpnConfig.Config.{Config, XrayFailover, XrayPendingRestore}
use vpn_director.VpnConfig.Moves.{
  commit_xray_failover, extend_xray_failover, ensure_failover_staged, apply_failover_snapshot,
}
use vpn_director.VpnConfig.Pending.{begin_xray_restore, failover_snapshot}
use vpn_director.Subwatch.Watch.Outbound.{stage_death, retarget}
use vpn_director.Subwatch.Watch.Restore.{forget_restore}

-- A death stages the clients onto a tunnel. They leave Xray, newcomers join them, or they go to
-- another tunnel. A restore stages them back on Xray, takes them off the tunnel and keeps a record
-- until it has finished: then the record is dropped, or the failover comes back.
pub data Move (cfg next : Config) : Type 0 where
  stage : (id : Text) → next ≡ stage_death id cfg → Move cfg next
  commit : next ≡ commit_xray_failover cfg → Move cfg next
  extend : next ≡ (extend_xray_failover cfg).0 → Move cfg next
  switch : (id : Text) → next ≡ retarget id cfg → Move cfg next
  ensure : next ≡ ensure_failover_staged cfg → Move cfg next
  begin : cfg.xray.pending_restore ≡ none → next ≡ (begin_xray_restore cfg).0 → Move cfg next
  finish : next ≡ forget_restore cfg → Move cfg next
  reinstate :
      (p : XrayPendingRestore) (fo : XrayFailover)
      → cfg.xray.failover ≡ none
      → cfg.xray.pending_restore ≡ some p
      → failover_snapshot p cfg ≡ some fo
      → next ≡ forget_restore (apply_failover_snapshot cfg fo)
      → Move cfg next
