-- ===== src/Subwatch/Watch/Commit.antt =====
-- The way back to Xray: `commitRestore` and `unstageRestore` of server/internal/subwatch/watch.go.
-- The guard of a restore is a function of the configuration under the lock.
use vpn_director.Prelude.{
  Bool, true, false, ◌&&◌, not, Option, none, some, [], if◌then◌else◌, text_eq,
}
use vpn_director.VpnConfig.Config.{Config, XrayPendingRestore}
use vpn_director.VpnConfig.Failover.{failover_committed}
use vpn_director.VpnConfig.Moves.{commit_xray_failover, ensure_failover_staged}
use vpn_director.VpnConfig.Pending.{begin_xray_restore}
use vpn_director.Subwatch.Watch.Methods.{match_option, pure, ◌>>=◌, ◌>>◌}
use vpn_director.Subwatch.Watch.{
  WatchError, superseded, Outcome, match_outcome, ok, err, Env, M, change, field, ask,
  mutation_allowed, apply, update,
}
use vpn_director.Subwatch.Watch.Deaths.{import_retry_wait}
use vpn_director.Subwatch.Watch.Fallback.{
  failover_tunnel, is_recent, set_pending_apply, apply_or_owe,
}
use vpn_director.Subwatch.Watch.Restore.{
  ends_walk, Restored, settle, tproxy_failed, finalize_restore,
}

-- an error that ends the walk is reported; another is only logged
unfoldable pub ending_error : WatchError → Option WatchError
ending_error e = if ends_walk e then some e else none

unfoldable pub is_superseding : WatchError → Bool
is_superseding superseded = true
is_superseding _ = false

abbrev pub Guard : Type 0
Guard = Config → Option WatchError

module _ (env : Env) where
  -- `unstageRestore`
  unfoldable pub unstage_restore : M Unit
  unstage_restore = do
    left ← update env (λ current. pure (ok (commit_xray_failover current, tt)))
    match_outcome left (λ e. pure tt) (λ _. do paid ← apply_or_owe env; pure tt)

  -- an apply while TPROXY does not intercept: whether it does now
  unfoldable pub retry_tproxy : M Bool
  unfolding ask
  retry_tproxy = do
    e ← apply env
    match_option e
        (do
          ready ← ask env env.tproxy_ready
          if ready
              then (do change (λ s. record s { last_tproxy_fail = none }); pure true)
              else (do tproxy_failed env; pure false))
        (λ why. do tproxy_failed env; pure false)

  -- whether TPROXY can carry the clients
  unfoldable pub await_tproxy : M Bool
  unfolding ask
  await_tproxy = do
    ready ← ask env env.tproxy_ready
    if ready then pure true else (do
      now ← ask env env.now
      last ← field (λ s. s.last_tproxy_fail)
      if is_recent now import_retry_wait last then pure false else retry_tproxy)

  unfoldable pub stage_back : Guard → Config → M (Outcome (Config × Unit))
  stage_back guard current =
      pure
        (elim (guard current) [ some e ↦ err e | none ↦ ok (ensure_failover_staged current, tt) ])

  unfoldable pub begin_guarded : Guard → Config → M (Outcome (Config × Option XrayPendingRestore))
  begin_guarded guard current = pure (elim (guard current) [
    | some e ↦ err e
    | none ↦ elim current.xray.pending_restore [
      | some p ↦ err superseded
      | none ↦ elim current.xray.failover [
        | none ↦ err superseded
        | some fo ↦ ok (begin_xray_restore current)
      ]
    ]
  ])

  unfoldable pub unstage_if : Bool → M Unit
  unstage_if b = if b then unstage_restore else pure tt

  unfoldable pub finish_restore : Option XrayPendingRestore → M Restored
  finish_restore attempt = do
    (finished, committed, e) ← finalize_restore env attempt true
    pure (elim e [
      | none ↦ (finished, committed, none)
      | some why ↦ (false, committed, ending_error why)
    ])

  unfoldable pub drop_fallback : Bool → Option XrayPendingRestore → M Restored
  drop_fallback committed attempt = do
    change (λ s. record s { pending_restore = attempt })
    e ← apply env
    match_option e (finish_restore attempt)
        (λ why. do set_pending_apply true; pure (false, committed, ending_error why))

  unfoldable pub begin_restore : Guard → Bool → M Restored
  begin_restore guard committed = do
    change (λ s. record s { last_tproxy_fail = none })
    begun ← update env (begin_guarded guard)
    match_outcome begun
        (λ e. do
          unstage_if (committed && is_superseding e)
          pure (false, committed, ending_error e))
        (λ attempt. drop_fallback committed attempt)

  -- once the clients are staged back on Xray
  unfoldable pub confirm_restore : Guard → Bool → M Restored
  unfolding ask
  confirm_restore guard committed = do
    paid ← apply_or_owe env
    if not paid then pure (false, committed, none) else (do
      ready ← ask env env.tproxy_ready
      if ready
          then begin_restore guard committed
          else (do tproxy_failed env; unstage_if committed; pure (false, committed, none)))

  unfoldable pub restore_staged : Guard → Bool → M Restored
  restore_staged guard committed = do
    ready ← await_tproxy
    if not ready then pure (false, committed, none) else (do
      staged ← update env (stage_back guard)
      match_outcome staged (λ e. pure (false, committed, ending_error e))
          (λ _. confirm_restore guard committed))

  -- a pick without a failover
  unfoldable pub apply_pick : M Restored
  apply_pick = do
    e ← apply env
    match_option e (do settle env; pure (true, false, none)) (λ why. pure (false, false, none))

  -- `commitRestore`
  unfoldable pub commit_restore : Config → Guard → M Restored
  commit_restore cfg guard = do
    r ← mutation_allowed env
    match_option r
        (if text_eq (failover_tunnel cfg) []
          then apply_pick
          else restore_staged guard (failover_committed cfg))
        (λ e. pure (false, false, some e))
