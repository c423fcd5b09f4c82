-- ===== src/Subwatch/Watch/Restore.antt =====
-- The end of a restore, `finalizeRestore`, and one left by an earlier apply, `reconcileRestore`, of
-- server/internal/subwatch/recovery.go.
use vpn_director.Prelude.{Bool, true, false, ◌&&◌, not, Option, none, some, if◌then◌else◌}
use vpn_director.VpnConfig.Config.{Config, XrayFailover, XrayPendingRestore, get_tunnel}
use vpn_director.VpnConfig.Moves.{apply_failover_snapshot}
use vpn_director.VpnConfig.Pending.{failover_snapshot}
use vpn_director.Subwatch.Watch.Methods.{match_option, pure, ◌>>=◌, ◌>>◌}
use vpn_director.Subwatch.Watch.{
  WatchError, interrupted, superseded, needs_apply, restore_apply, failed, Outcome, match_outcome,
  ok, err, note_restored, Env, M, change, ask, mutation_allowed, load_vpn, apply, update,
}
use vpn_director.Subwatch.Watch.Notes.{notify}
use vpn_director.Subwatch.Watch.Deaths.{reset_fail, settled, reset_fallback_state}
use vpn_director.Subwatch.Watch.Guards.{same_restore_active, pending_restore_guard}
use vpn_director.Subwatch.Watch.Fallback.{set_pending_apply}

-- `endsWalk`
unfoldable pub ends_walk : WatchError → Bool
ends_walk (interrupted r) = true
ends_walk superseded = true
ends_walk _ = false

unfoldable pub forget_restore : Config → Config
forget_restore cfg = record cfg { xray = record cfg.xray { pending_restore = none } }

-- `done`, `committed` and the error
abbrev pub Restored : Type 0
Restored = Bool × Bool × Option WatchError

-- what a finished write of `finalizeRestore` found
pub data Ending : Type 0 where
  reinstated : Ending
  finished : Bool → Ending
  dropped : Ending

-- the write of `finalizeRestore` once the guards have passed: TPROXY is ready or not, the restore
-- has been applied or not
unfoldable pub end_restore : Bool → Bool → Config → Option XrayFailover → Outcome (Config × Ending)
end_restore ready applied current snapshot =
    if ready && not applied
    then err needs_apply
    else if ready
    then ok
        (forget_restore current, finished (elim snapshot [ none ↦ false | some fo ↦ fo.committed ]))
    else elim snapshot [
      | none ↦ ok (forget_restore current, dropped)
      | some fo ↦ elim (get_tunnel current.tunnels fo.tunnel) [
        | none ↦ err (if applied then restore_apply else needs_apply)
        | some tun ↦ ok (forget_restore (apply_failover_snapshot current fo), reinstated)
      ]
    ]

module _ (env : Env) where
  unfoldable pub settle : M Unit
  unfolding ask
  settle = do now ← ask env env.now; change (settled now)

  unfoldable pub tproxy_failed : M Unit
  unfolding ask
  tproxy_failed = do now ← ask env env.now; change (λ s. record s { last_tproxy_fail = some now })

  -- the closure of `finalizeRestore`
  unfoldable pub end_guarded :
      Option XrayPendingRestore → Bool → Config → M (Outcome (Config × Ending))
  unfolding ask
  end_guarded expected applied current =
      match_option (pending_restore_guard current expected)
        (do
          ready ← ask env env.tproxy_ready
          r ← mutation_allowed env
          match_option r
              (match_option current.xray.pending_restore (pure (err superseded))
                (λ p. pure (end_restore ready applied current (failover_snapshot p current))))
              (λ e. pure (err e)))
        (λ e. pure (err e))

  unfoldable pub after_ending : Ending → M Restored
  after_ending (finished committed) = do
    settle
    change reset_fallback_state
    pure (true, committed, none)
  after_ending dropped = do tproxy_failed; pure (false, false, none)
  after_ending reinstated = do
    tproxy_failed
    e ← apply env
    match_option e (pure (false, false, none))
        (λ why. do set_pending_apply true; pure (false, false, some why))

  -- `finalizeRestore`
  unfoldable pub finalize_restore : Option XrayPendingRestore → Bool → M Restored
  finalize_restore expected applied = do
    ended ← update env (end_guarded expected applied)
    match_outcome ended (λ e. do set_pending_apply true; pure (false, false, some e))
        (λ ending. do
          change (λ s. record s { pending_apply = false; pending_restore = none })
          after_ending ending)

  -- the write that discards the restore of an older selection
  unfoldable pub discard : Config → XrayPendingRestore → Config → M (Outcome (Config × Unit))
  discard cfg pending current = pure (elim current.xray.pending_restore [
    | none ↦ err superseded
    | some p ↦
        if same_restore_active current.xray.active_server cfg.xray.active_server
          && same_restore_active p.active pending.active
        then ok (forget_restore current, tt)
        else err superseded
  ])

  unfoldable pub discard_restore : Config → XrayPendingRestore → M (Option WatchError)
  discard_restore cfg pending = do
    gone ← update env (discard cfg pending)
    match_outcome gone (λ e. pure (some e))
        (λ _. do
          change (λ s. reset_fail (record s { pending_apply = false; pending_restore = none }))
          pure (some superseded))

  -- an apply that failed leaves a fresh death check, unless the restore is another
  unfoldable pub after_failed_apply : XrayPendingRestore → WatchError → M (Option WatchError)
  after_failed_apply pending why = do
    set_pending_apply true
    if ends_walk why then pure (some why) else (do
      loaded ← load_vpn env
      r ← mutation_allowed env
      match_option r
          (match_option loaded (pure (some failed)) (λ current.
            match_option (pending_restore_guard current (some pending)) (pure (some restore_apply))
              (λ e. pure (some e))))
          (λ e. pure (some e)))

  unfoldable pub announce : Restored → M (Option WatchError)
  announce (done, committed, some e) = pure (some e)
  announce (done, committed, none) =
      if done && committed then (do notify env note_restored; pure none) else pure none

  unfoldable pub finish_pending : XrayPendingRestore → M (Option WatchError)
  finish_pending pending = do
    e ← apply env
    match_option e (finalize_restore (some pending) true >>= announce)
        (λ why. after_failed_apply pending why)

  -- an error of `finalizeRestore` before the apply, unless it asks for the apply
  unfoldable pub or_apply : XrayPendingRestore → Restored → M (Option WatchError)
  or_apply pending (done, committed, some needs_apply) = finish_pending pending
  or_apply pending (done, committed, e) = pure e

  unfoldable pub resume : XrayPendingRestore → M (Option WatchError)
  unfolding ask
  resume pending = do
    ready ← ask env env.tproxy_ready
    if ready
        then finish_pending pending
        else finalize_restore (some pending) false >>= or_apply pending

  -- `reconcileRestore`
  unfoldable pub reconcile_restore : Config → M (Option WatchError)
  reconcile_restore cfg = match_option cfg.xray.pending_restore (pure none) (λ pending. do
    r ← mutation_allowed env
    match_option r
        (if same_restore_active cfg.xray.active_server pending.active
          then resume pending
          else discard_restore cfg pending)
        (λ e. pure (some e)))
