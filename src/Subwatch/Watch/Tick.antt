-- ===== src/Subwatch/Watch/Tick.antt =====
-- A tick up to the probe of a working outbound, `Tick` of server/internal/subwatch/watch.go: a
-- pending restore, and a failover, which is restored when the probe passes and kept while it fails.
-- What the tick does next, a wave of downloads, that probe or the keeper, is a value here.
use vpn_director.Prelude.{
  ℕ, Bool, true, false, ◌&&◌, ◌||◌, not, Option, none, some, if◌then◌else◌, ◌==◌, length, text_eq,
  [],
}
use vpn_director.VpnConfig.Config.{Config}
use vpn_director.VpnConfig.Failover.{failover_staged, effective_xray_clients, armed}
use vpn_director.VpnConfig.Servers.{active_seq}
use vpn_director.Subwatch.Watch.Methods.{match_option, pure, ◌>>=◌, ◌>>◌}
use vpn_director.Subwatch.Watch.{
  WatchState, WatchError, interrupted, restore_apply, note_moved, note_fallback_not_ready,
  note_restored, Env, M, change, field, ask, mutation_allowed, load_vpn, apply,
}
use vpn_director.Subwatch.Watch.Notes.{notify}
use vpn_director.Subwatch.Watch.Deaths.{import_retry_wait, reset_fail, note_selection}
use vpn_director.Subwatch.Watch.Guards.{probed_server}
use vpn_director.Subwatch.Watch.Fallback.{
  failover_tunnel, is_recent, apply_failover, extend_failover,
}
use vpn_director.Subwatch.Watch.Outbound.{watch_fallback, retry_or_switch_fallback}
use vpn_director.Subwatch.Watch.Restore.{Restored, reconcile_restore}
use vpn_director.Subwatch.Watch.Commit.{commit_restore}

-- what follows in the tick: nothing, the keeper, a wave of downloads, or the probe of the outbound
pub data Next : Type 0 where
  over : Next
  keeper : Config → Next
  wave : Config → Next
  probe : Config → Next

unfoldable pub wave_of : Option Config → Next
wave_of none = over
wave_of (some cfg) = wave cfg

-- the first armed tick applies a failover that an earlier process left
unfoldable pub reconcile_first : Config → WatchState → WatchState
reconcile_first cfg s = if s.reconciled then s else record s {
  reconciled = true;
  pending_apply = s.pending_apply || elim cfg.xray.failover [ none ↦ false | some fo ↦ true ];
}

-- whether active_server names a server of a subscription
unfoldable pub can_keep : ℕ → Config → Bool
can_keep subs cfg =
    not (subs == 0)
    && elim cfg.xray.active_server [ none ↦ false | some a ↦ not (text_eq a.subscription []) ]

unfoldable pub goes_on : WatchError → Bool
goes_on restore_apply = true
goes_on _ = false

unfoldable pub end_fail : WatchState → WatchState
end_fail s = if s.mutation_failed then reset_fail s else s

module _ (env : Env) where
  -- `probeOK`
  unfoldable pub probe_ok : M Bool
  unfolding ask
  probe_ok = do
    early ← mutation_allowed env
    match_option early
        (do
          passed ← ask env env.probes
          late ← mutation_allowed env
          match_option late (pure passed) (λ e. pure false))
        (λ e. pure false)

  unfoldable pub announce_restored : Restored → M Unit
  announce_restored (finished, committed, e) =
      if finished && committed then notify env note_restored else pure tt

  -- the probe has passed
  unfoldable pub restore_clients : Config → M Unit
  unfolding ask
  restore_clients cfg = do
    ready ← ask env env.tproxy_ready
    now ← ask env env.now
    last ← field (λ s. s.last_tproxy_fail)
    if not ready && is_recent now import_retry_wait last
        then pure tt
        else (commit_restore env cfg (probed_server cfg) >>= announce_restored)

  unfoldable pub begin_failing : Config → M Unit
  unfolding ask
  begin_failing cfg = do
    since ← field (λ s. s.fail_since)
    match_option since
        (do
          now ← ask env env.now
          change (λ s. record s {
            fail_since = some now;
            fail_seq = active_seq cfg.xray.active_server;
          }))
        (λ at. pure tt)

  unfoldable pub announce_moved : Bool → Config → M Unit
  announce_moved pending cfg =
      if pending && not (text_eq (failover_tunnel cfg) []) then notify env note_moved else pure tt

  unfoldable pub see_fallback : Bool → Bool → Config → M Config
  see_fallback staged carried cfg = if carried then watch_fallback env cfg else (do
    owed ← field (λ s. s.pending_apply)
    if staged && not owed
        then (do notify env note_fallback_not_ready; retry_or_switch_fallback env cfg)
        else pure cfg)

  unfoldable pub after_apply : Bool → Bool → Config → Bool → M (Option Config)
  after_apply pending staged cfg carried = do
    r ← mutation_allowed env
    match_option r
        (do
          announce_moved (carried && pending) cfg
          next ← see_fallback staged carried cfg
          late ← if carried then mutation_allowed env else pure none
          match_option late (pure (some next)) (λ e. pure none))
        (λ e. pure none)

  -- Xray is failing
  unfoldable pub keep_fallback : Config → M (Option Config)
  keep_fallback old = do
    begin_failing old
    cfg ← extend_failover env old
    owed ← field (λ s. s.pending_apply)
    (fresh, carried) ← apply_failover env cfg
    after_apply (owed || failover_staged cfg) (failover_staged cfg) fresh carried

  -- a tick of a failover: the configuration with which a wave of downloads may follow
  unfoldable pub tick_failover : Config → M (Option Config)
  tick_failover cfg = do
    passed ← probe_ok
    if passed
        then (do restore_clients cfg; pure none)
        else (do r ← mutation_allowed env; match_option r (keep_fallback cfg) (λ e. pure none))

  -- a pending restore: whether the tick goes on
  unfoldable pub resume_pending : Config → M Bool
  resume_pending cfg = match_option cfg.xray.pending_restore (pure true) (λ p. do
    e ← reconcile_restore env cfg
    match_option e (pure false) (λ why. do
      match_option (elim why [ interrupted r ↦ some r | _ ↦ none ]) (pure tt)
          (λ r. change (λ s. record s { mutation_failed = true }))
      pure (goes_on why)))

  -- an apply that a restore has left
  unfoldable pub retry_apply : Config → M Unit
  retry_apply cfg = do
    owed ← field (λ s. s.pending_apply)
    if owed && elim cfg.xray.pending_restore [ none ↦ true | some p ↦ false ]
        then (do
          e ← apply env
          match_option e (change (λ s. record s { pending_apply = false })) (λ why. pure tt))
        else pure tt

  unfoldable pub tick_outbound : ℕ → Config → M Next
  tick_outbound subs cfg = do
    retry_apply cfg
    if subs == 0 || length (effective_xray_clients cfg) == 0
        then (do change reset_fail; pure over)
        else pure (probe cfg)

  unfoldable pub tick_armed : ℕ → Config → M Next
  tick_armed subs cfg = do
    change (reconcile_first cfg)
    more ← resume_pending cfg
    if not more
        then pure over
        else match_option cfg.xray.failover (tick_outbound subs cfg)
            (λ fo. do next ← tick_failover cfg; pure (wave_of next))

  -- `keeps`
  unfoldable pub keeps : ℕ → Config → M Bool
  unfolding ask
  keeps subs cfg = if can_keep subs cfg then ask env env.has_xray else pure false

  -- whether the watch is armed, and else whether it is a keeper
  unfoldable pub tick_role : ℕ → Config → Bool → M Next
  tick_role subs cfg is_armed = do
    keeping ← if is_armed then pure false else keeps subs cfg
    if not is_armed && not keeping then (do change reset_fail; pure over) else (do
      r ← mutation_allowed env
      match_option r (if keeping then pure (keeper cfg) else tick_armed subs cfg)
          (λ e. do change reset_fail; pure over))

  unfoldable pub tick_loaded : ℕ → Config → M Next
  tick_loaded subs cfg = do
    change (λ s. record (note_selection cfg s) { pending_restore = cfg.xray.pending_restore })
    owed ← field (λ s. s.pending_apply)
    tick_role subs cfg (armed cfg subs || owed)

  unfoldable pub tick_body : ℕ → M Next
  tick_body subs = do
    early ← mutation_allowed env
    match_option early
        (do
          loaded ← load_vpn env
          late ← mutation_allowed env
          match_option late (match_option loaded (pure over) (tick_loaded subs)) (λ e. pure over))
        (λ e. pure over)

  -- `Tick`, with the number of subscriptions it reads
  unfoldable pub tick : ℕ → M Next
  tick subs = do
    change (λ s. record s { mutation_failed = false })
    next ← tick_body subs
    change end_fail
    pure next
