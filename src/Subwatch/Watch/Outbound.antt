-- ===== src/Subwatch/Watch/Outbound.antt =====
-- A dead outbound, in server/internal/subwatch/watch.go: `failOutbound`, which stages the clients
-- onto a tunnel, and `watchFallback` and `retryOrSwitchFallback`, which change that tunnel.
use vpn_director.Prelude.{
  ℕ, ◌+◌, ◌-◌, ◌*◌, Text, Bool, true, false, ◌&&◌, not, Option, none, some, List, [], ◌∷◌,
  if◌then◌else◌, ◌==◌, ltb, min, text_eq, contains, any, runes,
}
use vpn_director.VpnConfig.Config.{Config}
use vpn_director.VpnConfig.Failover.{carriable_xray_clients}
use vpn_director.VpnConfig.Exits.{PlatformTunnel, td_exits, first_td_exit, next_td_exit}
use vpn_director.VpnConfig.Moves.{stage_xray_clients_to_tunnel, restore_xray_clients_from_failover}
use vpn_director.Subwatch.Watch.Methods.{match_option, pure, ◌>>=◌, ◌>>◌}
use vpn_director.Subwatch.Watch.{
  WatchState, WatchError, stopped, interrupted, failed, Outcome, match_outcome, ok, err, note_none,
  note_no_tunnel, note_moved, note_fallback_not_ready, PlatformInfo, Env, M, change, field, ask,
  mutation_allowed, is_refused, apply, update,
}
use vpn_director.Subwatch.Watch.Guards.{pending_restore_guard}
use vpn_director.Subwatch.Watch.Notes.{notify, note_number}
use vpn_director.Subwatch.Watch.Deaths.{
  reset_fallback_state, return_after_death, import_retry_wait, import_retry_max,
}
use vpn_director.Subwatch.Watch.Fallback.{
  fallback_check, fallback_down_after, failover_tunnel, committed_failover, is_recent, reload,
  fallback_ready, apply_or_owe, apply_failover, fallback_carries,
}

unfoldable pub has_tunnel : List PlatformTunnel → Text → Bool
has_tunnel tunnels id = any (λ t. text_eq t.id id) tunnels

unfoldable pub has_firmware_tunnels : List PlatformTunnel → Bool
has_firmware_tunnels tunnels = any (λ t. not (text_eq t.kind (runes "interface"))) tunnels

-- a platform that says nothing of the tunnel
unfoldable pub is_silent : PlatformInfo → Text → Bool
is_silent plat id =
    not plat.merlin && not (has_firmware_tunnels plat.tunnels) && not (has_tunnel plat.tunnels id)

-- the failover's clients back on Xray, and onto the next exit if there is one
unfoldable pub retarget : Text → Config → Config
retarget next cfg =
    let restored = (restore_xray_clients_from_failover cfg).0 in
    if text_eq next [] then restored else stage_xray_clients_to_tunnel restored next

unfoldable pub note_moved_off : Text → WatchState → WatchState
note_moved_off next s = if text_eq next [] then s else record s { last_route_kind = note_none }

-- a round of the exits is over: the next one waits 10, 20, then 30 minutes
unfoldable pub hold_fallback : ℕ → WatchState → WatchState
hold_fallback now s =
    let hold =
      if s.fallback_hold == 0
      then 2 * import_retry_wait
      else min (2 * s.fallback_hold) import_retry_max in
    record s { fallback_tried = []; fallback_hold = hold; fallback_hold_until = some (now + hold) }

-- a set: an exit once tried stays in it, so a second entry changes nothing
unfoldable pub try_exit : Text → WatchState → WatchState
try_exit id s = record s { fallback_tried = id ∷ s.fallback_tried }

unfoldable pub same_time : Option ℕ → Option ℕ → Bool
same_time none none = true
same_time (some a) (some b) = a == b
same_time _ _ = false

-- `StageXrayClientsToTunnel` for a death, which ends a restore still pending
unfoldable pub stage_death : Text → Config → Config
stage_death id current =
    let staged = stage_xray_clients_to_tunnel current id in
    record staged { xray = record staged.xray { pending_restore = none } }

-- `errors.Is(err, errStopped)`
unfoldable pub is_stop : WatchError → Bool
is_stop (interrupted stopped) = true
is_stop _ = false

module _ (env : Env) where
  unfoldable pub apply_anyway : M Unit
  apply_anyway = do paid ← apply_or_owe env; pure tt

  unfoldable pub announce_left : Text → M Unit
  announce_left next = do
    change (note_moved_off next)
    if text_eq next [] then notify env note_no_tunnel else pure tt

  unfoldable pub after_leaving : Text → Config → M Config
  after_leaving next cfg = do
    announce_left next
    change reset_fallback_state
    apply_anyway
    reload env cfg

  -- the tunnel is gone for long enough: on to the next exit, or back to Xray
  unfoldable pub leave_fallback : Text → Config → M Config
  leave_fallback next cfg = do
    moved ← update env (λ current. pure (ok (retarget next current, tt)))
    match_outcome moved (λ e. pure cfg) (λ _. after_leaving next cfg)

  unfoldable pub fallback_gone : ℕ → Config → PlatformInfo → M Config
  fallback_gone now cfg plat = do
    r ← mutation_allowed env
    match_option r
        (do
          since ← field (λ s. s.fallback_down_since)
          match_option since
              (do change (λ s. record s { fallback_down_since = some now }); pure cfg)
              (λ at.
                if ltb (now - at) fallback_down_after
                then pure cfg
                else leave_fallback (next_td_exit cfg plat.tunnels (failover_tunnel cfg ∷ [])) cfg))
        (λ e. pure cfg)

  unfoldable pub judge_fallback : ℕ → Config → PlatformInfo → M Config
  judge_fallback now cfg plat = do
    r ← mutation_allowed env
    match_option r
        (do
          carried ←
              if contains (td_exits cfg plat.tunnels) (failover_tunnel cfg)
              then fallback_carries env cfg
              else pure false
          if carried
              then (do change (λ s. record s { fallback_down_since = none }); pure cfg)
              else fallback_gone now cfg plat)
        (λ e. pure cfg)

  -- `watchFallback`
  unfoldable pub watch_fallback : Config → M Config
  unfolding ask
  watch_fallback cfg = if not (committed_failover cfg) then pure cfg else (do
    now ← ask env env.now
    checked ← field (λ s. s.last_fallback_check)
    if is_recent now fallback_check checked then pure cfg else (do
      change (λ s. record s { last_fallback_check = some now })
      answer ← ask env env.platform
      match_option answer (pure cfg) (λ plat.
          if is_silent plat (failover_tunnel cfg) then pure cfg else judge_fallback now cfg plat)))

  unfoldable pub switch_to : Text → Config → M Config
  switch_to next cfg = do
    moved ← update env (λ current. pure (ok (retarget next current, tt)))
    match_outcome moved (λ e. pure cfg) (λ _. do apply_anyway; reload env cfg)

  unfoldable pub switch_fallback : ℕ → Config → M Config
  unfolding ask
  switch_fallback now cfg = do
    answer ← ask env env.platform
    match_option answer (pure cfg) (λ plat. do
      r ← mutation_allowed env
      match_option r
          (do
            change (try_exit (failover_tunnel cfg))
            tried ← field (λ s. s.fallback_tried)
            let next = next_td_exit cfg plat.tunnels tried
            if text_eq next []
                then (do change (hold_fallback now); pure cfg)
                else switch_to next cfg)
          (λ e. pure cfg))

  unfoldable pub switch_unless_held : ℕ → Config → M Config
  switch_unless_held now cfg = do
    hold ← field (λ s. s.fallback_hold_until)
    if elim hold [ none ↦ false | some until ↦ ltb now until ]
        then pure cfg
        else switch_fallback now cfg

  -- whether the retried apply leaves the tunnel to be changed
  unfoldable pub still_unready : Config → M Bool
  still_unready cfg = do
    e ← apply env
    match_option e (do ready ← fallback_ready env cfg; pure (not ready))
        (λ why. pure (not (is_stop why)))

  -- `retryOrSwitchFallback`
  unfoldable pub retry_or_switch_fallback : Config → M Config
  unfolding ask
  retry_or_switch_fallback cfg = do
    now ← ask env env.now
    last ← field (λ s. s.last_fallback_fail)
    if is_recent now import_retry_wait last then pure cfg else (do
      change (λ s. record s { last_fallback_fail = some now })
      match_option last (pure cfg) (λ at. do
        unready ← still_unready cfg
        if unready then switch_unless_held now cfg else pure cfg))

  unfoldable pub stage_guarded : Config → Text → Config → M (Outcome (Config × Unit))
  stage_guarded cfg id current =
      let refused : Option WatchError = elim current.xray.pending_restore [
        | some p ↦ pending_restore_guard current cfg.xray.pending_restore
        | none ↦ elim cfg.xray.pending_restore [
          | some p ↦ pending_restore_guard current cfg.xray.pending_restore
          | none ↦ none
        ]
      ] in
      let staged = stage_death id current in
      pure (elim refused [
        | some e ↦ err e
        | none ↦ elim staged.xray.failover [ none ↦ err failed | some fo ↦ ok (staged, tt) ]
      ])

  unfoldable pub begin_episode : M Unit
  begin_episode = change (λ s. reset_fallback_state (record s { pending_restore = none }))

  unfoldable pub explain_unready : Config → M Config
  explain_unready cfg = do
    owed ← field (λ s. s.pending_apply)
    if owed then pure cfg else (do notify env note_fallback_not_ready; retry_or_switch_fallback cfg)

  -- after the stage has been applied
  unfoldable pub finish_move : Config → M (Option Config)
  finish_move staged = do
    cfg ← reload env staged
    (fresh, carried) ← apply_failover env cfg
    r ← is_refused env
    match_option r
        (if carried
          then (do notify env note_moved; pure (some fresh))
          else (do next ← explain_unready fresh; pure (some next)))
        (λ e. pure none)

  unfoldable pub move_to : Text → Config → M (Option Config)
  move_to id cfg = do
    change (λ s. record s { last_no_tunnel_check = none })
    staged ← update env (stage_guarded cfg id)
    match_outcome staged (λ e. pure none)
        (λ _. do
          begin_episode
          paid ← apply_or_owe env
          if paid then finish_move cfg else (do fresh ← reload env cfg; pure (some fresh)))

  unfoldable pub no_tunnel : ℕ → Option PlatformInfo → Config → M (Option Config)
  no_tunnel now answer cfg = match_option answer (pure (some cfg)) (λ plat. do
    change (λ s. record s { last_no_tunnel_check = some now })
    notify env note_no_tunnel
    pure (some cfg))

  -- the exit for the clients, if it can carry any of them
  unfoldable pub exit_for : Config → Option PlatformInfo → Text
  exit_for cfg none = []
  exit_for cfg (some plat) = elim (carriable_xray_clients cfg) [
    | [] ↦ []
    | _ ∷ _ ↦ first_td_exit cfg plat.tunnels
  ]

  -- the returns settle once for each death
  unfoldable pub settle_returns : M Unit
  unfolding ask
  settle_returns = do
    s ← field (λ s. s)
    if same_time s.return_death s.fail_since then pure tt else (do
      later ← ask env env.now
      change (λ t. return_after_death later (record t { return_death = t.fail_since })))

  unfoldable pub declare_dead : ℕ → Config → M (Option Config)
  unfolding ask
  declare_dead now cfg = do
    settle_returns
    answer ← ask env env.platform
    r ← is_refused env
    match_option r
        (if text_eq (exit_for cfg answer) []
          then no_tunnel now answer cfg
          else move_to (exit_for cfg answer) cfg)
        (λ e. pure none)

  unfoldable pub fail_guarded : Config → M (Option Config)
  unfolding ask
  fail_guarded cfg = do
    r ← is_refused env
    match_option r
        (do
          now ← ask env env.now
          s ← field (λ s. s)
          if note_number s.last_route_kind == note_number note_no_tunnel
                && is_recent now import_retry_wait s.last_no_tunnel_check
              then pure (some cfg)
              else declare_dead now cfg)
        (λ e. pure none)

  -- `failOutbound`, with the guard of a fast check or without one: the configuration with which a
  -- wave of downloads may follow
  unfoldable pub fail_outbound : Bool → Config → M (Option Config)
  fail_outbound guarded cfg = do
    before ← field (λ s. s)
    change (λ s. record s { guarded = guarded; outbound_refused = none })
    next ← fail_guarded cfg
    change (λ s. record s { guarded = before.guarded; outbound_refused = before.outbound_refused })
    pure next
