-- ===== src/Subwatch/Watch/Fallback.antt =====
-- The clients on the failover's tunnel, in server/internal/subwatch/watch.go: `applyFailover`,
-- `extendFailover` and `fallbackCarries`. Each gives the configuration that it goes on with, as last
-- read.
use vpn_director.Prelude.{
  ℕ, ◌-◌, Text, Bool, true, false, not, Option, none, some, List, [], if◌then◌else◌, ◌==◌, ltb,
  text_eq, length,
}
use vpn_director.VpnConfig.Config.{Config}
use vpn_director.VpnConfig.Failover.{
  failover_staged, failover_carries, xray_clients_outside_failover,
}
use vpn_director.VpnConfig.Moves.{commit_xray_failover, extend_xray_failover}
use vpn_director.Subwatch.Watch.Methods.{match_option, pure, modify, ◌>>=◌, ◌>>◌}
use vpn_director.Subwatch.Watch.{
  WatchError, failed, Outcome, match_outcome, ok, err, Env, M, change, field, ask, load_vpn,
  refuse_outbound, apply, update,
}
use vpn_director.Subwatch.Watch.Deaths.{reset_fallback_state}

abbrev pub fallback_check : ℕ
fallback_check = 60

abbrev pub fallback_down_after : ℕ
fallback_down_after = 60

unfoldable pub failover_tunnel : Config → Text
failover_tunnel cfg = elim cfg.xray.failover [ none ↦ [] | some fo ↦ fo.tunnel ]

unfoldable pub committed_failover : Config → Bool
committed_failover cfg = elim cfg.xray.failover [
  | none ↦ false
  | some fo ↦ not (failover_staged cfg)
]

-- whether a time is set and less than the wait ago
unfoldable pub is_recent : ℕ → ℕ → Option ℕ → Bool
is_recent now wait none = false
is_recent now wait (some at) = ltb (now - at) wait

unfoldable pub set_pending_apply : Bool → M Unit
unfolding modify
set_pending_apply b = change (λ s. record s { pending_apply = b })

module _ (env : Env) where
  unfoldable pub reload : Config → M Config
  reload cfg = do loaded ← load_vpn env; pure (elim loaded [ none ↦ cfg | some fresh ↦ fresh ])

  unfoldable pub fallback_ready : Config → M Bool
  unfolding ask
  fallback_ready cfg =
      if text_eq (failover_tunnel cfg) []
      then pure true
      else ask env (λ n. env.fallback_ready n (failover_tunnel cfg))

  -- the guard of the death, once more, before the clients leave Xray
  unfoldable pub guard_commit : Config → M (Option WatchError)
  unfolding ask
  guard_commit current = do
    s ← field (λ s. s)
    if not s.guarded then pure none else (do
      ready ← fallback_ready current
      if not ready
          then pure (some failed)
          else (do g ← ask env (λ n. env.outbound_guard n current); refuse_outbound env g))

  unfoldable pub drop_staged : Config → M (Outcome (Config × Unit))
  drop_staged current = do
    g ← guard_commit current
    match_option g (pure (ok (commit_xray_failover current, tt))) (λ e. pure (err e))

  -- an apply whose failure is left to the next tick
  unfoldable pub apply_or_owe : M Bool
  apply_or_owe = do
    e ← apply env
    match_option e (pure true) (λ why. do set_pending_apply true; pure false)

  -- the apply that an earlier one has left; none once it has failed again
  unfoldable pub pay_apply : Config → M (Option Config)
  pay_apply cfg = do
    owed ← field (λ s. s.pending_apply)
    if not owed then pure (some cfg) else (do
      e ← apply env
      match_option e (do set_pending_apply false; fresh ← reload cfg; pure (some fresh))
          (λ why. pure none))

  unfoldable pub commit_staged : Config → M (Config × Bool)
  commit_staged cfg = do
    dropped ← update env drop_staged
    match_outcome dropped (λ e. pure (cfg, false))
        (λ _. do
          fresh ← reload cfg
          applied ← apply_or_owe
          if applied
              then (do change reset_fallback_state; pure (fresh, true))
              else pure (fresh, false))

  -- `applyFailover`
  unfoldable pub apply_failover : Config → M (Config × Bool)
  apply_failover cfg = do
    paid ← pay_apply cfg
    match_option paid (pure (cfg, false)) (λ fresh.
        if not (failover_staged fresh) then pure (fresh, true) else (do
          ready ← fallback_ready fresh
          if ready then commit_staged fresh else pure (fresh, false)))

  unfoldable pub join_failover : Config → M (Outcome (Config × List Text))
  join_failover current =
      pure (ok ((extend_xray_failover current).0, xray_clients_outside_failover current))

  -- `extendFailover`
  unfoldable pub extend_failover : Config → M Config
  extend_failover cfg = if length (xray_clients_outside_failover cfg) == 0 then pure cfg else (do
    joined ← update env join_failover
    match_outcome joined (λ e. pure cfg)
        (λ ips. if length ips == 0 then reload cfg else (do set_pending_apply true; reload cfg)))

  -- `fallbackCarries`
  unfoldable pub fallback_carries : Config → M Bool
  fallback_carries cfg = if not (failover_carries cfg) then pure true else (do
    ready ← fallback_ready cfg
    if ready
        then pure true
        else (do e ← apply env; match_option e (fallback_ready cfg) (λ why. pure false)))
