-- ===== src/Subwatch/Watch/Sound/Calm.antt =====
-- What the methods that write nothing keep: whatever single calls, changes of the watch's own state
-- and logged applies keep.
use vpn_director.Prelude.{ℕ, Bool, Option, none, some}
use vpn_director.VpnConfig.Config.{Config}
use vpn_director.Subwatch.Watch.Methods.{
  Preserves, preserves_rules, match_option, pure, gets, modify, ◌>>=◌, ◌>>◌,
}
use vpn_director.Subwatch.Watch.{
  WatchState, WatchError, applied, World, Env, M, change, field, log, ask, mutation_allowed,
  load_vpn, fast_guard_now, refuse_outbound, outbound_allowed_now, is_refused, apply,
}
use vpn_director.Subwatch.Watch.Fallback.{
  set_pending_apply, reload, fallback_ready, apply_or_owe, pay_apply,
}
use vpn_director.Subwatch.Watch.Restore.{settle, tproxy_failed}
use vpn_director.Subwatch.Watch.Commit.{retry_tproxy, await_tproxy, apply_pick}

-- a property of the world that the steps without a write keep
pub record IsCalm (env : Env) (P : World → Type 0) : Type 1 where
  pub asks : {A : Type 0} (answer : ℕ → A) → Preserves P (ask env answer)
  pub changes : (f : WatchState → WatchState) → Preserves P (change f)
  pub fields : {A : Type 0} (f : WatchState → A) → Preserves P (field f)
  pub logs : (cfg : Config) → Preserves P (log (applied cfg))

module _ {env : Env} {P : World → Type 0} (calm : IsCalm env P) where
  abbrev Kept : {A : Type 0} → M A → Type 0
  Kept = Preserves P

  pub Calm-ask : {A : Type 0} (answer : ℕ → A) → Kept (ask env answer)
  Calm-ask answer = calm.asks answer

  pub Calm-change : (f : WatchState → WatchState) → Kept (change f)
  Calm-change f = calm.changes f

  pub Calm-field : {A : Type 0} (f : WatchState → A) → Kept (field f)
  Calm-field f = calm.fields f

  pub Calm-log : (cfg : Config) → Kept (log (applied cfg))
  Calm-log cfg = calm.logs cfg

  pub ruleset calm_steps = (preserves_rules, Calm-ask, Calm-change, Calm-field, Calm-log)

  pub Calm-mutation_allowed : Kept (mutation_allowed env)
  unfolding mutation_allowed
  Calm-mutation_allowed = search calm_steps

  pub Calm-load_vpn : Kept (load_vpn env)
  unfolding load_vpn
  Calm-load_vpn = search calm_steps

  pub Calm-refuse_outbound : (r : Option WatchError) → Kept (refuse_outbound env r)
  unfolding refuse_outbound
  Calm-refuse_outbound none = search calm_steps
  Calm-refuse_outbound (some e) = search calm_steps

  pub Calm-fast_guard_now : Kept (fast_guard_now env)
  unfolding fast_guard_now
  Calm-fast_guard_now = search (calm_steps, Calm-mutation_allowed, Calm-load_vpn) depth 12

  pub Calm-outbound_allowed_now : Kept (outbound_allowed_now env)
  unfolding outbound_allowed_now
  Calm-outbound_allowed_now = search (calm_steps, Calm-fast_guard_now, Calm-refuse_outbound)

  pub Calm-is_refused : Kept (is_refused env)
  unfolding is_refused
  Calm-is_refused = search (calm_steps, Calm-mutation_allowed, Calm-outbound_allowed_now)

  pub Calm-apply : Kept (apply env)
  unfolding apply
  Calm-apply = search (calm_steps, Calm-is_refused) depth 12

  pub Calm-set_pending_apply : (b : Bool) → Kept (set_pending_apply b)
  unfolding set_pending_apply
  Calm-set_pending_apply b = search calm_steps

  pub Calm-apply_or_owe : Kept (apply_or_owe env)
  unfolding apply_or_owe
  Calm-apply_or_owe = search (calm_steps, Calm-apply, Calm-set_pending_apply)

  pub Calm-reload : (cfg : Config) → Kept (reload env cfg)
  unfolding reload
  Calm-reload cfg = search (calm_steps, Calm-load_vpn)

  pub Calm-pay_apply : (cfg : Config) → Kept (pay_apply env cfg)
  unfolding pay_apply
  Calm-pay_apply cfg = search (calm_steps, Calm-apply, Calm-set_pending_apply, Calm-reload) depth 12

  pub Calm-fallback_ready : (cfg : Config) → Kept (fallback_ready env cfg)
  unfolding fallback_ready
  Calm-fallback_ready cfg = search calm_steps

  pub Calm-settle : Kept (settle env)
  unfolding settle
  Calm-settle = search calm_steps

  pub Calm-tproxy_failed : Kept (tproxy_failed env)
  unfolding tproxy_failed
  Calm-tproxy_failed = search calm_steps

  pub Calm-retry_tproxy : Kept (retry_tproxy env)
  unfolding retry_tproxy
  Calm-retry_tproxy = search (calm_steps, Calm-apply, Calm-tproxy_failed) depth 12

  pub Calm-await_tproxy : Kept (await_tproxy env)
  unfolding await_tproxy
  Calm-await_tproxy = search (calm_steps, Calm-retry_tproxy) depth 9

  pub Calm-apply_pick : Kept (apply_pick env)
  unfolding apply_pick
  Calm-apply_pick = search (calm_steps, Calm-apply, Calm-settle) depth 9
