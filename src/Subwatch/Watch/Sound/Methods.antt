-- ===== src/Subwatch/Watch/Sound/Methods.antt =====
-- The methods of a failover: each keeps every write a step, and does nothing long after a stop.
use vpn_director.Prelude.{ℕ, ◌+◌, ◌≤◌, Text, Bool, true, ◌≡◌, refl, arith, Option-cases, inl, inr}
use vpn_director.VpnConfig.Config.{Config}
use vpn_director.VpnConfig.Moves.{commit_xray_failover}
use vpn_director.Subwatch.Watch.Methods.{match_option, Preserves, pure, gets, modify, ◌>>=◌}
use vpn_director.Subwatch.Watch.{
  Outcome, ok, err, World, Env, M, change, field, ask, refuse_outbound, update,
}
use vpn_director.Subwatch.Watch.Moves.{Move, commit, extend, switch}
use vpn_director.Subwatch.Watch.Fallback.{
  set_pending_apply, reload, fallback_ready, guard_commit, drop_staged, apply_or_owe, pay_apply,
  commit_staged, apply_failover, join_failover, extend_failover, fallback_carries,
}
use vpn_director.Subwatch.Watch.Outbound.{retarget}
use vpn_director.Subwatch.Watch.Sound.{
  IsSound, StopsAt, IsWrite, watch_rules, silent, Sound-ask, Sound-change, Sound-field,
  Sound-mutation_allowed, Sound-load_vpn, Sound-is_refused,
}
use vpn_director.Subwatch.Watch.Sound.Effects.{Sound-apply, Sound-notify, Sound-update}

-- a closure that asks nothing
pub plain-IsWrite :
    {A : Type 0} (f : Config → Outcome (Config × A))
    → ((cfg : Config) (next : Config) (a : A) → f cfg ≡ ok (next, a) → Move cfg next)
    → IsWrite (λ cfg. pure (f cfg))
unfolding pure
plain-IsWrite f h = record {
  short = λ cfg w. omega arith;
  quiet = λ cfg w. refl;
  held = λ cfg w locked. (locked, refl);
  steps = λ cfg w next a e. h cfg next a e;
}

join-IsWrite : (env : Env) → IsWrite (join_failover env)
unfolding join_failover
join-IsWrite env = plain-IsWrite _ (λ cfg next a e. extend (cc))

pub retarget-IsWrite : (id : Text) → IsWrite (λ current. pure (ok (retarget id current, tt)))
retarget-IsWrite id = plain-IsWrite _ (λ cfg next a e. switch id (cc))

guard_commit_lem :
    (env : Env) (cfg : Config) (w : World)
    → ((guard_commit env cfg w).1.calls ≤ w.calls + 2)
      × ((guard_commit env cfg w).1.effects ≡ w.effects)
unfolding guard_commit ◌>>=◌ pure field gets ask fallback_ready refuse_outbound change modify
guard_commit_lem env cfg w = (ground arith, ground arith)

guard_commit_held :
    (env : Env) (cfg : Config) (w : World)
    → w.locked ≡ true
    → ((guard_commit env cfg w).1.locked ≡ true) × ((guard_commit env cfg w).1.config ≡ w.config)
unfolding guard_commit ◌>>=◌ pure field gets ask fallback_ready refuse_outbound change modify
guard_commit_held env cfg w h = (ground arith, ground arith)

drop_staged-IsWrite : (env : Env) → IsWrite (drop_staged env)
unfolding drop_staged ◌>>=◌ match_option pure
drop_staged-IsWrite env = record {
  short = λ cfg w. ground (arith, guard_commit_lem env cfg w);
  quiet = λ cfg w. ground (arith, guard_commit_lem env cfg w);
  held = λ cfg w locked. ground (arith, guard_commit_held env cfg w locked);
  steps = λ cfg w next a e. elim (Option-cases (guard_commit env cfg w).0) [
    | inl g ↦ commit (let k : ok (commit_xray_failover cfg, tt) ≡ ok (next, a) = rw g at e in cc)
    | inr (why, g) ↦
        absurd
          (let k : ◌≡◌ {A = Outcome (Config × Unit)} (err why) (ok (next, a)) = rw g at e in cc)
  ];
}

pub ruleset sound_rules = (
  watch_rules, Sound-ask, Sound-change, Sound-field, Sound-mutation_allowed, Sound-load_vpn,
  Sound-is_refused, Sound-apply, Sound-notify,
)

module _ (env : Env) (stop : ℕ) (start : Config) where
  abbrev pub Sound : {A : Type 0} → M A → Type 0
  Sound = Preserves (IsSound env stop start)

  pub Sound-reload : (cfg : Config) → Sound (reload env cfg)
  unfolding reload
  Sound-reload cfg = search sound_rules

  pub Sound-set_pending_apply : (b : Bool) → Sound (set_pending_apply b)
  unfolding set_pending_apply
  Sound-set_pending_apply b = search sound_rules

  pub Sound-fallback_ready : (cfg : Config) → Sound (fallback_ready env cfg)
  unfolding fallback_ready
  Sound-fallback_ready cfg = search sound_rules

  pub Sound-apply_or_owe : Sound (apply_or_owe env)
  unfolding apply_or_owe
  Sound-apply_or_owe = search (sound_rules, Sound-set_pending_apply)

  Sound-pay_apply : (cfg : Config) → Sound (pay_apply env cfg)
  unfolding pay_apply
  Sound-pay_apply cfg = search (sound_rules, Sound-set_pending_apply, Sound-reload) depth 9

  Sound-drop_staged : Sound (update env (drop_staged env))
  Sound-drop_staged = Sound-update env stop start (drop_staged env) (drop_staged-IsWrite env)

  Sound-commit_staged : (cfg : Config) → Sound (commit_staged env cfg)
  unfolding commit_staged
  Sound-commit_staged cfg =
      search (sound_rules, Sound-drop_staged, Sound-reload, Sound-apply_or_owe) depth 9

  pub Sound-apply_failover : (cfg : Config) → Sound (apply_failover env cfg)
  unfolding apply_failover
  Sound-apply_failover cfg =
      search (sound_rules, Sound-pay_apply, Sound-fallback_ready, Sound-commit_staged) depth 9

  Sound-join : Sound (update env (join_failover env))
  Sound-join = Sound-update env stop start (join_failover env) (join-IsWrite env)

  pub Sound-extend_failover : (cfg : Config) → Sound (extend_failover env cfg)
  unfolding extend_failover
  Sound-extend_failover cfg =
      search (sound_rules, Sound-join, Sound-reload, Sound-set_pending_apply) depth 9

  pub Sound-fallback_carries : (cfg : Config) → Sound (fallback_carries env cfg)
  unfolding fallback_carries
  Sound-fallback_carries cfg = search (sound_rules, Sound-fallback_ready) depth 9
