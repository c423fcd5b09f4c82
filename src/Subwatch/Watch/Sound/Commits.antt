-- ===== src/Subwatch/Watch/Sound/Commits.antt =====
-- What the step that takes staged clients off Xray writes, if anything: the commit of the failover
-- that the file holds.
use vpn_director.Prelude.{
  ℕ, ◌≤◌, Bool, true, false, List, [], ◌∷◌, ◌≡◌, ◌⊎◌, refl, arith, Option-cases, Bool-cases, inl,
  inr, if◌then◌else◌,
}
use vpn_director.VpnConfig.Config.{Config}
use vpn_director.VpnConfig.Moves.{commit_xray_failover}
use vpn_director.Subwatch.Watch.Methods.{Preserves, match_option, pure, gets, modify, ◌>>=◌, ◌>>◌}
use vpn_director.Subwatch.Watch.{
  Outcome, ok, err, match_outcome, Effect, applied, wrote, sent, World, Env, change, field, log,
  ask, set_locked, set_config, mutation_allowed, outbound_refuses, save, update_locked, update,
}
use vpn_director.Subwatch.Watch.Fallback.{
  guard_commit, drop_staged, reload, apply_or_owe, commit_staged,
}
use vpn_director.Subwatch.Watch.Deaths.{reset_fallback_state}
use vpn_director.Subwatch.Watch.Sound.{Preserves-outcome}
use vpn_director.Subwatch.Watch.Sound.Calm.{
  IsCalm, calm_steps, Calm-mutation_allowed, Calm-refuse_outbound, Calm-fallback_ready, Calm-reload,
  Calm-apply_or_owe,
}

-- the writes of a log
unfoldable pub writes : List (ℕ × Effect) → List (Config × Config)
writes [] = []
writes ((n, wrote cfg next) ∷ es) = (cfg, next) ∷ writes es
writes ((n, applied cfg) ∷ es) = writes es
writes ((n, sent kind) ∷ es) = writes es

module _ (env : Env) (w : World) where
  -- nothing written since, and calls only made
  abbrev pub Quiet : World → Type 0
  Quiet v = (w.calls ≤ v.calls) × (writes v.effects ≡ writes w.effects)

  pub quiet : IsCalm env Quiet
  unfolding ask change field log modify gets writes
  quiet = record {
    asks = λ answer. record { kept = λ v (le, e). (omega (arith, le), e) };
    changes = λ f. record { kept = λ v q. q };
    fields = λ f. record { kept = λ v q. q };
    logs = λ cfg. record { kept = λ v q. q };
  }

  pub started : Quiet w
  started = (omega arith, refl)

  -- one commit written since, or nothing
  abbrev pub Committed : World → Type 0
  Committed v =
      (writes v.effects ≡ writes w.effects)
      ⊎ (d : Config) × (writes v.effects ≡ (d, commit_xray_failover d) ∷ writes w.effects)

  committed : IsCalm env Committed
  unfolding ask change field log modify gets writes
  committed = record {
    asks = λ answer. record { kept = λ v c. c };
    changes = λ f. record { kept = λ v c. c };
    fields = λ f. record { kept = λ v c. c };
    logs = λ cfg. record { kept = λ v c. c };
  }

  Quiet-outbound_refuses : (cfg : Config) → Preserves Quiet (outbound_refuses env cfg)
  unfolding outbound_refuses
  Quiet-outbound_refuses cfg = search (calm_steps, quiet, Calm-refuse_outbound) depth 9

  Quiet-guard_commit : (cfg : Config) → Preserves Quiet (guard_commit env cfg)
  unfolding guard_commit
  Quiet-guard_commit cfg =
      search (calm_steps, quiet, Calm-refuse_outbound, Calm-fallback_ready) depth 9

  Quiet-drop_staged : (cfg : Config) → Preserves Quiet (drop_staged env cfg)
  unfolding drop_staged
  Quiet-drop_staged cfg = search (calm_steps, Quiet-guard_commit) depth 9

  drop_answer :
      (cfg : Config) (v : World) (next : Config) (a : Unit)
      → (drop_staged env cfg v).0 ≡ ok (next, a)
      → next ≡ commit_xray_failover cfg
  unfolding drop_staged ◌>>=◌ match_option pure
  drop_answer cfg v next a e = elim (Option-cases (guard_commit env cfg v).0) [
    | inl g ↦ (let k : ok (commit_xray_failover cfg, tt) ≡ ok (next, a) = rw g at e in cc)
    | inr (why, g) ↦ absurd (let k : err why ≡ ok (next, a) = rw g at e in cc)
  ]

  save-Committed :
      (cfg : Config) (r : Outcome (Config × Unit)) (v : World)
      → Quiet v
      → ((next : Config) (a : Unit) → r ≡ ok (next, a) → next ≡ commit_xray_failover cfg)
      → Committed (save env cfg r v).1
  unfolding save ◌>>=◌ pure ask log set_config modify writes
  save-Committed cfg (err e) v q k = inl q.1
  save-Committed cfg (ok (next, a)) v q k = elim (Bool-cases (env.saves v.calls)) [
    | inl y ↦ rw y (inr (cfg, ground (arith, q.1, k next a refl)))
    | inr n ↦ rw n (inl q.1)
  ]

  update_locked-Committed :
      (v : World) → Quiet v → Committed (update_locked env (drop_staged env) v).1
  unfolding update_locked ◌>>=◌ match_option pure gets
  update_locked-Committed v q =
      let cfg = v.config in
      let a : World = (mutation_allowed env v).1 in
      let qa : Quiet a = (Calm-mutation_allowed quiet).kept v q in
      let b : World = (outbound_refuses env cfg a).1 in
      let qb : Quiet b = (Quiet-outbound_refuses cfg).kept a qa in
      elim (Option-cases (mutation_allowed env v).0) [
        | inr (why, e) ↦ rw e (inl qa.1)
        | inl e ↦ rw e (elim (Option-cases (outbound_refuses env cfg a).0) [
          | inr (why, g) ↦ rw g (inl qb.1)
          | inl g ↦ rw g (
              save-Committed cfg (drop_staged env cfg b).0 (drop_staged env cfg b).1
                ((Quiet-drop_staged cfg).kept b qb) (drop_answer cfg b))
        ])
      ]

  update-Committed : (v : World) → Quiet v → Committed (update env (drop_staged env) v).1
  unfolding update ◌>>=◌ pure set_locked modify
  update-Committed v q =
      let a : World = (ask env env.locks v).1 in
      let (le, same) = (IsCalm.asks quiet env.locks).kept v q in
      elim (Bool-cases (env.locks v.calls)) [
        | inr n ↦ rw n (inl same)
        | inl y ↦ rw y (update_locked-Committed (record a { locked = true }) (le, same))
      ]

  Committed-rest :
      (cfg : Config) (dropped : Outcome Unit)
      → Preserves {A = Config × Bool} Committed (
          match_outcome dropped
            (λ e. pure (cfg, false))
            (λ _. do
              fresh ← reload env cfg
              paid ← apply_or_owe env
              if paid
                  then (do change reset_fallback_state; pure (fresh, true))
                  else pure (fresh, false)))
  Committed-rest cfg dropped =
      search (calm_steps, committed, Preserves-outcome, Calm-reload, Calm-apply_or_owe) depth 12

  pub commit_staged-Committed :
      (cfg : Config) (v : World) → Quiet v → Committed (commit_staged env cfg v).1
  unfolding commit_staged ◌>>=◌
  commit_staged-Committed cfg v q =
      (Committed-rest cfg (update env (drop_staged env) v).0).kept
        (update env (drop_staged env) v).1 (update-Committed v q)
