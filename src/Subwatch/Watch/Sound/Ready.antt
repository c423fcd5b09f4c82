-- ===== src/Subwatch/Watch/Sound/Ready.antt =====
-- The watch writes no move of clients before it has been told that what they move to carries them.
use vpn_director.Prelude.{
  ℕ, ◌+◌, ◌≤◌, text_eq, text_eq_sound, ◌<◌, Bool, true, false, not, [], ◌∷◌, ◌≡◌, ◌⊎◌, some, refl,
  arith, Option-cases, Bool-cases, inl, inr, if◌then◌else◌,
}
use vpn_director.VpnConfig.Config.{Config}
use vpn_director.VpnConfig.Moves.{commit_xray_failover}
use vpn_director.VpnConfig.Failover.{failover_staged, failover_committed}
use vpn_director.Subwatch.Watch.Methods.{match_option, pure, gets, modify, ◌>>=◌}
use vpn_director.Subwatch.Watch.{World, Env, change, field, ask, mutation_allowed, apply}
use vpn_director.Subwatch.Watch.Deaths.{import_retry_wait}
use vpn_director.Subwatch.Watch.Fallback.{
  is_recent, failover_tunnel, fallback_ready, pay_apply, commit_staged, apply_failover,
}
use vpn_director.Subwatch.Watch.Restore.{tproxy_failed}
use vpn_director.Subwatch.Watch.Commit.{
  Guard, retry_tproxy, await_tproxy, restore_staged, commit_restore,
}
use vpn_director.Subwatch.Watch.Sound.Calm.{
  Calm-ask, Calm-mutation_allowed, Calm-apply, Calm-pay_apply, Calm-fallback_ready,
  Calm-await_tproxy, Calm-apply_pick,
}
use vpn_director.Subwatch.Watch.Sound.Commits.{
  writes, Quiet, quiet, started, commit_staged-Committed,
}
use vpn_director.Subwatch.Watch.Sound.Later.{Later-commit_staged, Later-stage}

module _ (env : Env) (w : World) where
  -- the clients have left Xray, by the commit of the failover that the file held, before the world a
  -- call since has said that the tunnel of `c`, a staged failover, is ready, or it has no tunnel
  abbrev CarriedBefore : Config → World → Type 0
  CarriedBefore c v =
      (failover_staged c ≡ true)
      × ((failover_tunnel c ≡ [])
          ⊎ (n : ℕ) × (w.calls ≤ n)
            × (n + 1 ≤ v.calls)
            × (env.fallback_ready n (failover_tunnel c) ≡ true))
      × (d : Config) × (writes v.effects ≡ (d, commit_xray_failover d) ∷ writes w.effects)

  ready_answer :
      (cfg : Config) (v : World)
      → text_eq (failover_tunnel cfg) [] ≡ false
      → (fallback_ready env cfg v).0 ≡ true
      → (env.fallback_ready v.calls (failover_tunnel cfg) ≡ true)
        × (v.calls + 1 ≤ (fallback_ready env cfg v).1.calls)
  unfolding fallback_ready pure ask
  ready_answer cfg v m h = (ground arith, ground arith)

  -- whether a tunnel is ready that has said so before the commit
  answer_before :
      (cfg : Config) (v : World)
      → Quiet env w v
      → (fallback_ready env cfg v).0 ≡ true
      → (failover_tunnel cfg ≡ [])
        ⊎ (n : ℕ) × (w.calls ≤ n)
          × (n + 1 ≤ (commit_staged env cfg (fallback_ready env cfg v).1).1.calls)
          × (env.fallback_ready n (failover_tunnel cfg) ≡ true)
  answer_before cfg v (le, e) r = elim (Bool-cases (text_eq (failover_tunnel cfg) [])) [
    | inl y ↦ inl (text_eq_sound (failover_tunnel cfg) [] y)
    | inr m ↦
        let (said, made) = ready_answer cfg v m r in
        inr (
          v.calls,
          le,
          (Later-commit_staged env (v.calls + 1) cfg).kept (fallback_ready env cfg v).1 made,
          said,
        )
  ]

  -- the staged clients of a configuration leave Xray only where the tunnel is ready
  leave-ready :
      (cfg : Config) (v : World)
      → Quiet env w v
      → let m =
          (if not (failover_staged cfg) then pure (cfg, true) else (do
            ready ← fallback_ready env cfg
            if ready then commit_staged env cfg else pure (cfg, false))) in
        (writes (m v).1.effects ≡ writes w.effects) ⊎ CarriedBefore cfg (m v).1
  unfolding ◌>>=◌ pure
  leave-ready cfg v q = elim (Bool-cases (failover_staged cfg)) [
    | inr n ↦ rw n (inl q.1)
    | inl s ↦
        let u : World = (fallback_ready env cfg v).1 in
        let qu : Quiet env w u = (Calm-fallback_ready (quiet env w) cfg).kept v q in
        elim (Bool-cases (fallback_ready env cfg v).0) [
          | inr r ↦ rw (s, r) (inl qu.1)
          | inl r ↦
              rw (s, r)
                (elim (commit_staged-Committed env w cfg u qu) [
                  | inl same ↦ inl same
                  | inr (d, wrote_d) ↦ inr (refl, answer_before cfg v q r, d, wrote_d)
                ])
        ]
  ]

  -- the configuration that the step goes on with once it has paid the apply that was owed
  pay_cases :
      (cfg c : Config)
      → (pay_apply env cfg w).0 ≡ some c
      → (c ≡ cfg) ⊎ (w.watch.pending_apply ≡ true)
  unfolding pay_apply ◌>>=◌ field gets pure
  pay_cases cfg c h = elim (Bool-cases w.watch.pending_apply) [
    | inl y ↦ inr y
    | inr n ↦ inl (let k : some cfg ≡ some c = rw n at h in cc)
  ]

  written_if_carried :
      (cfg : Config)
      → (writes (apply_failover env cfg w).1.effects ≡ writes w.effects)
        ⊎ (c : Config) × ((pay_apply env cfg w).0 ≡ some c)
          × CarriedBefore c (apply_failover env cfg w).1
  unfolding apply_failover ◌>>=◌ match_option pure
  written_if_carried cfg =
      let q : Quiet env w (pay_apply env cfg w).1 =
        (Calm-pay_apply (quiet env w) cfg).kept w (started env w) in
      elim (Option-cases (pay_apply env cfg w).0) [
        | inl g ↦ rw g (inl q.1)
        | inr (fresh, g) ↦ rw g (elim (leave-ready fresh (pay_apply env cfg w).1 q) [
          | inl same ↦ inl same
          | inr carried ↦ inr (fresh, refl, carried)
        ])
      ]

  -- the answer that lets clients go back to Xray
  abbrev InterceptsBefore : World → Type 0
  InterceptsBefore v = (n : ℕ) × (w.calls ≤ n) × (n + 1 ≤ v.calls) × (env.tproxy_ready n ≡ true)

  retry_answer :
      (v : World)
      → Quiet env w v
      → (retry_tproxy env v).0 ≡ true
      → InterceptsBefore (retry_tproxy env v).1
  unfolding retry_tproxy ◌>>=◌ match_option pure ask tproxy_failed change modify
  retry_answer v q h =
      let a : World = (apply env v).1 in
      let (le, same) = (Calm-apply (quiet env w)).kept v q in
      elim (Option-cases (apply env v).0) [
        | inr (why, e) ↦ absurd (let k : false ≡ true = rw e at h in cc)
        | inl e ↦ elim (Bool-cases (env.tproxy_ready a.calls)) [
          | inl y ↦ (a.calls, le, rw (e, y) (omega arith), y)
          | inr n ↦ absurd (let k : false ≡ true = rw (e, n) at h in cc)
        ]
      ]

  await_answer :
      (v : World)
      → Quiet env w v
      → (await_tproxy env v).0 ≡ true
      → InterceptsBefore (await_tproxy env v).1
  unfolding await_tproxy ◌>>=◌ pure ask field gets
  await_answer v q h = elim (Bool-cases (env.tproxy_ready v.calls)) [
    | inl y ↦ (v.calls, q.0, rw y (omega arith), y)
    | inr n ↦
        let a : World = (ask env env.tproxy_ready v).1 in
        let b : World = (ask env env.now a).1 in
        let qb : Quiet env w b =
          (Calm-ask (quiet env w) env.now).kept a
            ((Calm-ask (quiet env w) env.tproxy_ready).kept v q) in
        elim (Bool-cases (is_recent (env.now a.calls) import_retry_wait b.watch.last_tproxy_fail)) [
          | inl r ↦ absurd (let k : false ≡ true = rw (n, r) at h in cc)
          | inr r ↦ rw (n, r) (retry_answer b qb (rw (n, r) at h))
        ]
  ]

  staged_when_ready :
      (guard : Guard) (committed : Bool) (v : World)
      → Quiet env w v
      → let v' : World = (restore_staged env guard committed v).1 in
        (writes v'.effects ≡ writes w.effects) ⊎ InterceptsBefore v'
  unfolding restore_staged ◌>>=◌ pure
  staged_when_ready guard committed v q = elim (Bool-cases (await_tproxy env v).0) [
    | inl y ↦
        let (n, le, made, said) = await_answer v q y in
        rw y (
          inr (
            n,
            le,
            (Later-stage env (n + 1) guard committed).kept (await_tproxy env v).1 made,
            said,
          ))
    | inr n ↦ rw n (inl ((Calm-await_tproxy (quiet env w)).kept v q).1)
  ]

  written_if_intercepted :
      (cfg : Config) (guard : Guard)
      → let v' : World = (commit_restore env cfg guard w).1 in
        (writes v'.effects ≡ writes w.effects) ⊎ InterceptsBefore v'
  unfolding commit_restore ◌>>=◌ match_option pure
  written_if_intercepted cfg guard =
      let v : World = (mutation_allowed env w).1 in
      let q : Quiet env w v = (Calm-mutation_allowed (quiet env w)).kept w (started env w) in
      elim (Option-cases (mutation_allowed env w).0) [
        | inr (why, e) ↦ rw e (inl q.1)
        | inl e ↦ elim (Bool-cases (text_eq (failover_tunnel cfg) [])) [
          | inl y ↦ rw (e, y) (inl ((Calm-apply_pick (quiet env w)).kept v q).1)
          | inr n ↦ rw (e, n) (staged_when_ready guard (failover_committed cfg) v q)
        ]
      ]

-- The step that takes staged clients off Xray writes nothing, or else this: one commit, of the failover
-- that the file then holds. It has then gone on with a configuration, the one it was given unless an
-- apply was owed, whose failover is staged, and one of its own calls was told that the tunnel of that
-- failover is ready, or that failover names no tunnel.
pub apply_failover-ready :
    (env : Env) (cfg : Config) (w : World)
    → (writes (apply_failover env cfg w).1.effects ≡ writes w.effects)
      ⊎ (c : Config) × ((pay_apply env cfg w).0 ≡ some c)
        × ((c ≡ cfg) ⊎ (w.watch.pending_apply ≡ true))
        × (failover_staged c ≡ true)
        × ((failover_tunnel c ≡ [])
            ⊎ (n : ℕ) × (w.calls ≤ n)
              × (n < (apply_failover env cfg w).1.calls)
              × (env.fallback_ready n (failover_tunnel c) ≡ true))
        × (d : Config) × (writes (apply_failover env cfg w).1.effects
            ≡ (d, commit_xray_failover d) ∷ writes w.effects)
apply_failover-ready env cfg w = elim (written_if_carried env w cfg) [
  | inl same ↦ inl same
  | inr (c, g, (staged, inl none_named, d, done)) ↦
      inr (c, g, pay_cases env w cfg c g, staged, inl none_named, d, done)
  | inr (c, g, (staged, inr (n, since, before, said), d, done)) ↦
      inr (
        c,
        g,
        pay_cases env w cfg c g,
        staged,
        inr (n, since, omega (arith, before), said),
        d,
        done,
      )
]

-- The restore of a failover writes nothing unless one of its own calls was told that TPROXY
-- intercepts the LAN.
pub commit_restore-ready :
    (env : Env) (cfg : Config) (guard : Guard) (w : World)
    → (writes (commit_restore env cfg guard w).1.effects ≡ writes w.effects)
      ⊎ (n : ℕ) × (w.calls ≤ n)
        × (n < (commit_restore env cfg guard w).1.calls)
        × (env.tproxy_ready n ≡ true)
commit_restore-ready env cfg guard w = elim (written_if_intercepted env w cfg guard) [
  | inl same ↦ inl same
  | inr (n, since, before, said) ↦ inr (n, since, omega (arith, before), said)
]
