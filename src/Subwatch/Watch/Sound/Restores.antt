-- ===== src/Subwatch/Watch/Sound/Restores.antt =====
-- A restore keeps every write a step.
use vpn_director.Prelude.{
  ℕ, Bool, true, false, Option, none, some, ◌≡◌, ◌≢◌, arith, Option-cases, inl, inr,
}
use vpn_director.VpnConfig.Config.{Config, XrayPendingRestore, get_tunnel}
use vpn_director.VpnConfig.Pending.{failover_snapshot}
use vpn_director.Subwatch.Watch.Methods.{Preserves-bind, pure, ◌>>=◌, match_option}
use vpn_director.Subwatch.Watch.{
  WatchError, needs_apply, ok, World, Env, ask, mutation_allowed, change, update,
}
use vpn_director.Subwatch.Watch.Guards.{pending_restore_guard}
use vpn_director.Subwatch.Watch.Moves.{Move, commit, ensure, begin, finish, reinstate}
use vpn_director.Subwatch.Watch.Restore.{
  Restored, Ending, reinstated, finished, dropped, end_restore, settle, tproxy_failed, end_guarded,
  after_ending, finalize_restore, discard, discard_restore, after_failed_apply, announce,
  finish_pending, or_apply, resume, reconcile_restore,
}
use vpn_director.Subwatch.Watch.Commit.{
  Guard, unstage_restore, retry_tproxy, await_tproxy, stage_back, begin_guarded, unstage_if,
  finish_restore, drop_fallback, begin_restore, confirm_restore, restore_staged, apply_pick,
  commit_restore,
}
use vpn_director.Subwatch.Watch.Sound.{IsWrite}
use vpn_director.Subwatch.Watch.Sound.Effects.{Sound-update}
use vpn_director.Subwatch.Watch.Sound.Methods.{
  plain-IsWrite, sound_rules, Sound, Sound-set_pending_apply, Sound-apply_or_owe,
}

discard-IsWrite : (env : Env) (cfg : Config) (p : XrayPendingRestore) → IsWrite (discard env cfg p)
unfolding discard
discard-IsWrite env cfg p = plain-IsWrite _ (λ current next a e. finish (ground arith))

stage_back-IsWrite : (env : Env) (guard : Guard) → IsWrite (stage_back env guard)
unfolding stage_back
stage_back-IsWrite env guard = plain-IsWrite _ (λ current next a e. ensure (ground arith))

begin_guarded-IsWrite : (env : Env) (guard : Guard) → IsWrite (begin_guarded env guard)
unfolding begin_guarded
begin_guarded-IsWrite env guard =
    plain-IsWrite _ (λ current next a e. begin (ground arith) (ground arith))

end_restore-Move :
    (ready applied : Bool) (p : XrayPendingRestore) (cfg next : Config) (a : Ending)
    → cfg.xray.failover ≡ none
    → cfg.xray.pending_restore ≡ some p
    → end_restore ready applied cfg (failover_snapshot p cfg) ≡ ok (next, a)
    → Move cfg next
unfolding end_restore
end_restore-Move true true p cfg next a f h e = finish (cc)
end_restore-Move true false p cfg next a f h e = absurd (cc)
end_restore-Move false applied p cfg next a f h e = elim (Option-cases (failover_snapshot p cfg)) [
  | inl g ↦ finish (ground arith)
  | inr (fo, g) ↦ elim (Option-cases (get_tunnel cfg.tunnels fo.tunnel)) [
    | inl no_tun ↦ absurd (ground arith)
    | inr (tun, has) ↦ reinstate p fo f h g (ground arith)
  ]
]

pending_restore_guard-failover :
    (cfg : Config) (expected : Option XrayPendingRestore)
    → pending_restore_guard cfg expected ≡ none
    → cfg.xray.failover ≡ none
unfolding pending_restore_guard
pending_restore_guard-failover cfg none h = absurd (cc)
pending_restore_guard-failover cfg (some p) h = ground arith

-- what `end_guarded` writes comes from `end_restore`, once the guards have passed
end_guarded-end_restore :
    (env : Env) (expected : Option XrayPendingRestore) (applied : Bool) (cfg next : Config)
    (w : World) (a : Ending) (p : XrayPendingRestore)
    → cfg.xray.pending_restore ≡ some p
    → (end_guarded env expected applied cfg w).0 ≡ ok (next, a)
    → end_restore (env.tproxy_ready w.calls) applied cfg (failover_snapshot p cfg) ≡ ok (next, a)
unfolding end_guarded ◌>>=◌ match_option pure ask mutation_allowed change
end_guarded-end_restore env expected applied cfg next w a p h e = ground (arith, e)

end_guarded-pending :
    (env : Env) (expected : Option XrayPendingRestore) (applied : Bool) (cfg next : Config)
    (w : World) (a : Ending)
    → (end_guarded env expected applied cfg w).0 ≡ ok (next, a)
    → (pending_restore_guard cfg expected ≡ none) × (cfg.xray.pending_restore ≢ none)
unfolding end_guarded ◌>>=◌ match_option pure ask mutation_allowed change
end_guarded-pending env expected applied cfg next w a e =
    (ground (arith, e), λ n. ground (arith, e, n))

end_guarded-IsWrite :
    (env : Env) (expected : Option XrayPendingRestore) (applied : Bool)
    → IsWrite (end_guarded env expected applied)
unfolding end_guarded ◌>>=◌ match_option pure ask mutation_allowed change
end_guarded-IsWrite env expected applied = record {
  short = λ cfg w. ground arith;
  quiet = λ cfg w. ground arith;
  held = λ cfg w locked. (ground arith, ground arith);
  steps = λ cfg w next a e.
      let (passed, held) = end_guarded-pending env expected applied cfg next w a e in
      elim (Option-cases cfg.xray.pending_restore) [
        | inl n ↦ absurd (held n)
        | inr (p, h) ↦
            end_restore-Move (env.tproxy_ready w.calls) applied p cfg next a
              (pending_restore_guard-failover cfg expected passed) h
              (end_guarded-end_restore env expected applied cfg next w a p h e)
      ];
}

module _ (env : Env) (stop : ℕ) (start : Config) where
  Sound-settle : Sound env stop start (settle env)
  unfolding settle
  Sound-settle = search sound_rules

  Sound-tproxy_failed : Sound env stop start (tproxy_failed env)
  unfolding tproxy_failed
  Sound-tproxy_failed = search sound_rules

  Sound-end :
      (expected : Option XrayPendingRestore) (applied : Bool)
      → Sound env stop start (update env (end_guarded env expected applied))
  Sound-end expected applied =
      Sound-update env stop start _ (end_guarded-IsWrite env expected applied)

  Sound-after_ending : (ending : Ending) → Sound env stop start (after_ending env ending)
  unfolding after_ending
  Sound-after_ending (finished committed) = search (sound_rules, Sound-settle) depth 9
  Sound-after_ending dropped = search (sound_rules, Sound-tproxy_failed)
  Sound-after_ending reinstated =
      search (sound_rules, Sound-tproxy_failed, Sound-set_pending_apply) depth 9

  Sound-finalize_restore :
      (expected : Option XrayPendingRestore) (applied : Bool)
      → Sound env stop start (finalize_restore env expected applied)
  unfolding finalize_restore
  Sound-finalize_restore expected applied =
      search (sound_rules, Sound-end, Sound-after_ending, Sound-set_pending_apply) depth 9

  Sound-discard :
      (cfg : Config) (p : XrayPendingRestore)
      → Sound env stop start (update env (discard env cfg p))
  Sound-discard cfg p = Sound-update env stop start _ (discard-IsWrite env cfg p)

  Sound-discard_restore :
      (cfg : Config) (p : XrayPendingRestore) → Sound env stop start (discard_restore env cfg p)
  unfolding discard_restore
  Sound-discard_restore cfg p = search (sound_rules, Sound-discard) depth 9

  Sound-after_failed_apply :
      (p : XrayPendingRestore) (why : WatchError)
      → Sound env stop start (after_failed_apply env p why)
  unfolding after_failed_apply
  Sound-after_failed_apply p why = search (sound_rules, Sound-set_pending_apply) depth 12

  Sound-announce : (r : Restored) → Sound env stop start (announce env r)
  unfolding announce
  Sound-announce (end, committed, some e) = search sound_rules
  Sound-announce (end, committed, none) = search sound_rules

  Sound-finish_pending : (p : XrayPendingRestore) → Sound env stop start (finish_pending env p)
  unfolding finish_pending
  Sound-finish_pending p =
      search (sound_rules, Sound-after_failed_apply, Sound-finalize_restore, Sound-announce) depth 9

  Sound-or_apply : (p : XrayPendingRestore) (r : Restored) → Sound env stop start (or_apply env p r)
  unfolding or_apply
  Sound-or_apply p (end, committed, some needs_apply) = Sound-finish_pending p
  Sound-or_apply p (end, committed, e) = search sound_rules

  Sound-resume : (p : XrayPendingRestore) → Sound env stop start (resume env p)
  unfolding resume
  Sound-resume p =
      search (sound_rules, Sound-finish_pending, Sound-finalize_restore, Sound-or_apply) depth 9

  pub Sound-reconcile_restore : (cfg : Config) → Sound env stop start (reconcile_restore env cfg)
  unfolding reconcile_restore
  Sound-reconcile_restore cfg = search (sound_rules, Sound-resume, Sound-discard_restore) depth 9

  Sound-unstage : Sound env stop start (unstage_restore env)
  unfolding unstage_restore
  Sound-unstage =
      Preserves-bind (update env _) _
        (Sound-update env stop start _ (plain-IsWrite _ (λ cfg next a e. commit (cc))))
        (λ left. search (sound_rules, Sound-apply_or_owe))

  Sound-retry_tproxy : Sound env stop start (retry_tproxy env)
  unfolding retry_tproxy
  Sound-retry_tproxy = search (sound_rules, Sound-tproxy_failed) depth 9

  Sound-await_tproxy : Sound env stop start (await_tproxy env)
  unfolding await_tproxy
  Sound-await_tproxy = search (sound_rules, Sound-retry_tproxy) depth 9

  Sound-stage_back : (guard : Guard) → Sound env stop start (update env (stage_back env guard))
  Sound-stage_back guard = Sound-update env stop start _ (stage_back-IsWrite env guard)

  Sound-begin : (guard : Guard) → Sound env stop start (update env (begin_guarded env guard))
  Sound-begin guard = Sound-update env stop start _ (begin_guarded-IsWrite env guard)

  Sound-unstage_if : (b : Bool) → Sound env stop start (unstage_if env b)
  unfolding unstage_if
  Sound-unstage_if b = search (sound_rules, Sound-unstage)

  Sound-finish_restore :
      (attempt : Option XrayPendingRestore) → Sound env stop start (finish_restore env attempt)
  unfolding finish_restore
  Sound-finish_restore attempt = search (sound_rules, Sound-finalize_restore)

  Sound-drop_fallback :
      (committed : Bool) (attempt : Option XrayPendingRestore)
      → Sound env stop start (drop_fallback env committed attempt)
  unfolding drop_fallback
  Sound-drop_fallback committed attempt =
      search (sound_rules, Sound-finish_restore, Sound-set_pending_apply) depth 9

  Sound-begin_restore :
      (guard : Guard) (committed : Bool) → Sound env stop start (begin_restore env guard committed)
  unfolding begin_restore
  Sound-begin_restore guard committed =
      search (sound_rules, Sound-begin, Sound-drop_fallback, Sound-unstage_if) depth 9

  Sound-confirm_restore :
      (guard : Guard) (committed : Bool)
      → Sound env stop start (confirm_restore env guard committed)
  unfolding confirm_restore
  Sound-confirm_restore guard committed =
      search
        (
          sound_rules, Sound-apply_or_owe, Sound-begin_restore, Sound-tproxy_failed,
          Sound-unstage_if,
        )
        depth 12

  Sound-restore_staged :
      (guard : Guard) (committed : Bool) → Sound env stop start (restore_staged env guard committed)
  unfolding restore_staged
  Sound-restore_staged guard committed =
      search (sound_rules, Sound-await_tproxy, Sound-stage_back, Sound-confirm_restore) depth 9

  Sound-apply_pick : Sound env stop start (apply_pick env)
  unfolding apply_pick
  Sound-apply_pick = search (sound_rules, Sound-settle)

  pub Sound-commit_restore :
      (cfg : Config) (guard : Guard) → Sound env stop start (commit_restore env cfg guard)
  unfolding commit_restore
  Sound-commit_restore cfg guard =
      search (sound_rules, Sound-apply_pick, Sound-restore_staged) depth 9
