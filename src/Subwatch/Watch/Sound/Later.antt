-- ===== src/Subwatch/Watch/Sound/Later.antt =====
-- No method of a restore or of the step that takes clients off Xray undoes a call.
use vpn_director.Prelude.{ℕ, ◌≤◌, Bool, false, Option, arith}
use vpn_director.VpnConfig.Config.{Config, XrayPendingRestore}
use vpn_director.Subwatch.Watch.Methods.{Preserves, pure, gets, modify, ◌>>=◌}
use vpn_director.Subwatch.Watch.{
  Outcome, match_outcome, ok, err, Effect, World, Env, M, change, field, log, ask, set_locked,
  set_config, outbound_refuses, save, update_locked, update,
}
use vpn_director.Subwatch.Watch.Fallback.{guard_commit, drop_staged, commit_staged}
use vpn_director.Subwatch.Watch.Restore.{
  Ending, reinstated, finished, dropped, end_guarded, after_ending, finalize_restore,
}
use vpn_director.Subwatch.Watch.Commit.{
  Guard, ending_error, unstage_restore, stage_back, begin_guarded, unstage_if, finish_restore,
  drop_fallback, begin_restore, confirm_restore,
}
use vpn_director.Subwatch.Watch.Sound.{Preserves-outcome}
use vpn_director.Subwatch.Watch.Sound.Calm.{
  IsCalm, calm_steps, Calm-mutation_allowed, Calm-refuse_outbound, Calm-apply,
  Calm-set_pending_apply, Calm-apply_or_owe, Calm-reload, Calm-fallback_ready, Calm-settle,
  Calm-tproxy_failed,
}

abbrev pub Later : ℕ → World → Type 0
Later k v = k ≤ v.calls

module _ (env : Env) (k : ℕ) where
  abbrev pub IsLater : {A : Type 0} → M A → Type 0
  IsLater = Preserves (Later k)

  pub later : IsCalm env (Later k)
  unfolding ask change field log modify gets
  later = record {
    asks = λ answer. record { kept = λ v le. omega (arith, le) };
    changes = λ f. record { kept = λ v le. le };
    fields = λ f. record { kept = λ v le. le };
    logs = λ cfg. record { kept = λ v le. le };
  }

  Later-log : (e : Effect) → IsLater (log e)
  unfolding log modify
  Later-log e = record { kept = λ v le. le }

  Later-set_locked : (b : Bool) → IsLater (set_locked b)
  unfolding set_locked modify
  Later-set_locked b = record { kept = λ v le. le }

  Later-set_config : (cfg : Config) → IsLater (set_config cfg)
  unfolding set_config modify
  Later-set_config cfg = record { kept = λ v le. le }

  ruleset later_steps = (
    calm_steps, later, Preserves-outcome, Later-log, Later-set_locked, Later-set_config,
    Calm-mutation_allowed, Calm-refuse_outbound, Calm-apply, Calm-set_pending_apply,
    Calm-apply_or_owe, Calm-reload, Calm-fallback_ready, Calm-settle, Calm-tproxy_failed,
  )

  Later-outbound_refuses : (cfg : Config) → IsLater (outbound_refuses env cfg)
  unfolding outbound_refuses
  Later-outbound_refuses cfg = search later_steps depth 9

  Later-save : {A : Type 0} (cfg : Config) (r : Outcome (Config × A)) → IsLater (save env cfg r)
  unfolding save
  Later-save cfg (err e) = search later_steps
  Later-save cfg (ok (next, a)) = search later_steps

  Later-update :
      {A : Type 0} (f : Config → M (Outcome (Config × A)))
      → ((cfg : Config) → IsLater (f cfg))
      → IsLater (update env f)
  unfolding update update_locked
  Later-update f each = search (later_steps, Later-outbound_refuses, Later-save, each) depth 14

  Later-guard_commit : (cfg : Config) → IsLater (guard_commit env cfg)
  unfolding guard_commit
  Later-guard_commit cfg = search later_steps depth 9

  Later-drop_staged : (cfg : Config) → IsLater (drop_staged env cfg)
  unfolding drop_staged
  Later-drop_staged cfg = search (later_steps, Later-guard_commit)

  pub Later-commit_staged : (cfg : Config) → IsLater (commit_staged env cfg)
  unfolding commit_staged
  Later-commit_staged cfg = search (later_steps, Later-update, Later-drop_staged) depth 12

  Later-unstage_restore : IsLater (unstage_restore env)
  unfolding unstage_restore
  Later-unstage_restore = search (later_steps, Later-update) depth 9

  Later-unstage_if : (b : Bool) → IsLater (unstage_if env b)
  unfolding unstage_if
  Later-unstage_if b = search (later_steps, Later-unstage_restore)

  Later-end_guarded :
      (expected : Option XrayPendingRestore) (applied : Bool) (cfg : Config)
      → IsLater (end_guarded env expected applied cfg)
  unfolding end_guarded
  Later-end_guarded expected applied cfg = search later_steps depth 12

  Later-after_ending : (ending : Ending) → IsLater (after_ending env ending)
  unfolding after_ending
  Later-after_ending (finished committed) = search later_steps depth 9
  Later-after_ending dropped = search later_steps depth 9
  Later-after_ending reinstated = search later_steps depth 9

  Later-finalize_restore :
      (expected : Option XrayPendingRestore) (applied : Bool)
      → IsLater (finalize_restore env expected applied)
  unfolding finalize_restore
  Later-finalize_restore expected applied =
      search (later_steps, Later-update, Later-end_guarded, Later-after_ending) depth 12

  Later-finish_restore :
      (attempt : Option XrayPendingRestore) → IsLater (finish_restore env attempt)
  unfolding finish_restore
  Later-finish_restore attempt = search (later_steps, Later-finalize_restore)

  Later-drop_fallback :
      (committed : Bool) (attempt : Option XrayPendingRestore)
      → IsLater (drop_fallback env committed attempt)
  unfolding drop_fallback
  Later-drop_fallback committed attempt = search (later_steps, Later-finish_restore) depth 9

  Later-stage_back : (guard : Guard) (cfg : Config) → IsLater (stage_back env guard cfg)
  unfolding stage_back
  Later-stage_back guard cfg = search later_steps

  Later-begin_guarded : (guard : Guard) (cfg : Config) → IsLater (begin_guarded env guard cfg)
  unfolding begin_guarded
  Later-begin_guarded guard cfg = search later_steps

  Later-begin_restore :
      (guard : Guard) (committed : Bool) → IsLater (begin_restore env guard committed)
  unfolding begin_restore
  Later-begin_restore guard committed =
      search (later_steps, Later-update, Later-begin_guarded, Later-drop_fallback, Later-unstage_if)
        depth 12

  Later-confirm_restore :
      (guard : Guard) (committed : Bool) → IsLater (confirm_restore env guard committed)
  unfolding confirm_restore
  Later-confirm_restore guard committed =
      search (later_steps, Later-begin_restore, Later-unstage_if) depth 12

  -- what follows in a restore once TPROXY is ready
  pub Later-stage :
      (guard : Guard) (committed : Bool)
      → IsLater (
          update env (stage_back env guard) >>= λ staged.
          match_outcome staged
            (λ e. pure (false, committed, ending_error e))
            (λ _. confirm_restore env guard committed))
  Later-stage guard committed =
      search (later_steps, Later-update, Later-stage_back, Later-confirm_restore) depth 12
