-- ===== src/Subwatch/Watch/Sound/Effects.antt =====
-- What has an effect on the world, in time: an apply, a message, and a write under the config lock.
use vpn_director.Prelude.{
  ℕ, ◌+◌, ◌≤◌, Bool, true, false, not, none, some, ◌∷◌, ◌≡◌, refl, sym, ◌∙◌, arith, ◌==◌,
  if◌then◌else◌, all, Option-cases, Bool-cases, inl, inr,
}
use vpn_director.VpnConfig.Config.{Config}
use vpn_director.Subwatch.Watch.Methods.{
  match_option, Preserves, pure, gets, modify, ◌>>=◌, Preserves-bind, Preserves-if, Preserves-pure,
}
use vpn_director.Subwatch.Watch.{
  WatchError, Outcome, ok, err, NoteKind, Effect, applied, sent, failed, World, Env, M, change,
  field, log, set_locked, set_config, ask, mutation_allowed, refuse_outbound, is_refused, apply,
  outbound_refuses, save, update_locked, update,
}
use vpn_director.Subwatch.Watch.Notes.{send, notify, note_number, last_kind, keep_kind, begin_note}
use vpn_director.Subwatch.Watch.Moves.{Move}
use vpn_director.Subwatch.Watch.Sound.{
  by_watch, is_timely, StopsAt, Moves, IsSound, IsWrite, silent, Sound-ask, Sound-change,
  allowed-early, basic_rules, Sound-mutation_allowed, Sound-refuse_outbound, Sound-is_refused,
  is_refused-IsPrompt,
}

module _ (env : Env) (stop : ℕ) (start : Config) where
  abbrev Kept : {A : Type 0} → M A → Type 0
  Kept = Preserves (IsSound env stop start)

  -- an effect logged in time
  log-IsSound :
      (e : Effect) (w : World)
      → (StopsAt env stop → w.calls ≤ stop + 4)
      → Moves ((w.calls, e) ∷ w.effects)
      → IsSound env stop start w
      → IsSound env stop start (log e w).1
  unfolding log modify is_timely all
  log-IsSound e w le m s = record {
    file = s.file;
    timely = λ stops. ground (arith, s.timely stops, le stops);
    moves = m;
  }

  -- a method that keeps the invariant where nothing has been refused yet
  Sound-unless_refused :
      {A : Type 0} (m : M A) (f : WatchError → M A)
      → ((w : World)
          → (StopsAt env stop → w.calls ≤ stop + 1)
          → IsSound env stop start w
          → IsSound env stop start (m w).1)
      → ((e : WatchError) → Kept (f e))
      → Kept (is_refused env >>= λ r. match_option r m f)
  unfolding ◌>>=◌ match_option
  Sound-unless_refused m f k kf = record {
    kept = λ w s. elim (Option-cases (is_refused env w).0) [
      | inl e ↦ rw e (
          k (is_refused env w).1 (λ stops. is_refused-IsPrompt env stop start stops w e)
            ((Sound-is_refused env stop start).kept w s))
      | inr (why, e) ↦
          rw e ((kf why).kept (is_refused env w).1 ((Sound-is_refused env stop start).kept w s))
    ];
  }

  Sound-applied : Kept (
      ask env env.applies >>= λ done. is_refused env >>= λ late.
      match_option late (pure (if done then none else some failed)) (λ e. pure (some e)))
  Sound-applied = search (basic_rules, Sound-is_refused)

  pub Sound-apply : Kept (apply env)
  unfolding apply ◌>>=◌ gets
  Sound-apply =
      Sound-unless_refused _ _
        (λ w le s.
          Sound-applied.kept (log (applied w.config) w).1
            (log-IsSound (applied w.config) w (λ stops. omega (arith, le stops)) s.moves s))
        (λ e. Preserves-pure (some e))

  send-IsSound :
      (kind : NoteKind) (w : World)
      → (StopsAt env stop → w.calls ≤ stop + 1)
      → IsSound env stop start w
      → IsSound env stop start (send kind w).1
  unfolding send ◌>>=◌ change modify field gets pure
  send-IsSound kind w le s =
      let v : World = record w { watch = begin_note kind w.watch } in
      let sv : IsSound env stop start v = record {
        file = s.file;
        timely = s.timely;
        moves = s.moves;
      } in
      elim (Bool-cases (note_number (last_kind kind v.watch) == note_number kind)) [
        | inl e ↦ rw e sv
        | inr e ↦ rw e (
            (Sound-change env stop start (keep_kind kind)).kept (log (sent kind) v).1
              (log-IsSound (sent kind) v (λ stops. omega (arith, le stops)) s.moves sv))
      ]

  pub Sound-notify : (kind : NoteKind) → Kept (notify env kind)
  unfolding notify
  Sound-notify kind =
      Sound-unless_refused (send kind) (λ e. pure tt) (send-IsSound kind) (λ e. Preserves-pure tt)

  save-IsSound :
      {A : Type 0} (cfg : Config) (r : Outcome (Config × A)) (w : World)
      → (StopsAt env stop → w.calls ≤ stop + 3)
      → ((next : Config) (a : A) → r ≡ ok (next, a) → Move cfg next)
      → w.locked ≡ true
      → w.config ≡ cfg
      → IsSound env stop start w
      → IsSound env stop start (save env cfg r w).1
  unfolding save ◌>>=◌ pure ask log set_config modify is_timely all
  save-IsSound cfg (err e) w le k locked same s = s
  save-IsSound cfg (ok (next, a)) w le k locked same s = elim (Bool-cases (env.saves w.calls)) [
    | inl e ↦ rw e (record {
      file = by_watch (rw (sym same) s.file) (k next a refl);
      timely = λ stops. ground (arith, s.timely stops, le stops);
      moves = (k next a refl, s.moves);
    })
    | inr e ↦ rw e ((Sound-ask env stop start env.saves).kept w s)
  ]

  Sound-outbound_refuses : (cfg : Config) → Kept (outbound_refuses env cfg)
  unfolding outbound_refuses
  Sound-outbound_refuses cfg = search (basic_rules, Sound-refuse_outbound)

  outbound_refuses_lem :
      (cfg : Config) (w : World)
      → w.locked ≡ true
      → ((outbound_refuses env cfg w).1.calls ≤ w.calls + 1)
        × ((outbound_refuses env cfg w).1.locked ≡ true)
        × ((outbound_refuses env cfg w).1.config ≡ w.config)
  unfolding outbound_refuses ◌>>=◌ match_option pure field gets ask refuse_outbound change modify
  outbound_refuses_lem cfg w h = (ground arith, ground arith, ground arith)

  mutation_allowed_held :
      (w : World)
      → w.locked ≡ true
      → ((mutation_allowed env w).1.locked ≡ true) × ((mutation_allowed env w).1.config ≡ w.config)
  unfolding mutation_allowed ◌>>=◌ match_option pure ask change modify
  mutation_allowed_held w h = (ground arith, ground arith)

  update_locked-IsSound :
      {A : Type 0} (f : Config → M (Outcome (Config × A)))
      → IsWrite f
      → (w : World) → w.locked ≡ true
      → IsSound env stop start w
      → IsSound env stop start (update_locked env f w).1
  unfolding update_locked ◌>>=◌ match_option pure gets
  update_locked-IsSound f k w locked s =
      let cfg = w.config in
      let v : World = (mutation_allowed env w).1 in
      let sv : IsSound env stop start v = (Sound-mutation_allowed env stop start).kept w s in
      let (lv, cv) = mutation_allowed_held w locked in
      let u : World = (outbound_refuses env cfg v).1 in
      let su : IsSound env stop start u = (Sound-outbound_refuses cfg).kept v sv in
      let (few, lu, cu) = outbound_refuses_lem cfg v lv in
      let x : World = (f cfg u).1 in
      let (lx, cx) = k.held cfg u lu in
      let sx : IsSound env stop start x = record {
        file = rw cx su.file;
        timely = λ stops. rw (k.quiet cfg u) (su.timely stops);
        moves = rw (k.quiet cfg u) su.moves;
      } in
      elim (Option-cases (mutation_allowed env w).0) [
        | inr (why, e) ↦ rw e sv
        | inl e ↦ rw e (elim (Option-cases (outbound_refuses env cfg v).0) [
          | inr (why, g) ↦ rw g su
          | inl g ↦ rw g (
              save-IsSound cfg (f cfg u).0 x
                (λ stops. omega (arith, k.short cfg u, few, allowed-early env stop start stops w e))
                (k.steps cfg u) lx (cx ∙ cu ∙ cv) sx)
        ])
      ]

  Sound-set_locked : (b : Bool) → Kept (set_locked b)
  unfolding set_locked modify
  Sound-set_locked b = silent env stop start (set_locked b) (λ w. (refl, refl))

  locked_update-IsSound :
      {A : Type 0} (f : Config → M (Outcome (Config × A)))
      → IsWrite f
      → Kept
          (set_locked true >>= λ _. update_locked env f >>= λ r. set_locked false >>= λ _. pure r)
  unfolding ◌>>=◌ pure set_locked
  locked_update-IsSound f k = record {
    kept = λ w s.
        let v : World = record w { locked = true } in
        (Sound-set_locked false).kept (update_locked env f v).1
          (update_locked-IsSound f k v refl ((Sound-set_locked true).kept w s));
  }

  pub Sound-update :
      {A : Type 0} (f : Config → M (Outcome (Config × A))) → IsWrite f → Kept (update env f)
  unfolding update
  Sound-update f k =
      Preserves-bind (ask env env.locks) _ (Sound-ask env stop start env.locks) λ locks.
        Preserves-if (not locks) _ _ (Preserves-pure (err failed)) (locked_update-IsSound f k)
