-- ===== src/Notifications/Operations/Rounds.antt =====
-- The rounds of `publishAt`, and the leases that its saves take.
use mathlib.Core.Path.{subst}
use vpn_director.Prelude.{
  ℕ, suc, ◌+◌, ◌<◌, ◌≤◌, Text, true, false, ◌≡◌, sym, ◌∙◌, ◌⊎◌, inl, inr, refl, ◌||◌, not, Option,
  none, some, Option-cases, Bool-cases, [], ◌==◌, leb, arith,
}
use vpn_director.Notifications.Events.{EventId, max_uint64}
use vpn_director.Notifications.State.{
  Store, StoreError, reserve_unsaved, deferred, sequence_exhausted, is_empty, prune, append_event,
}
use vpn_director.Notifications.Saves.{
  SavedState, SaveStart, exhausted, clean, write, begin_save, start_of, state_to_save, snapshot,
  next_reserve, max, reserve_needed, finish_save,
}
use vpn_director.Notifications.Operations.{
  Attempt, World, ending_failure, write_state, run_start, save, publish_at, drain, flush_for_events,
  publish, defer_in, end_publish,
}

-- the store can give out an id, or never again
abbrev pub IsLeased : Store → Type 0
IsLeased s = (s.sequence ≡ max_uint64) ⊎ (s.sequence < s.reserved_through)

-- how a publication that tries to lease ids ends
abbrev pub IsEnd : World → World × Option EventId × Option StoreError → Type 0
IsEnd w r =
    ((r.1 ≡ none) × (r.2 ≡ some sequence_exhausted) × (w.store.sequence ≡ max_uint64))
    ⊎ ((r.1 ≡ none) × (r.2 ≡ some reserve_unsaved) × (r.0.store.backlog ≡ w.store.backlog))
    ⊎ ((id : EventId) × (r.1 ≡ some id))

-- what a save leaves alone, and the lease that it takes if it succeeds
abbrev pub IsSave : World → World × Option StoreError → Type 0
IsSave w r =
    (r.0.store.sequence ≡ w.store.sequence)
    × (r.0.store.backlog ≡ w.store.backlog)
    × (r.1 ≡ none → IsLeased r.0.store)

run_start-IsLeased :
    (attempt : Attempt) (p : Store) (w : World)
    → w.store ≡ p
    → p.sequence ≤ max_uint64
    → (run_start attempt (start_of 0 p) w).1 ≡ none
    → IsLeased (run_start attempt (start_of 0 p) w).0.store
unfolding run_start start_of write_state state_to_save snapshot next_reserve max reserve_needed
    finish_save ending_failure
run_start-IsLeased attempt p w e b h = ground arith

finish_save_keeps :
    (failure : Option StoreError) (state : SavedState) (revision : ℕ) (s : Store)
    → ((finish_save failure state revision s).sequence ≡ s.sequence)
      × ((finish_save failure state revision s).backlog ≡ s.backlog)
unfolding finish_save
finish_save_keeps none state revision s = (refl, refl)
finish_save_keeps (some f) state revision s = (refl, refl)

run_start_keeps :
    (attempt : Attempt) (start : SaveStart) (w : World)
    → ((run_start attempt start w).0.store.sequence ≡ w.store.sequence)
      × ((run_start attempt start w).0.store.backlog ≡ w.store.backlog)
unfolding run_start write_state finish_save ending_failure
run_start_keeps attempt exhausted w = (refl, refl)
run_start_keeps attempt clean w = (refl, refl)
run_start_keeps attempt (write state revision) w = (
  (finish_save_keeps (ending_failure attempt.ending) state revision w.store).0,
  (finish_save_keeps (ending_failure attempt.ending) state revision w.store).1,
)

-- one round with no lease left to take
publish_at_leased :
    (save_all : World → World × Option StoreError) (text : Text) (at fuel : ℕ) (w : World)
    → IsLeased w.store
    → ((publish_at save_all text at (suc fuel) w).1 ≡ none)
        × ((publish_at save_all text at (suc fuel) w).2 ≡ some sequence_exhausted)
        × (w.store.sequence ≡ max_uint64)
      ⊎ ((id : EventId) × ((publish_at save_all text at (suc fuel) w).1 ≡ some id))
unfolding publish_at prune
publish_at_leased save_all text at fuel w (inl top) =
    let t : (w.store.sequence == max_uint64) ≡ true = ground arith in
    inl (rw t refl, rw t refl, top)
publish_at_leased save_all text at fuel w (inr lt) =
    elim (Bool-cases (w.store.sequence == max_uint64)) [
      | inl t ↦ inl (rw t refl, rw t refl, ground arith)
      | inr f ↦
          let l : leb w.store.reserved_through w.store.sequence ≡ false = ground arith in
          inr ((append_event text at (prune at w.store)).1, rw f (rw l refl))
    ]

publish_at_again :
    (save_all : World → World × Option StoreError) (text : Text) (at fuel : ℕ) (w : World)
    → (w.store.sequence == max_uint64) ≡ false
    → leb w.store.reserved_through w.store.sequence ≡ true
    → (save_all (record w { store = prune at w.store })).1 ≡ none
    → publish_at save_all text at (suc fuel) w
      ≡ publish_at save_all text at fuel (save_all (record w { store = prune at w.store })).0
unfolding publish_at prune
publish_at_again save_all text at fuel w f full e = rw f (rw full (rw e refl))

publish_at_unsaved :
    (save_all : World → World × Option StoreError) (text : Text) (at fuel : ℕ) (w : World)
    (failure : StoreError)
    → (w.store.sequence == max_uint64) ≡ false
    → leb w.store.reserved_through w.store.sequence ≡ true
    → (save_all (record w { store = prune at w.store })).1 ≡ some failure
    → publish_at save_all text at (suc fuel) w
      ≡ ((save_all (record w { store = prune at w.store })).0, none, some reserve_unsaved)
unfolding publish_at prune
publish_at_unsaved save_all text at fuel w failure f full e = rw f (rw full (rw e refl))

leased-IsEnd :
    (save_all : World → World × Option StoreError) (text : Text) (at fuel : ℕ) (w v : World)
    → v.store.sequence ≡ w.store.sequence
    → IsLeased v.store
    → IsEnd w (publish_at save_all text at (suc fuel) v)
leased-IsEnd save_all text at fuel w v e l = elim (publish_at_leased save_all text at fuel v l) [
  | inl (a, b, c) ↦ inl (a, b, sym e ∙ c)
  | inr (id, a) ↦ inr (inr (id, a))
]

pub publish_at-IsEnd :
    (save_all : World → World × Option StoreError) (text : Text) (at : ℕ) (w : World)
    → IsSave
        (record w { store = prune at w.store })
        (save_all (record w { store = prune at w.store }))
    → IsEnd w (publish_at save_all text at 2 w)
unfolding publish_at prune
publish_at-IsEnd save_all text at w saved =
    let p = record w { store = prune at w.store } in
    elim (Bool-cases (w.store.sequence == max_uint64)) [
      | inl t ↦ inl (rw t refl, rw t refl, ground arith)
      | inr f ↦ elim (Bool-cases (leb w.store.reserved_through w.store.sequence)) [
        | inl full ↦ elim (Option-cases (save_all p).1) [
          | inl e ↦
              subst (IsEnd w) (sym (publish_at_again save_all text at 1 w f full e))
                (leased-IsEnd save_all text at 0 w (save_all p).0 (saved.0) (saved.2 e))
          | inr (failure, e) ↦
              subst (IsEnd w) (sym (publish_at_unsaved save_all text at 1 w failure f full e))
                (inr (inl (refl, refl, saved.1)))
        ]
        | inr free ↦ inr (inr ((append_event text at (prune at w.store)).1, rw f (rw free refl)))
      ]
    ]

module _ (disk : ℕ → Attempt) where
  save-IsSave : (w : World) → w.store.sequence ≤ max_uint64 → IsSave w (save disk 0 w)
  unfolding save begin_save prune
  save-IsSave w b =
      let p = prune (disk w.saves).at w.store in
      let v = record w { store = p; saves = w.saves + 1 } in
      let kept = run_start_keeps (disk w.saves) (start_of 0 p) v in
      (kept.0, kept.1, run_start-IsLeased (disk w.saves) p v refl b)

  flush_for_events_saved :
      (w : World)
      → (save disk 0 w).1 ≡ none
      → (save disk 0 w).0.store.backlog ≡ []
      → flush_for_events disk 0 w ≡ ((save disk 0 w).0, none)
  unfolding flush_for_events drain
  flush_for_events_saved w e n = rw (flush_for_events, e, n) refl

  flush_for_events_failed :
      (w : World) (failure : StoreError)
      → (save disk 0 w).1 ≡ some failure
      → flush_for_events disk 0 w ≡ ((save disk 0 w).0, some failure)
  unfolding flush_for_events
  flush_for_events_failed w failure e = rw (flush_for_events, e) refl

  pub flush_for_events-IsSave :
      (w : World)
      → w.store.sequence ≤ max_uint64
      → w.store.backlog ≡ []
      → IsSave w (flush_for_events disk 0 w)
  flush_for_events-IsSave w b e =
      let s = save-IsSave w b in
      elim (Option-cases (save disk 0 w).1) [
        | inl saved ↦
            subst (IsSave w) (sym (flush_for_events_saved w saved (s.1 ∙ e)))
              (s.0, s.1, λ h. s.2 saved)
        | inr (failure, f) ↦
            subst (IsSave w) (sym (flush_for_events_failed w failure f)) (s.0, s.1, λ h. cc)
      ]

  pub publish_deferred :
      (text : Text) (at : ℕ) (w : World)
      → not w.store.opened || not (is_empty w.store.backlog) ≡ true
      → publish disk text at w ≡ (defer_in text at w, none, some deferred)
  unfolding publish
  publish_deferred text at w e = rw e refl

  pub publish_tried :
      (text : Text) (at : ℕ) (w : World)
      → not w.store.opened || not (is_empty w.store.backlog) ≡ false
      → publish disk text at w
        ≡ end_publish text at (publish_at (flush_for_events disk 0) text at 2 w)
  unfolding publish
  publish_tried text at w e = rw e refl
