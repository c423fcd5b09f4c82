-- ===== src/Monitor/Evidence/Epochs.antt =====
-- How far one operation moves the generation of the evidence.
use vpn_director.Prelude.{
  ℕ, ◌⊎◌, inl, inr, Text, Bool, true, false, not, Option, Option-cases, none, some, List, [], ◌∷◌,
  ◌≡◌, ◌∙◌, refl, arith,
}
use vpn_director.Monitor.Entries.{bump}
use vpn_director.Monitor.State.{
  Monitor, Entries, Phase, Outcome, wan_down, same_phase, set_state, stop_session, discard_pending,
  invalidate_evidence, publish_one, publish_each, publish_pending, idle, prune_recent,
}
use vpn_director.Monitor.Results.{
  Result, finish, guard, apply, apply_success, apply_failure, take_answer, resolve_failure,
  note_success, note_failure, land, count_outcome,
}
use vpn_director.Monitor.Dispatch.{queue, dispatch, Started, start_each, note_lag}
use vpn_director.Monitor.Sets.{Endpoint, take_merge, merge, reassess_rejected, reject_key}
use vpn_director.Monitor.Evidence.Operations.{
  Operation, invalidates, stops, goes_to, idles, merges, reassesses, rejects, queues, dispatches,
  finishes, guards, applies, has_session, step, ends,
}

-- one operation bumps the generation twice at most, and at all if it ends the epoch
unfoldable pub Bumped : Bool → ℕ → ℕ → Type 0
Bumped ended before after =
    ((after ≡ before) × (ended ≡ false)) ⊎ (after ≡ bump before) ⊎ (after ≡ bump (bump before))

generation-publish_each :
    (now : ℕ) (outcomes : List (Text × Outcome)) (m : Monitor)
    → (publish_each now outcomes m).generation ≡ m.generation
unfolding publish_each publish_one
generation-publish_each now [] m = refl
generation-publish_each now ((key, o) ∷ rest) m =
    let later = generation-publish_each now rest (publish_one now key o m) in ground (arith, later)

generation-start_each :
    (due : Entries) (m : Monitor) (started : List Started)
    → (start_each due m started).0.generation ≡ m.generation
unfolding start_each
generation-start_each [] m started = refl
generation-start_each ((key, e) ∷ rest) m started = generation-start_each rest _ _

generation-publish_pending :
    (now : ℕ) (m : Monitor) → (publish_pending now m).generation ≡ m.generation
unfolding publish_pending
generation-publish_pending now m = generation-publish_each now m.pending m

Bumped-set_state :
    (now : ℕ) (phase : Phase) (message : Text) (m : Monitor)
    → Bumped
        (not (same_phase m.state phase))
        m.generation
        (set_state now phase message m).generation
unfolding Bumped set_state invalidate_evidence
Bumped-set_state now phase message m = ground arith

Bumped-stop_session :
    (m : Monitor) → Bumped (has_session m.session) m.generation (stop_session m).generation
unfolding Bumped stop_session invalidate_evidence discard_pending has_session
Bumped-stop_session m = elim (Option-cases m.session) [
  | inl n ↦ rw n (inl (refl, refl))
  | inr (s, h) ↦ rw h (inr (inl refl))
]

Bumped-guard :
    (up : Option Bool) (now : ℕ) (m : Monitor)
    → Bumped (ends (guards up now) m) m.generation (guard up now m).generation
unfolding guard ends discard_pending Bumped
Bumped-guard none now m = inl (refl, refl)
Bumped-guard (some true) now m = inl (generation-publish_pending now _, refl)
Bumped-guard (some false) now m = Bumped-set_state now wan_down [] _

Bumped-resolve :
    (up : Option Bool) (now : ℕ) (m : Monitor)
    → Bumped false m.generation (resolve_failure up now m).generation
unfolding resolve_failure Bumped
Bumped-resolve up now m = ground (arith, generation-publish_pending now m, Bumped-guard up now m)

Bumped-merge :
    (now : ℕ) (eps : List Endpoint) (refused : List (Text × Text)) (m : Monitor)
    → Bumped (ends (merges now eps refused) m) m.generation (merge now eps refused m).generation
unfolding merge ends Bumped invalidate_evidence take_merge
Bumped-merge now eps refused m = ground arith

Bumped-reassess :
    (now : ℕ) (m : Monitor)
    → Bumped (ends (reassesses now) m) m.generation (reassess_rejected now m).generation
unfolding reassess_rejected ends Bumped invalidate_evidence
Bumped-reassess now m = ground arith

Bumped-reject :
    (now : ℕ) (key reason : Text) (m : Monitor)
    → Bumped (ends (rejects now key reason) m) m.generation (reject_key now key reason m).generation
unfolding reject_key ends Bumped invalidate_evidence
Bumped-reject now key reason m = ground arith

generation-queue :
    (keys : List Text) (fresh : Bool) (m : Monitor)
    → (queue keys fresh m).0.generation ≡ m.generation
unfolding queue
generation-queue [] fresh m = ground arith
generation-queue (key ∷ keys) fresh m = ground arith

generation-note_lag : (late : ℕ) (m : Monitor) → (note_lag late m).generation ≡ m.generation
unfolding note_lag
generation-note_lag late m = ground arith

generation-dispatch : (now : ℕ) (m : Monitor) → (dispatch now m).0.generation ≡ m.generation
unfolding dispatch
generation-dispatch now m =
    let lag = generation-note_lag _ (start_each _ m []).0 in lag ∙ generation-start_each _ m []

Bumped-take_answer :
    (up : Option Bool) (now delay : ℕ) (r : Result) (failure : Option Text) (m : Monitor)
    → Bumped false m.generation (take_answer up now delay r failure m).generation
unfolding take_answer Bumped apply_success apply_failure note_success note_failure
Bumped-take_answer up now delay r none m = inl (generation-publish_pending now _, refl)
Bumped-take_answer up now delay r (some reason) m =
    Bumped-resolve up now (note_failure now reason r m)

Bumped-apply :
    (gone : ℕ → Bool) (cancelled : Bool) (up : Option Bool) (now delay : ℕ) (r : Result)
    (m : Monitor)
    → Bumped false m.generation (apply gone cancelled up now delay r m).generation
unfolding apply Bumped land count_outcome prune_recent
Bumped-apply gone cancelled up now delay r m =
    ground (arith, Bumped-take_answer up now delay r r.failure (count_outcome now r (land r m)))

Bumped-idle :
    (now : ℕ) (phase : Phase) (message : Text) (m : Monitor)
    → Bumped (ends (idles now phase message) m) m.generation (idle now phase message m).generation
unfolding Bumped idle ends has_session stop_session set_state invalidate_evidence discard_pending
Bumped-idle now phase message m = elim (Option-cases m.session) [
  | inl n ↦ rw n (ground arith)
  | inr (s, h) ↦ rw h (ground arith)
]

pub step-Bumped :
    (op : Operation) (m : Monitor) → Bumped (ends op m) m.generation (step op m).generation
unfolding step ends Bumped invalidate_evidence finish
step-Bumped invalidates m = inr (inl refl)
step-Bumped stops m = Bumped-stop_session m
step-Bumped (goes_to now phase message) m = Bumped-set_state now phase message m
step-Bumped (idles now phase message) m = Bumped-idle now phase message m
step-Bumped (merges now eps refused) m = Bumped-merge now eps refused m
step-Bumped (reassesses now) m = Bumped-reassess now m
step-Bumped (rejects now key reason) m = Bumped-reject now key reason m
step-Bumped (queues keys fresh) m = inl (generation-queue keys fresh m, refl)
step-Bumped (dispatches now) m = inl (generation-dispatch now m, refl)
step-Bumped (finishes now r) m = inl (refl, refl)
step-Bumped (guards up now) m = Bumped-guard up now m
step-Bumped (applies gone cancelled up now delay r) m = Bumped-apply gone cancelled up now delay r m
