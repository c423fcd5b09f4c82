-- ===== src/Monitor/Results/Silence.antt =====
-- When a server turns dead.
use vpn_director.Prelude.{
  ℕ, ◌+◌, Text, text_eq, text_eq_iff, Bool, true, false, ◌&&◌, ◌||◌, not, Option, none, some, List,
  [], ◌∷◌, ◌++◌, ◌≡◌, ◌∙◌, ◌<◌, refl, if◌then◌else◌, ◌==◌, any, any-append, any-keep_if, keep_if,
  arith,
}
use vpn_director.Monitor.Entries.{dead, same_status, Entry}
use vpn_director.Monitor.State
use vpn_director.Monitor.State.{
  Monitor, ok, same_phase, Entries, Outcome, find_key, drop_key, at_key, each, same_session,
  set_state, complete, publish_one, publish_each, publish_pending, discard_pending,
  invalidate_evidence, wan_evidence, is_recent, control_recent, prune_recent, guard_due,
}
use vpn_director.Monitor.Results.{
  Result, guard, outcome_of, apply_success, apply_failure, apply, is_current, take_answer, is_entry,
  land, count_outcome, note_success, note_failure, resolve_failure,
}

-- the same endpoints in the same order, none more and none less, and none of them dead that was not
unfoldable pub none_died : Entries → Entries → Bool
none_died [] [] = true
none_died [] (e ∷ after) = false
none_died (d ∷ before) [] = false
none_died ((j, d) ∷ before) ((k, e) ∷ after) =
    text_eq j k
    && (same_status d.st.status dead || not (same_status e.st.status dead))
    && none_died before after

none_died_refl : (entries : Entries) → none_died entries entries ≡ true
unfolding none_died
none_died_refl [] = refl
none_died_refl ((key, e) ∷ entries) = ground (arith, none_died_refl entries, text_eq_iff key key)

none_died_trans :
    (a b c : Entries) → none_died a b ≡ true → none_died b c ≡ true → none_died a c ≡ true
unfolding none_died
none_died_trans [] [] c h g = g
none_died_trans [] (e ∷ b) c h g = absurd (ground arith)
none_died_trans (d ∷ a) [] c h g = absurd (ground arith)
none_died_trans (d ∷ a) (e ∷ b) [] h g = absurd (ground arith)
none_died_trans ((i, d) ∷ a) ((j, e) ∷ b) ((k, f) ∷ c) h g =
    ground (arith, none_died_trans a b c, text_eq_iff i j, text_eq_iff j k, text_eq_iff i k)

-- a change of entries that leaves their statuses alone
module _ (f : Entry → Entry) (h : (e : Entry) → (f e).st.status ≡ e.st.status) where
  none_died-at_key :
      (entries : Entries) (key : Text) → none_died entries (at_key f entries key) ≡ true
  unfolding none_died at_key
  none_died-at_key [] key = refl
  none_died-at_key ((k, e) ∷ rest) key =
      ground (arith, none_died-at_key rest key, none_died_refl rest, text_eq_iff k k, h e)

  none_died-each : (entries : Entries) → none_died entries (each f entries) ≡ true
  unfolding none_died each
  none_died-each [] = refl
  none_died-each ((k, e) ∷ rest) = ground (arith, none_died-each rest, text_eq_iff k k, h e)

publish_one-evidence :
    (now : ℕ) (key : Text) (o : Outcome) (m : Monitor)
    → wan_evidence now (publish_one now key o m) ≡ wan_evidence now m
unfolding publish_one wan_evidence control_recent
publish_one-evidence now key o m = ground arith

publish_each-evidence :
    (now : ℕ) (pending : List (Text × Outcome)) (m : Monitor)
    → wan_evidence now (publish_each now pending m) ≡ wan_evidence now m
unfolding publish_each
publish_each-evidence now [] m = refl
publish_each-evidence now ((key, o) ∷ rest) m =
    publish_each-evidence now rest (publish_one now key o m) ∙ publish_one-evidence now key o m

publish_pending-evidence :
    (now : ℕ) (m : Monitor) → wan_evidence now (publish_pending now m) ≡ wan_evidence now m
unfolding publish_pending wan_evidence control_recent
publish_pending-evidence now m = publish_each-evidence now m.pending m

-- the state after, if no server died in it without evidence
abbrev pub Silent : ℕ → Monitor → Monitor → Type 0
Silent now m after = none_died m.entries after.entries || wan_evidence now after ≡ true

recent_now : (now : ℕ) → is_recent now now ≡ true
unfolding is_recent
recent_now now = ground arith

recent_evidence :
    (now : ℕ) (o : Outcome) (m : Monitor) (before : List Outcome)
    → o.ok ≡ true
    → o.at ≡ now
    → m.recent ≡ keep_if (λ x. is_recent now x.at) (before ++ o ∷ [])
    → wan_evidence now m ≡ true
unfolding wan_evidence any
recent_evidence now o m before k a e = ground (
  arith,
  e,
  any-keep_if (λ (x : Outcome). x.ok && is_recent now x.at) (λ x. is_recent now x.at)
      (before ++ o ∷ []),
  any-append (λ (x : Outcome). is_recent now x.at && (x.ok && is_recent now x.at)) before (o ∷ []),
  recent_now now,
)

set_state-entries :
    (now : ℕ) (m : Monitor) → none_died m.entries (set_state now State.wan_down [] m).entries ≡ true
unfolding set_state invalidate_evidence
set_state-entries now m = ground (
  arith,
  none_died_refl m.entries,
  none_died-each (λ e. record e { evidence_follow_up = false }) (λ e. refl) m.entries,
)

controlled :
    (now : ℕ) (m : Monitor) → 0 < now → wan_evidence now (record m { control_ok = now }) ≡ true
unfolding wan_evidence control_recent is_recent
controlled now m p = ground arith

closing_down :
    (now : ℕ) (m : Monitor) → none_died m.entries (guard (some false) now m).entries ≡ true
unfolding guard discard_pending
closing_down now m =
    let cleared = each (λ (e : Entry). record e { pending = false }) m.entries in
    none_died_trans m.entries cleared (guard (some false) now m).entries
      (none_died-each (λ e. record e { pending = false }) (λ e. refl) m.entries)
      (set_state-entries now (record m {
        entries = cleared;
        pending = [];
        recent = [];
        next_control = now + State.control_every;
        wan_paused = true;
      }))

guard-Silent : (up : Option Bool) (now : ℕ) (m : Monitor) → 0 < now → Silent now m (guard up now m)
unfolding guard
guard-Silent none now m p = ground (arith, none_died_refl m.entries)
guard-Silent (some true) now m p =
    ground (arith, publish_pending-evidence now (record m { control_ok = now }), controlled now m p)
guard-Silent (some false) now m p = ground (arith, closing_down now m)

success-evidence :
    (now delay : ℕ) (r : Result) (m : Monitor)
    → r.failure ≡ none
    → wan_evidence now (apply_success now delay r (count_outcome now r m)) ≡ true
unfolding apply_success note_success count_outcome prune_recent outcome_of
success-evidence now delay r m f =
    let noted = note_success now delay r (count_outcome now r m) in
    publish_pending-evidence now noted
    ∙ recent_evidence now (outcome_of now r) noted m.recent (rw f refl) refl refl

pick-Silent :
    (b : Bool) (now : ℕ) (m x y : Monitor)
    → (b ≡ true → Silent now m x)
    → Silent now m y
    → Silent now m (if b then x else y)
pick-Silent true now m x y h g = h refl
pick-Silent false now m x y h g = g

resolve-Silent :
    (up : Option Bool) (now : ℕ) (m : Monitor) → 0 < now → Silent now m (resolve_failure up now m)
unfolding resolve_failure
resolve-Silent up now m p =
    pick-Silent (wan_evidence now m) now m (publish_pending now m)
      (if guard_due now m then guard up now m else m)
      (λ e. ground (arith, publish_pending-evidence now m, e))
      (pick-Silent (guard_due now m) now m (guard up now m) m (λ e. guard-Silent up now m p)
        (ground (arith, none_died_refl m.entries)))

failure-Silent :
    (up : Option Bool) (now : ℕ) (reason : Text) (r : Result) (m : Monitor)
    → 0 < now
    → Silent now m (apply_failure up now reason r m)
unfolding apply_failure note_failure
failure-Silent up now reason r m p =
    let noted = at_key (λ (e : Entry). record e { pending = true }) m.entries r.key in
    let after = resolve_failure up now (note_failure now reason r m) in
    ground (
      arith,
      resolve-Silent up now (note_failure now reason r m) p,
      none_died_trans m.entries noted after.entries,
      none_died-at_key (λ e. record e { pending = true }) (λ e. refl) m.entries r.key,
    )

take_answer-Silent :
    (up : Option Bool) (now delay : ℕ) (r : Result) (failure : Option Text) (m : Monitor)
    → r.failure ≡ failure
    → 0 < now
    → Silent now m (take_answer up now delay r failure (count_outcome now r m))
unfolding take_answer count_outcome prune_recent
take_answer-Silent up now delay r none m e p = ground (arith, success-evidence now delay r m e)
take_answer-Silent up now delay r (some reason) m e p =
    failure-Silent up now reason r (count_outcome now r m) p

land-Silent : (now : ℕ) (r : Result) (m x : Monitor) → Silent now (land r m) x → Silent now m x
unfolding land
land-Silent now r m x h = ground (
  arith,
  h,
  none_died_trans m.entries (at_key (λ e. record e { in_flight = false }) m.entries r.key)
      x.entries,
  none_died-at_key (λ e. record e { in_flight = false }) (λ e. refl) m.entries r.key,
)

-- Whatever answer a worker brings at a time above 0, and whatever the control addresses say: either
-- the endpoints stay the same and none is dead that was not before, or there is evidence that the
-- WAN is up, since an endpoint or a control has answered within the last thirty seconds.
pub apply-Silent :
    (gone : ℕ → Bool) (cancelled : Bool) (up : Option Bool) (now delay : ℕ) (r : Result)
    (m : Monitor)
    → 0 < now
    → Silent now m (apply gone cancelled up now delay r m)
unfolding apply
apply-Silent gone cancelled up now delay r m p =
    let answered = take_answer up now delay r r.failure (count_outcome now r (land r m)) in
    pick-Silent (not (is_entry (find_key m.entries r.key)) || not (is_current gone r m)) now m m
      (if not (r.generation == m.generation)
          || r.started == 0
          || not (same_phase m.state ok)
          || cancelled
        then land r m
        else answered)
      (λ e. ground (arith, none_died_refl m.entries))
      (pick-Silent
        (not (r.generation == m.generation)
          || r.started == 0
          || not (same_phase m.state ok)
          || cancelled)
        now m (land r m) answered
        (λ e. land-Silent now r m (land r m) (ground (arith, none_died_refl (land r m).entries)))
        (land-Silent now r m answered
          (take_answer-Silent up now delay r r.failure (land r m) refl p)))
