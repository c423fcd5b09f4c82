-- ===== src/Monitor/State.antt =====
-- The monitor between its checks: server/internal/monitor/monitor.go. Entries are an association
-- list, a session is its number, and the channels that wake waiting goroutines are left out.
use vpn_director.Prelude.{
  ℕ, ◌+◌, ◌-◌, Text, text_eq, Bool, true, false, ◌&&◌, ◌||◌, not, Option, none, some, List, [], ◌∷◌,
  if◌then◌else◌, ◌==◌, ltb, any, keep_if, length,
}
use vpn_director.Monitor.Settings.{Settings}
use vpn_director.Monitor.Entries.{dead, same_status, EndpointState, Entry, bump, checkable, fail}

abbrev pub guard_window : ℕ
guard_window = 30_000_000_000

abbrev pub guard_min : ℕ
guard_min = 5

abbrev pub control_every : ℕ
control_every = 15_000_000_000

abbrev pub crash_window : ℕ
crash_window = 600_000_000_000

pub data Phase : Type 0 where
  ok stopped disabled no_xray wan_down prober_error : Phase

unfoldable pub same_phase : Phase → Phase → Bool
same_phase ok ok = true
same_phase stopped stopped = true
same_phase disabled disabled = true
same_phase no_xray no_xray = true
same_phase wan_down wan_down = true
same_phase prober_error prober_error = true
same_phase a b = false

-- a completed check, with the reason of a failure
pub record Outcome : Type 0 where
  pub at : ℕ
  pub ok : Bool
  pub key : Text
  pub reason : Text
  pub seq : ℕ
  pub generation : ℕ
  pub started : ℕ

abbrev pub Entries : Type 0
Entries = List (Text × Entry)

pub record SavedEntry : Type 0 where
  pub st : EndpointState
  pub pause : ℕ
  pub sticky : Bool

pub record Monitor : Type 0 where
  pub settings : Settings
  pub state : Phase
  pub message : Text
  pub entries : Entries
  pub order : List Text
  pub restored : List (Text × SavedEntry)
  pub session : Option ℕ
  pub sequence : ℕ
  pub starts : ℕ
  pub generation : ℕ
  pub closed : Bool
  pub pending : List (Text × Outcome)
  pub recent : List Outcome
  pub control_ok : ℕ
  pub next_control : ℕ
  pub crash_batches : ℕ
  pub session_since : ℕ
  pub wan_paused : Bool
  pub crashes : List ℕ
  pub lag : ℕ
  pub lag_warned : Bool
  pub dirty : Bool
  pub status_dirty : Bool
  pub updated : ℕ

module _ {ℓ} {A : Type ℓ} where
  unfoldable pub find_key : List (Text × A) → Text → Option A
  find_key [] key = none
  find_key ((k, a) ∷ rest) key =
      let found = find_key rest key in if text_eq k key then some a else found

  unfoldable pub drop_key : List (Text × A) → Text → List (Text × A)
  drop_key [] key = []
  drop_key ((k, a) ∷ rest) key =
      let others = drop_key rest key in if text_eq k key then others else (k, a) ∷ others

  -- a change through the pointer that the map holds
  unfoldable pub at_key : (A → A) → List (Text × A) → Text → List (Text × A)
  at_key f [] key = []
  at_key f ((k, a) ∷ rest) key =
      let others = at_key f rest key in if text_eq k key then (k, f a) ∷ others else (k, a) ∷ others

  unfoldable pub each : (A → A) → List (Text × A) → List (Text × A)
  each f [] = []
  each f ((k, a) ∷ rest) = (k, f a) ∷ each f rest

unfoldable pub same_session : Option ℕ → Option ℕ → Bool
same_session none none = true
same_session none (some b) = false
same_session (some a) none = false
same_session (some a) (some b) = a == b

-- `invalidateEvidence`
unfoldable pub invalidate_evidence : Monitor → Monitor
invalidate_evidence m = record m {
  generation = bump m.generation;
  entries = each (λ e. record e { evidence_follow_up = false }) m.entries;
}

unfoldable pub discard_pending : Monitor → Monitor
discard_pending m = record m {
  entries = each (λ e. record e { pending = false }) m.entries;
  pending = [];
}

unfoldable pub stop_session : Monitor → Monitor
stop_session m =
    let stopping = discard_pending (record m {
      session = none;
      session_since = 0;
      entries = each (λ e. record e { in_flight = false }) m.entries;
    }) in
    elim m.session [ none ↦ m | some s ↦ invalidate_evidence (record stopping { recent = [] }) ]

unfoldable pub set_state : ℕ → Phase → Text → Monitor → Monitor
set_state now phase message m =
    let after = record m { state = phase; message = message; updated = now } in
    if same_phase m.state phase && text_eq m.message message
    then m
    else if not (same_phase m.state phase)
    then invalidate_evidence after
    else after

unfoldable pub idle : ℕ → Phase → Text → Monitor → Monitor
idle now phase message m =
    let stopped_monitor = stop_session m in
    set_state now phase message (record stopped_monitor { recent = [] })

-- `completed` of an entry, in a session and a generation
unfoldable pub complete : Option ℕ → ℕ → Outcome → Entry → Entry
complete session generation o e = record e {
  completed = o.seq;
  completed_session = session;
  completed_generation = o.generation;
  completed_start = o.started;
  follow_up = e.follow_up && not (ltb e.after o.seq);
  evidence_follow_up =
      e.evidence_follow_up && not (o.generation == generation && ltb e.evidence_after o.started);
}

unfoldable pub is_waiting : Option Entry → Bool
is_waiting none = false
is_waiting (some e) = checkable e && e.pending

unfoldable pub was_dead : Option Entry → Bool
was_dead none = false
was_dead (some e) = same_status e.st.status dead

-- one pending failure in `publishPending`
unfoldable pub publish_one : ℕ → Text → Outcome → Monitor → Monitor
publish_one now key o m =
    if is_waiting (find_key m.entries key)
    then record m {
      entries =
          at_key
            (λ e.
              complete m.session m.generation o
                (record (fail o.at o.reason m.settings e) { pending = false }))
            m.entries key;
      status_dirty = m.status_dirty || not (was_dead (find_key m.entries key));
      dirty = true;
      updated = now;
    }
    else m

unfoldable pub publish_each : ℕ → List (Text × Outcome) → Monitor → Monitor
publish_each now [] m = m
publish_each now ((key, o) ∷ rest) m = publish_each now rest (publish_one now key o m)

-- `publishPending`
unfoldable pub publish_pending : ℕ → Monitor → Monitor
publish_pending now m = let after = publish_each now m.pending m in record after { pending = [] }

unfoldable pub is_recent : ℕ → ℕ → Bool
is_recent now at = ltb (now - at) guard_window

-- a control answered within the window; 0 is never
unfoldable pub control_recent : ℕ → Monitor → Bool
control_recent now m = not (m.control_ok == 0) && is_recent now m.control_ok

unfoldable pub wan_evidence : ℕ → Monitor → Bool
wan_evidence now m = control_recent now m || any (λ o. o.ok && is_recent now o.at) m.recent

unfoldable pub prune_recent : ℕ → Monitor → Monitor
prune_recent now m = record m { recent = keep_if (λ o. is_recent now o.at) m.recent }

unfoldable pub count_checkable : Entries → ℕ
count_checkable [] = 0
count_checkable ((key, e) ∷ rest) =
    let others = count_checkable rest in if checkable e then others + 1 else others

unfoldable pub smaller : ℕ → ℕ → ℕ
smaller a b = if ltb b a then b else a

-- `guardDue`, once the recent checks have been pruned
unfoldable pub guard_due : ℕ → Monitor → Bool
guard_due now m =
    let need = smaller guard_min (count_checkable m.entries) in
    not (need == 0)
    && not (ltb (length m.recent) need)
    && not (control_recent now m)
    && not (any (λ o. o.ok) m.recent)
