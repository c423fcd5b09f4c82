-- ===== src/Monitor/Results.antt =====
-- A worker's answer and the guard of the WAN: `apply`, `guard`, `finish` and `dispatch`'s start of
-- a check in server/internal/monitor/monitor.go. What lies outside the code is an argument: the
-- times, the jittered interval, which sessions have exited, and what the control addresses say,
-- `none` where the context ended meanwhile.
pub mod Silence
use vpn_director.Prelude.{
  ℕ, ◌+◌, ◌-◌, Text, text_eq, Bool, true, false, ◌&&◌, ◌||◌, not, Option, none, some, List, [], ◌∷◌,
  ◌++◌, if◌then◌else◌, ◌==◌, ltb, leb, any,
}
use vpn_director.Monitor.Settings.{Settings}
use vpn_director.Monitor.Entries.{alive, same_status, Entry, bump, checkable, succeed}
use vpn_director.Monitor.State.{
  Monitor, Entries, Phase, ok, wan_down, same_phase, Outcome, find_key, drop_key, at_key,
  same_session, set_state, complete, publish_pending, discard_pending, wan_evidence, prune_recent,
  guard_due, control_every, crash_window,
}

-- an answer, with the reason of a failure
pub record Result : Type 0 where
  pub sess : Option ℕ
  pub key : Text
  pub latency : ℕ
  pub failure : Option Text
  pub seq : ℕ
  pub at : ℕ
  pub generation : ℕ
  pub started : ℕ

unfoldable pub finish : ℕ → Result → Monitor → Monitor × Result
finish now r m =
    (record m { sequence = bump m.sequence }, record r { seq = bump m.sequence; at = now })

-- `guard`
unfoldable pub guard : Option Bool → ℕ → Monitor → Monitor
guard none now m = m
guard (some true) now m = publish_pending now (record m { control_ok = now })
guard (some false) now m =
    let discarded = discard_pending m in
    set_state now wan_down []
      (record discarded { recent = []; next_control = now + control_every; wan_paused = true })

unfoldable pub is_current : (ℕ → Bool) → Result → Monitor → Bool
is_current gone r m = elim r.sess [
  | none ↦ false
  | some s ↦ not (r.seq == 0) && same_session (some s) m.session && not (gone s)
]

unfoldable pub outcome_of : ℕ → Result → Outcome
outcome_of now r = record {
  at = now;
  ok = elim r.failure [ none ↦ true | some reason ↦ false ];
  key = r.key;
  reason = [];
  seq = r.seq;
  generation = r.generation;
  started = r.started;
}

unfoldable pub was_alive : Option Entry → Bool
was_alive none = false
was_alive (some e) = same_status e.st.status alive

-- an answer that came, in a monitor with its outcome among the recent ones
unfoldable pub note_success : ℕ → ℕ → Result → Monitor → Monitor
note_success now delay r m =
    let settled = not (ltb (r.at - m.session_since) crash_window) in
    record m {
      crash_batches = if settled then 0 else m.crash_batches;
      crashes = if settled then [] else m.crashes;
      entries =
          at_key
            (λ e.
              complete m.session m.generation (outcome_of now r) (succeed now r.latency delay e))
            m.entries r.key;
      status_dirty = m.status_dirty || not (was_alive (find_key m.entries r.key));
      dirty = true;
      updated = now;
    }

unfoldable pub apply_success : ℕ → ℕ → Result → Monitor → Monitor
apply_success now delay r m = publish_pending now (note_success now delay r m)

-- a failure waits for evidence that the WAN is up
unfoldable pub note_failure : ℕ → Text → Result → Monitor → Monitor
note_failure now reason r m = record m {
  entries = at_key (λ e. record e { pending = true }) m.entries r.key;
  pending = (r.key, record (outcome_of now r) { reason = reason }) ∷ drop_key m.pending r.key;
}

unfoldable pub resolve_failure : Option Bool → ℕ → Monitor → Monitor
resolve_failure up now m =
    if wan_evidence now m
    then publish_pending now m
    else (if guard_due now m then guard up now m else m)

unfoldable pub apply_failure : Option Bool → ℕ → Text → Result → Monitor → Monitor
apply_failure up now reason r m = resolve_failure up now (note_failure now reason r m)

unfoldable pub take_answer : Option Bool → ℕ → ℕ → Result → Option Text → Monitor → Monitor
take_answer up now delay r none m = apply_success now delay r m
take_answer up now delay r (some reason) m = apply_failure up now reason r m

unfoldable pub is_entry : Option Entry → Bool
is_entry none = false
is_entry (some e) = true

unfoldable pub land : Result → Monitor → Monitor
land r m = record m { entries = at_key (λ e. record e { in_flight = false }) m.entries r.key }

unfoldable pub count_outcome : ℕ → Result → Monitor → Monitor
count_outcome now r m = prune_recent now (record m { recent = m.recent ++ outcome_of now r ∷ [] })

-- `apply`, with whether the context has ended
unfoldable pub apply : (ℕ → Bool) → Bool → Option Bool → ℕ → ℕ → Result → Monitor → Monitor
apply gone cancelled up now delay r m =
    if not (is_entry (find_key m.entries r.key)) || not (is_current gone r m)
    then m
    else if not (r.generation == m.generation)
        || r.started == 0
        || not (same_phase m.state ok)
        || cancelled
    then land r m
    else take_answer up now delay r r.failure (count_outcome now r (land r m))
