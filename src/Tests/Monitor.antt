-- ===== src/Tests/Monitor.antt =====
-- Tests of the monitor, and its theorems at concrete inputs.
use vpn_director.Prelude.{
  ◌+◌, ℕ, suc, ◌-◌, ◌≤◌, any, text_eq, ◌*◌, ◌^◌, runes, Bool, true, false, none, some, List, [],
  ◌∷◌, ◌≡◌, refl, arith,
}
use vpn_director.Monitor.Settings.{
  MonitorConfig, absent, written, Settings, settings_from, enabled_from,
}
use vpn_director.Monitor.Entries.{unknown, alive, rejected, Entry, same_status, same_state, bump}
use vpn_director.Monitor.Entries.Pauses.{fail_times, capped, pause-fail_times}
use vpn_director.Monitor.State.{Monitor, ok, invalidate_evidence}
use vpn_director.Monitor.Evidence.{
  stale, evidence_locked, validate_evidence, run_evidence, compare_evidence, confirms_each,
  confirms, same_proof,
}
use vpn_director.Monitor.Evidence.Operations.{
  Operation, invalidates, stops, rejects, dispatches, step, run,
}
use vpn_director.Monitor.Dispatch.{count_busy, dispatch}
use vpn_director.Monitor.Dispatch.Limits.{has_key, is_map, dispatch-limit}
use vpn_director.Monitor.Sets.{merge}
use vpn_director.Monitor.Sets.Refused.{is_started, refused-unstarted}
use vpn_director.Monitor.Results.{Result, apply}
use vpn_director.Monitor.Results.Silence.{Silent, apply-Silent}

abbrev section : MonitorConfig
section = record {
  enabled = none;
  interval = written (some 20_000_000_000);
  dead_interval_max = absent;
  concurrency = some 40;
  subscription_refresh = absent;
}

abbrev settings : Settings
settings = (settings_from (some section)).0

abbrev server : Entry
server = record {
  outbound = [];
  st = record {
    status = unknown;
    latency_ms = 0;
    checked_at = 0;
    next_at = 5;
    since = 5;
    fails = 0;
    error = [];
  };
  pause = 0;
  sticky = false;
  in_flight = true;
  pending = false;
  revision = 0;
  rejected_current = false;
  completed = 0;
  completed_session = none;
  completed_generation = 0;
  completed_start = 0;
  follow_up = false;
  after = 0;
  evidence_follow_up = false;
  evidence_after = 0;
  urgent = false;
}

pause-fail_times_example :
    (fail_times (suc 7) 9 (runes "timeout") settings server).pause
    ≡ capped settings.dead_max (settings.interval * 2 ^ suc 7)
pause-fail_times_example = pause-fail_times 7 9 (runes "timeout") (some section) server refl

abbrev monitor : Monitor
monitor = record {
  settings = settings;
  state = ok;
  message = [];
  entries = (runes "a", server) ∷ [];
  order = runes "a" ∷ [];
  restored = [];
  session = some 3;
  sequence = 1;
  starts = 1;
  generation = 2;
  closed = false;
  pending = [];
  recent = [];
  control_ok = 0;
  next_control = 0;
  crash_batches = 0;
  session_since = 1;
  wan_paused = false;
  crashes = [];
  lag = 0;
  lag_warned = false;
  dirty = false;
  status_dirty = false;
  updated = 1;
}

abbrev answer : Result
answer = record {
  sess = some 3;
  key = runes "a";
  latency = 0;
  failure = some (runes "timeout");
  seq = 1;
  at = 40;
  generation = 2;
  started = 1;
}

apply-Silent_example :
    Silent 41 monitor (apply (λ s. false) false (some false) 41 60_000_000_000 answer monitor)
apply-Silent_example =
    apply-Silent (λ s. false) false (some false) 41 60_000_000_000 answer monitor (omega arith)

-- a server whose check has come back in the session
abbrev checked : Entry
checked = record server {
  st = record server.st { status = alive };
  completed = 1;
  completed_session = some 3;
  completed_generation = 2;
  completed_start = 1;
}

abbrev checked_monitor : Monitor
checked_monitor = record monitor { entries = (runes "a", checked) ∷ [] }

abbrev nobody : ℕ → Bool
nobody s = false

-- a server is refused, another check is dispatched, and the session stops
abbrev later_operations : List Operation
later_operations = rejects 50 (runes "a") (runes "refused") ∷ dispatches 51 ∷ stops ∷ []

-- the same of a monitor that had no session, only a refused endpoint
abbrev refused_monitor : Monitor
refused_monitor = record checked_monitor {
  session = none;
  entries =
      (
        runes "a",
        record checked { st = record server.st { status = rejected }; rejected_current = true },
      )
      ∷ [];
}

refused_is_valid :
    validate_evidence nobody (evidence_locked nobody none refused_monitor) [] refused_monitor ≡ none
unfolding run_evidence validate_evidence compare_evidence settings_from enabled_from confirms_each
    confirms same_proof same_status same_state
refused_is_valid = refl

refused_is_over :
    validate_evidence nobody
      (evidence_locked nobody none refused_monitor)
      []
      (run (invalidates ∷ []) refused_monitor)
    ≡ some stale
unfolding run_evidence validate_evidence run step compare_evidence invalidate_evidence settings_from
    enabled_from bump
refused_is_over = refl

-- two servers that are due, and room for one check
abbrev due_monitor : Monitor
due_monitor = record monitor {
  settings = record settings { concurrency = 1 };
  entries =
      (runes "a", record server { in_flight = false })
      ∷ (runes "b", record server { in_flight = false })
      ∷ [];
  order = runes "a" ∷ runes "b" ∷ [];
}

dispatch-limit_example :
    count_busy (dispatch 9 due_monitor).0.entries
    ≤ count_busy due_monitor.entries
      + (due_monitor.settings.concurrency - count_busy due_monitor.entries)
dispatch-limit_example = dispatch-limit 9 due_monitor (unfold is_map has_key text_eq in refl)

refused-unstarted_example :
    is_started
      (runes "b")
      (dispatch 9 (
        merge 8
          (record { key = runes "a"; outbound = [] } ∷ [])
          ((runes "b", runes "no outbound") ∷ [])
          due_monitor)).1
    ≡ false
refused-unstarted_example =
    refused-unstarted 8 9 (record { key = runes "a"; outbound = [] } ∷ [])
      ((runes "b", runes "no outbound") ∷ []) due_monitor (runes "b") (unfold any text_eq in refl)
