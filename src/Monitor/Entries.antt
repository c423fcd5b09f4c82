-- ===== src/Monitor/Entries.antt =====
-- The record of one endpoint and what a check does to it: server/internal/monitor/entry.go and
-- server/internal/watchdapi/types.go. A time is a number of nanoseconds, and 0 is Go's zero time.
pub mod Pauses
use vpn_director.Prelude.{
  ℕ, ◌+◌, ◌*◌, ◌/◌, ◌%◌, ◌^◌, Text, [], text_eq, Bool, true, false, ◌&&◌, ◌||◌, not, Option, none,
  some, if◌then◌else◌, ◌==◌, ltb, leb,
}
use vpn_director.Monitor.Settings.{Settings, max_duration}

pub data Status : Type 0 where
  unknown alive dead rejected : Status

unfoldable pub same_status : Status → Status → Bool
same_status unknown unknown = true
same_status alive alive = true
same_status dead dead = true
same_status rejected rejected = true
same_status a b = false

pub record EndpointState : Type 0 where
  pub status : Status
  pub latency_ms : ℕ
  pub checked_at : ℕ
  pub next_at : ℕ
  pub since : ℕ
  pub fails : ℕ
  pub error : Text

unfoldable pub same_state : EndpointState → EndpointState → Bool
same_state a b =
    same_status a.status b.status
    && a.latency_ms == b.latency_ms
    && a.checked_at == b.checked_at
    && a.next_at == b.next_at
    && a.since == b.since
    && a.fails == b.fails
    && text_eq a.error b.error

pub record Entry : Type 0 where
  pub outbound : Text
  pub st : EndpointState
  pub pause : ℕ
  pub sticky : Bool
  pub in_flight : Bool
  pub pending : Bool
  pub revision : ℕ
  pub rejected_current : Bool
  pub completed : ℕ
  pub completed_session : Option ℕ
  pub completed_generation : ℕ
  pub completed_start : ℕ
  pub follow_up : Bool
  pub after : ℕ
  pub evidence_follow_up : Bool
  pub evidence_after : ℕ
  pub urgent : Bool

-- a counter of 64 bits
unfoldable pub bump : ℕ → ℕ
bump n = (n + 1) % 2 ^ 64

unfoldable pub checkable : Entry → Bool
checkable e = not (same_status e.st.status rejected)

-- when the status is another from now on, the time of its change
unfoldable pub since_of : ℕ → EndpointState → Status → ℕ
since_of now st status = if same_status st.status status then st.since else now

-- `succeed`; `delay` is the jittered interval, a product of floating-point numbers
unfoldable pub succeed : ℕ → ℕ → ℕ → Entry → Entry
succeed now latency delay e = record e {
  revision = bump e.revision;
  pause = 0;
  st = record {
    status = alive;
    latency_ms = latency / 1_000_000;
    checked_at = now;
    next_at = now + (if ltb delay max_duration then delay else max_duration);
    since = since_of now e.st alive;
    fails = 0;
    error = [];
  };
}

-- the wait after one more failure
unfoldable pub next_pause : Settings → ℕ → ℕ
next_pause s pause =
    let base = if pause == 0 then s.interval else pause in
    if ltb (s.dead_max / 2) base then s.dead_max else base * 2

unfoldable pub fail : ℕ → Text → Settings → Entry → Entry
fail now reason s e = record e {
  revision = bump e.revision;
  pause = next_pause s e.pause;
  st = record e.st {
    status = dead;
    checked_at = now;
    next_at = now + next_pause s e.pause;
    since = since_of now e.st dead;
    fails = e.st.fails + 1;
    error = reason;
  };
}

unfoldable pub rejected_state : ℕ → Text → EndpointState → EndpointState
rejected_state now reason st = record st {
  status = rejected;
  next_at = 0;
  since = since_of now st rejected;
  error = reason;
}

unfoldable pub same_bool : Bool → Bool → Bool
same_bool true b = b
same_bool false b = not b

unfoldable pub reject : ℕ → Text → Bool → Entry → Entry
reject now reason sticky e = record e {
  st = rejected_state now reason e.st;
  pause = 0;
  sticky = sticky;
  in_flight = false;
  pending = false;
  urgent = false;
  follow_up = false;
  evidence_follow_up = false;
  revision =
      if not (same_state e.st (rejected_state now reason e.st))
        || not (same_bool e.sticky sticky)
        || not e.rejected_current
      then bump e.revision
      else e.revision;
  rejected_current = true;
}
