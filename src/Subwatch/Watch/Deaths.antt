-- ===== src/Subwatch/Watch/Deaths.antt =====
-- When a failing outbound counts as dead, in server/internal/subwatch/watch.go: `missed`,
-- `deadReason`, `resetFail`, `settled` and `resetFallbackState`, `checkReach` of reach.go, and
-- `returnAfterDeath`, `noteSelection` and `backOffReturn` of return.go. Times are in seconds.
pub mod Confirmed
use vpn_director.Prelude.{
  ℕ, ◌+◌, ◌-◌, ◌*◌, Bool, true, false, ◌&&◌, ◌||◌, not, Option, none, some, List, [], ◌∷◌, ◌≡◌,
  refl, if◌then◌else◌, ◌==◌, ltb, leb, min,
}
use vpn_director.VpnConfig.Config.{Config}
use vpn_director.VpnConfig.Servers.{active_seq}
use vpn_director.Subwatch.Watch.{WatchState}

abbrev pub dead_after : ℕ
dead_after = 180

abbrev pub fast_dead_after : ℕ
fast_dead_after = 60

abbrev pub import_retry_wait : ℕ
import_retry_wait = 300

abbrev pub import_retry_max : ℕ
import_retry_max = 1800

abbrev pub return_check : ℕ
return_check = 300

abbrev pub return_retry_wait : ℕ
return_retry_wait = 600

abbrev pub return_retry_max : ℕ
return_retry_max = 1800

abbrev pub return_hold : ℕ
return_hold = 1800

unfoldable pub reset_fail : WatchState → WatchState
reset_fail s = record s { fail_since = none; failed_probes = 0; down_checks = some 0 }

unfoldable pub missed : Config → ℕ → WatchState → WatchState
missed cfg now s =
    let seq = active_seq cfg.xray.active_server in
    let t : WatchState = elim s.fail_since [
      | none ↦ s
      | some since ↦ if not (seq == s.fail_seq) && not (seq == s.own_seq) then reset_fail s else s
    ] in
    let u : WatchState = elim t.fail_since [
      | none ↦ record t { fail_since = some now; fail_seq = seq }
      | some since ↦ t
    ] in
    record u { failed_probes = u.failed_probes + 1 }

pub data DeadReason : Type 0 where
  alive : DeadReason
  unreachable : DeadReason
  by_probe : DeadReason

unfoldable pub dead_by : ℕ → Option ℕ → DeadReason
dead_by failing checks =
    if leb fast_dead_after failing && elim checks [ none ↦ false | some n ↦ leb 2 n ]
    then unreachable
    else if leb dead_after failing
    then by_probe
    else alive

-- the zero time is long ago
unfoldable pub dead_reason : ℕ → WatchState → DeadReason
dead_reason now s = elim s.fail_since [
  | none ↦ dead_by dead_after s.down_checks
  | some since ↦ dead_by (now - since) s.down_checks
]

-- `hold.After(t)` and `t = hold`, where t may be zero
unfoldable pub not_before : ℕ → Option ℕ → Option ℕ
not_before hold none = some hold
not_before hold (some t) = if ltb t hold then some hold else some t

unfoldable pub settled : ℕ → WatchState → WatchState
settled now s =
    let t = reset_fail s in
    record t {
      last_import = none;
      import_retry = 0;
      return_not_before = not_before (now + return_check) t.return_not_before;
    }

unfoldable pub reset_fallback_state : WatchState → WatchState
reset_fallback_state s = record s {
  last_fallback_fail = none;
  fallback_tried = [];
  fallback_hold = 0;
  fallback_hold_until = none;
  last_fallback_check = none;
  fallback_down_since = none;
}

unfoldable pub back_off_return : ℕ → WatchState → WatchState
back_off_return now s =
    let wait =
      if s.return_retry == 0
      then return_retry_wait
      else min (2 * s.return_retry) return_retry_max in
    record s {
      return_fails = s.return_fails + 1;
      return_retry = wait;
      return_not_before = some (now + wait);
    }

unfoldable pub return_held : ℕ → WatchState → WatchState
return_held now s = record s { return_retry = 0; return_fails = 0; return_not_before = none }

-- `returnAfterDeath` at the time `now`
unfoldable pub return_after_death : ℕ → WatchState → WatchState
return_after_death now s =
    let t : WatchState = elim s.last_return [
      | none ↦ s
      | some last ↦ if not (s.fail_seq == s.return_seq) then s else elim s.fail_since [
        | none ↦ back_off_return now s
        | some since ↦
            if ltb (since - last) return_hold then back_off_return now s else return_held now s
      ]
    ] in
    record t { last_return = none }

unfoldable pub note_selection : Config → WatchState → WatchState
note_selection cfg s =
    let seq = active_seq cfg.xray.active_server in
    if seq == s.own_seq || seq == s.selected_seq then s else record s {
      selected_seq = seq;
      return_fails = 0;
      return_retry = 0;
      return_not_before = none;
      last_return = none;
    }

-- `checkReach`, after a look that found the server down or did not
unfoldable pub check_reach : Bool → WatchState → WatchState
check_reach down s = elim s.down_checks [
  | none ↦ s
  | some n ↦ record s { down_checks = if down then some (n + 1) else none }
]

-- what a probe of a tick tells of a failure: it passes, or it misses and neither a follow nor the
-- fast check acts on the miss, and the look at the server finds it down or not
pub data Sight : Type 0 where
  passes : ℕ → Sight
  misses : ℕ → Config → Bool → Sight

-- whether the failure is not old enough to be a death whatever a look finds
unfoldable pub is_young : ℕ → Option ℕ → Bool
is_young now none = false
is_young now (some since) = ltb (now - since) dead_after

unfoldable pub look : ℕ → Bool → WatchState → WatchState
look now down s = if is_young now s.fail_since then check_reach down s else s

unfoldable pub see : Sight → WatchState → WatchState
see (passes now) s = reset_fail s
see (misses now cfg down) s = look now down (missed cfg now s)

unfoldable pub see_all : List Sight → WatchState → WatchState
see_all [] s = s
see_all (sight ∷ sights) s = see_all sights (see sight s)
