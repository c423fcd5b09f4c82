-- ===== src/Monitor/Dispatch.antt =====
-- Which checks start: `queue` and `dispatch` of server/internal/monitor/monitor.go.
pub mod Limits
use vpn_director.Prelude.{
  ℕ, zero, suc, ◌+◌, ◌-◌, Text, text_eq, Bool, true, false, ◌&&◌, ◌||◌, not, Option, none, some,
  List, [], ◌∷◌, ◌++◌, if◌then◌else◌, ◌==◌, ltb, leb, length, take, drop,
}
use vpn_director.Monitor.Entries.{Entry, bump, checkable}
use vpn_director.Monitor.State.{
  Monitor, Entries, Phase, stopped, disabled, same_phase, find_key, at_key, each, smaller,
}

-- the mark that `queue` leaves, with the number of completed checks
unfoldable pub mark : Bool → ℕ → Entry → Entry
mark fresh sequence e =
    if not (checkable e)
    then e
    else if fresh
    then record e { follow_up = true; after = sequence }
    else if not e.in_flight
    then record e { urgent = true }
    else e

unfoldable pub count_key : Option Entry → ℕ
count_key none = 0
count_key (some e) = if checkable e then 1 else 0

unfoldable pub mark_keys : Bool → ℕ → List Text → Entries → ℕ → Entries × ℕ
mark_keys fresh sequence [] entries n = (entries, n)
mark_keys fresh sequence (key ∷ keys) entries n =
    mark_keys fresh sequence keys (at_key (mark fresh sequence) entries key)
      (n + count_key (find_key entries key))

unfoldable pub count_entries : Entries → ℕ
count_entries [] = 0
count_entries ((key, e) ∷ rest) = count_key (some e) + count_entries rest

-- `queue`: how many it queued, or none where the monitor is not active
unfoldable pub queue : List Text → Bool → Monitor → Monitor × Option ℕ
queue keys fresh m =
    let (marked, n) = mark_keys fresh m.sequence keys m.entries 0 in
    if same_phase m.state stopped || same_phase m.state disabled then (m, none) else (elim keys [
      | [] ↦ (
        record m { entries = each (mark fresh m.sequence) m.entries },
        some (count_entries m.entries),
      )
      | key ∷ rest ↦ (record m { entries = marked }, some n)
    ])

unfoldable pub is_urgent : Entry → Bool
is_urgent e = e.urgent || e.follow_up || e.evidence_follow_up

unfoldable pub is_due : ℕ → Entry → Bool
is_due now e =
    not e.in_flight && checkable e && not e.pending && (is_urgent e || not (ltb now e.st.next_at))

unfoldable pub count_busy : Entries → ℕ
count_busy [] = 0
count_busy ((key, e) ∷ rest) =
    let others = count_busy rest in if e.in_flight then others + 1 else others

unfoldable pub due_entries : ℕ → Entries → Entries
due_entries now [] = []
due_entries now ((key, e) ∷ rest) =
    let others = due_entries now rest in if is_due now e then (key, e) ∷ others else others

-- the place of a key in the order; one that is not there has Go's zero
unfoldable pub place : List Text → ℕ → Text → ℕ
place [] i key = 0
place (k ∷ ks) i key = let later = place ks (i + 1) key in if text_eq k key then i else later

unfoldable pub comes_first : List Text → Text × Entry → Text × Entry → Bool
comes_first order (i, a) (j, b) =
    if is_urgent a && not (is_urgent b)
    then true
    else if is_urgent b && not (is_urgent a)
    then false
    else if not (a.st.next_at == b.st.next_at)
    then ltb a.st.next_at b.st.next_at
    else ltb (place order 0 i) (place order 0 j)

unfoldable pub insert_due : List Text → Text × Entry → Entries → Entries
insert_due order x [] = x ∷ []
insert_due order x (y ∷ ys) =
    let rest = insert_due order x ys in if comes_first order y x then y ∷ rest else x ∷ y ∷ ys

unfoldable pub sort_due : List Text → Entries → Entries
sort_due order [] = []
sort_due order (x ∷ xs) = insert_due order x (sort_due order xs)

-- a check handed to a worker, with its number
pub record Started : Type 0 where
  pub key : Text
  pub session : Option ℕ
  pub generation : ℕ
  pub started : ℕ

unfoldable pub start : Entry → Entry
start e = record e { in_flight = true; urgent = false }

unfoldable pub start_each : Entries → Monitor → List Started → Monitor × List Started
start_each [] m started = (m, started)
start_each ((key, e) ∷ rest) m started =
    start_each rest (record m { entries = at_key start m.entries key; starts = bump m.starts })
      (started
        ++ record {
          key = key;
          session = m.session;
          generation = m.generation;
          started = bump m.starts;
        }
          ∷ [])

-- how long the first check that waits has been due
unfoldable pub waiting_lag : ℕ → Entries → ℕ
waiting_lag now [] = 0
waiting_lag now ((key, e) ∷ rest) = if is_urgent e then 0 else now - e.st.next_at

unfoldable pub note_lag : ℕ → Monitor → Monitor
note_lag lag m =
    if ltb m.settings.interval lag
    then record m { lag = lag; lag_warned = true }
    else record m { lag = lag; lag_warned = false }

-- `dispatch`, with the checks that it starts
unfoldable pub dispatch : ℕ → Monitor → Monitor × List Started
dispatch now m =
    let due = sort_due m.order (due_entries now m.entries) in
    let n = smaller (m.settings.concurrency - count_busy m.entries) (length due) in
    let (after, started) = start_each (take n due) m [] in
    (note_lag (waiting_lag now (drop n due)) after, started)
