-- ===== src/Monitor/Sets.antt =====
-- The endpoint set: `merge`, `reassessRejected`, `rejectKey` and `checkableSet` of
-- server/internal/monitor/monitor.go. An endpoint's outbound is its text.
pub mod Refused
use vpn_director.Prelude.{
  ℕ, ◌+◌, Text, text_eq, Bool, true, false, ◌&&◌, ◌||◌, not, Option, none, some, List, [], ◌∷◌,
  ◌++◌, if◌then◌else◌, ◌==◌, length, all,
}
use vpn_director.Monitor.Entries.{
  unknown, rejected, same_status, EndpointState, same_state, Entry, bump, checkable, reject,
}
use vpn_director.Monitor.State.{Monitor, Entries, SavedEntry, find_key, at_key, invalidate_evidence}

pub record Endpoint : Type 0 where
  pub key : Text
  pub outbound : Text

unfoldable pub is_empty_text : Text → Bool
is_empty_text [] = true
is_empty_text (c ∷ cs) = false

unfoldable pub new_state : ℕ → EndpointState
new_state now = record {
  status = unknown;
  latency_ms = 0;
  checked_at = 0;
  next_at = now;
  since = now;
  fails = 0;
  error = [];
}

unfoldable pub new_entry : EndpointState → ℕ → Bool → Entry
new_entry st pause sticky = record {
  outbound = [];
  st = st;
  pause = pause;
  sticky = sticky;
  in_flight = false;
  pending = false;
  revision = 0;
  rejected_current = false;
  completed = 0;
  completed_session = none;
  completed_generation = 0;
  completed_start = 0;
  follow_up = false;
  after = 0;
  evidence_follow_up = false;
  evidence_after = 0;
  urgent = false;
}

-- `fromRestored`
unfoldable pub from_restored : ℕ → Option SavedEntry → Entry
from_restored now none = new_entry (new_state now) 0 false
from_restored now (some r) = new_entry r.st r.pause r.sticky

-- what the loops of `merge` keep
pub record Merge : Type 0 where
  pub next : Entries
  pub order : List Text
  pub changed : Bool
  pub identity : Bool
  pub status : Bool

unfoldable pub put_key : Entries → Text → Entry → Entries
put_key [] key e = (key, e) ∷ []
put_key ((k, d) ∷ rest) key e =
    let others = put_key rest key e in if text_eq k key then (k, e) ∷ rest else (k, d) ∷ others

-- the entry of a key, which the loops change in place, and whether it was there
unfoldable pub held_entry : ℕ → Monitor → Entries → Text → Entry × Bool
held_entry now m next key = elim (find_key m.entries key) [
  | none ↦ (from_restored now (find_key m.restored key), false)
  | some e ↦ (elim (find_key next key) [ none ↦ (e, true) | some d ↦ (d, true) ])
]

-- a listed endpoint that only the generator refused before
unfoldable pub is_readmitted : Entry → Bool
is_readmitted e = same_status e.st.status rejected && not e.sticky

unfoldable pub listed_entry : ℕ → Endpoint → Entry → Entry
listed_entry now ep e =
    let current = e.rejected_current && text_eq e.outbound ep.outbound in
    if is_readmitted e
    then record e {
      outbound = ep.outbound;
      st = new_state now;
      revision = bump e.revision;
      rejected_current = false;
    }
    else record e { outbound = ep.outbound; rejected_current = current }

unfoldable pub merge_listed : ℕ → Monitor → List Endpoint → Merge → Merge
merge_listed now m [] g = g
merge_listed now m (ep ∷ eps) g =
    let (e, known) = held_entry now m g.next ep.key in
    merge_listed now m eps (record {
      next = put_key g.next ep.key (listed_entry now ep e);
      order = g.order ++ ep.key ∷ [];
      changed = g.changed || is_readmitted e;
      identity = g.identity || not known || not (text_eq e.outbound ep.outbound) || is_readmitted e;
      status = g.status || is_readmitted e;
    })

unfoldable pub refused_entry : ℕ → Text → Entry → Entry
refused_entry now reason e = reject now reason false (record e { outbound = [] })

unfoldable pub refuse_one : ℕ → Monitor → Text → Text → Merge → Merge
refuse_one now m key reason g =
    let (e, known) = held_entry now m g.next key in
    let after = refused_entry now reason e in
    record {
      next = put_key g.next key after;
      order = g.order;
      changed = g.changed || not (same_state e.st after.st);
      identity =
          g.identity || not known || checkable e || e.sticky || not (is_empty_text e.outbound);
      status = g.status || not (same_status e.st.status after.st.status);
    }

unfoldable pub merge_refused : ℕ → Monitor → List (Text × Text) → Merge → Merge
merge_refused now m [] g = g
merge_refused now m ((key, reason) ∷ rest) g =
    merge_refused now m rest (refuse_one now m key reason g)

unfoldable pub has_entry : Entries → Text → Bool
has_entry [] key = false
has_entry ((k, e) ∷ rest) key = text_eq k key || has_entry rest key

unfoldable pub same_keys : Entries → Entries → Bool
same_keys a b = all (λ entry. has_entry b entry.0) a

unfoldable pub merged : ℕ → List Endpoint → List (Text × Text) → Monitor → Merge
merged now eps refused m = merge_refused now m refused (
    merge_listed now m eps (record {
      next = [];
      order = [];
      changed = not (length m.restored == 0);
      identity = false;
      status = false;
    }))

unfoldable pub has_new_identity : Monitor → Merge → Bool
has_new_identity m g =
    g.identity || not (length g.next == length m.entries) || not (same_keys g.next m.entries)

unfoldable pub take_merge : ℕ → Bool → Merge → Monitor → Monitor
take_merge now identity g m = record m {
  entries = g.next;
  order = g.order;
  restored = [];
  dirty = m.dirty || g.changed || identity;
  updated = if g.changed || identity then now else m.updated;
  status_dirty = m.status_dirty || g.status;
}

-- `merge`
unfoldable pub merge : ℕ → List Endpoint → List (Text × Text) → Monitor → Monitor
merge now eps refused m =
    let g = merged now eps refused m in
    let after = take_merge now (has_new_identity m g) g m in
    if has_new_identity m g then invalidate_evidence after else after

unfoldable pub is_unproved : Option Entry → Bool
is_unproved none = false
is_unproved (some e) = same_status e.st.status rejected && not e.rejected_current

unfoldable pub readmit : ℕ → Entry → Entry
readmit now e = record e {
  st = new_state now;
  pause = 0;
  sticky = false;
  revision = bump e.revision;
}

unfoldable pub reassess_each : ℕ → List Text → Entries → Bool → Entries × Bool
reassess_each now [] entries changed = (entries, changed)
reassess_each now (key ∷ keys) entries changed =
    reassess_each now keys
      (if is_unproved (find_key entries key) then at_key (readmit now) entries key else entries)
      (changed || is_unproved (find_key entries key))

-- `reassessRejected`
unfoldable pub reassess_rejected : ℕ → Monitor → Monitor
reassess_rejected now m =
    let (entries, changed) = reassess_each now m.order m.entries false in
    if changed
    then invalidate_evidence
        (record m { entries = entries; dirty = true; status_dirty = true; updated = now })
    else m

unfoldable pub is_checkable : Option Entry → Bool
is_checkable none = false
is_checkable (some e) = checkable e

-- `rejectKey`
unfoldable pub reject_key : ℕ → Text → Text → Monitor → Monitor
reject_key now key reason m =
    let after = record m {
      entries = at_key (reject now reason true) m.entries key;
      dirty = true;
      updated = now;
    } in
    if not (has_entry m.entries key)
    then m
    else if is_checkable (find_key m.entries key)
    then invalidate_evidence (record after { status_dirty = true })
    else after

-- `checkableSet`, by keys
unfoldable pub checkable_set : List Text → Entries → List Text
checkable_set [] entries = []
checkable_set (key ∷ keys) entries =
    let rest = checkable_set keys entries in
    if is_checkable (find_key entries key) then key ∷ rest else rest
