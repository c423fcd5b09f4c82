-- ===== src/Notifications/Saves.antt =====
-- What the store saves and what it reads back: server/internal/notifications/persist.go. A write of
-- the file either leaves the old state in it or puts the new one there.
use vpn_director.Prelude.{
  ℕ, ◌+◌, ◌-◌, Text, Bool, true, false, ◌&&◌, ◌||◌, not, Option, none, some, List, [], ◌∷◌,
  if◌then◌else◌, ◌==◌, ltb, leb, text_eq, any, all,
}
use vpn_director.Notifications.Events.{StoredEvent, valid_epoch, valid_id, max_uint64}
use vpn_director.Notifications.State.{
  Store, StoreError, corrupt, backup_failed, Recipient, Queues, Progress, find_chat, is_closed,
  find_event, prune,
}

abbrev pub sequence_reserve : ℕ
sequence_reserve = 4_294_967_296

pub record SavedState : Type 0 where
  pub version : ℕ
  pub epoch : Text
  pub sequence : ℕ
  pub reserved_through : ℕ
  pub recent : List StoredEvent
  pub recipients : List (ℕ × Recipient)
  pub pending : Queues
  pub closed : List (ℕ × Progress)
  pub health : List (Text × Option Bool)

unfoldable pub max : ℕ → ℕ → ℕ
max a b = if ltb a b then b else a

unfoldable pub next_reserve : ℕ → ℕ → ℕ
next_reserve reserved sequence =
    if leb sequence (max_uint64 - sequence_reserve)
    then max reserved (sequence + sequence_reserve)
    else max_uint64

-- `snapshotLocked`
unfoldable pub snapshot : Store → SavedState
snapshot s = record {
  version = 1;
  epoch = s.epoch;
  sequence = s.sequence;
  reserved_through = next_reserve s.reserved_through s.sequence;
  recent = s.recent;
  recipients = s.recipients;
  pending = s.pending;
  closed = s.closed;
  health = s.health;
}

-- what the first half of `saveLocked` comes to, with the store pruned
pub data SaveStart : Type 0 where
  exhausted : SaveStart
  clean : SaveStart
  write : SavedState → ℕ → SaveStart

unfoldable pub reserve_needed : ℕ → Store → Bool
reserve_needed reserve s =
    (leb s.reserved_through s.sequence && not (s.sequence == max_uint64))
    || (ltb 0 reserve
        && (leb s.reserved_through s.sequence || ltb (s.reserved_through - s.sequence) reserve))

unfoldable pub state_to_save : ℕ → Store → SavedState
state_to_save reserve s = record (snapshot s) {
  reserved_through = max (snapshot s).reserved_through (s.sequence + reserve);
}

unfoldable pub start_of : ℕ → Store → SaveStart
start_of reserve p =
    if ltb (max_uint64 - p.sequence) reserve
    then exhausted
    else if p.revision == p.saved_revision && not (reserve_needed reserve p) && not p.needs_backup
    then clean
    else write (state_to_save reserve p) p.revision

unfoldable pub begin_save : ℕ → ℕ → Store → Store × SaveStart
begin_save at reserve s = (prune at s, start_of reserve (prune at s))

-- the second half, after the write of a state at a revision; past the backup the kept file is safe
unfoldable pub finish_save : Option StoreError → SavedState → ℕ → Store → Store
finish_save (some failure) state revision s = record s {
  storage_error = some failure;
  needs_backup = elim failure [ backup_failed ↦ s.needs_backup | other ↦ false ];
}
finish_save none state revision s = record s {
  saved_revision = revision;
  reserved_through = max s.reserved_through state.reserved_through;
  storage_error = none;
  needs_backup = false;
}

-- the events met so far with their time and text, `known`
unfoldable pub fits : StoredEvent → Option StoredEvent → Bool
fits event none = true
fits event (some original) = original.at == event.at && text_eq original.text event.text

-- `validEvents`: what is known after the events, or `none` if one is invalid
unfoldable pub check_events :
    Text → ℕ → List StoredEvent → ℕ → List StoredEvent → Option (List StoredEvent)
check_events epoch sequence known previous [] = some known
check_events epoch sequence known previous (event ∷ events) =
    let rest = check_events epoch sequence (event ∷ known) event.event_id.sequence events in
    if not (valid_id event.event_id)
      || not (text_eq event.event_id.epoch epoch)
      || ltb sequence event.event_id.sequence
      || leb event.event_id.sequence previous
      || not (fits event (find_event known event.event_id))
    then none
    else rest

unfoldable pub check_queues : SavedState → List StoredEvent → Queues → Option (List StoredEvent)
check_queues state known [] = some known
check_queues state known ((chat, queue) ∷ rest) = elim (find_chat state.recipients chat) [
  | none ↦ none
  | some r ↦ elim (check_events state.epoch state.sequence known 0 queue) [
    | none ↦ none
    | some more ↦
        if any (λ event. is_closed state.closed chat event.event_id) queue
        then none
        else check_queues state more rest
  ]
]

unfoldable pub valid_progress : SavedState → List StoredEvent → Progress → Bool
valid_progress state known = all (λ entry.
    valid_id entry.0
    && text_eq entry.0.epoch state.epoch
    && leb entry.0.sequence state.sequence
    && (elim (find_event known entry.0) [ none ↦ true | some event ↦ event.at == entry.1 ]))

unfoldable pub valid_header : SavedState → Bool
valid_header state =
    state.version == 1 && valid_epoch state.epoch && leb state.sequence state.reserved_through

unfoldable pub valid_rest : SavedState → List StoredEvent → Bool
valid_rest state known =
    all (λ entry. entry.1.chat_id == entry.0) state.recipients
    && (elim (check_queues state known state.pending) [
      | none ↦ false
      | some all_known ↦ all (λ entry. valid_progress state all_known entry.1) state.closed
    ])

-- `validSavedState`
unfoldable pub valid_saved_state : SavedState → Bool
valid_saved_state state =
    valid_header state && (elim (check_events state.epoch state.sequence [] 0 state.recent) [
      | none ↦ false
      | some known ↦ valid_rest state known
    ])

-- `newStore`, with the epoch that `ensureEpoch` draws
unfoldable pub new_store : Text → Store
new_store epoch = record {
  epoch = epoch;
  sequence = 0;
  reserved_through = sequence_reserve;
  revision = 2;
  saved_revision = 0;
  recent = [];
  recipients = [];
  pending = [];
  closed = [];
  health = [];
  storage_error = none;
  opened = true;
  backlog = [];
  needs_backup = false;
}

-- the store that `restore` makes of a valid file
unfoldable pub restored_store : SavedState → Store
restored_store state = record {
  epoch = state.epoch;
  sequence = state.reserved_through;
  reserved_through = state.reserved_through;
  revision = if state.sequence == state.reserved_through then 1 else 2;
  saved_revision = 1;
  recent = state.recent;
  recipients = state.recipients;
  pending = state.pending;
  closed = state.closed;
  health = state.health;
  storage_error = none;
  opened = true;
  backlog = [];
  needs_backup = false;
}

-- `load` without the prune, of a file with the mode it was written with: a missing file gives a new store, an invalid one a new store that keeps it
unfoldable pub load_store : Text → Option SavedState → Store
load_store epoch none = new_store epoch
load_store epoch (some state) =
    if valid_saved_state state
    then restored_store state
    else record (new_store epoch) { storage_error = some corrupt; needs_backup = true }
