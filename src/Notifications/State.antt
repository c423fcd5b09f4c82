-- ===== src/Notifications/State.antt =====
-- The store of server/internal/notifications/store.go and what its operations do to it while they
-- hold its lock. A map is an association list; a chat id is a number. The health record of a
-- subscription is what its JSON decodes to, `none` where it does not.
use vpn_director.Prelude.{
  ℕ, ◌+◌, Text, Bool, true, false, ◌&&◌, ◌||◌, not, Option, none, some, List, [], ◌∷◌, ◌++◌,
  if◌then◌else◌, ◌==◌, ltb, any, keep_if, length,
}
use vpn_director.Notifications.Events.{
  EventId, id_eq, StoredEvent, same_events, bounded_events, keep_all, max_recent, max_per_chat,
}

pub record Recipient : Type 0 where
  pub chat_id : ℕ
  pub first_seen : ℕ

-- an event without an id, in the backlog
pub record WaitingEvent : Type 0 where
  pub at : ℕ
  pub text : Text

pub data StoreError : Type 0 where
  read_failed corrupt backup_failed write_failed : StoreError
  identity_failed sequence_exhausted : StoreError
  bad_cursor bad_event_id : StoreError
  unavailable reserve_unsaved deferred : StoreError

abbrev pub Queues : Type 0
Queues = List (ℕ × List StoredEvent)

abbrev pub Progress : Type 0
Progress = List (EventId × ℕ)

pub record Store : Type 0 where
  pub epoch : Text
  pub sequence : ℕ
  pub reserved_through : ℕ
  pub revision : ℕ
  pub saved_revision : ℕ
  pub recent : List StoredEvent
  pub recipients : List (ℕ × Recipient)
  pub pending : Queues
  pub closed : List (ℕ × Progress)
  pub health : List (Text × Option Bool)
  pub storage_error : Option StoreError
  pub opened : Bool
  pub backlog : List WaitingEvent
  pub needs_backup : Bool

module _ {ℓ} {A : Type ℓ} where
  unfoldable pub find_chat : List (ℕ × A) → ℕ → Option A
  find_chat [] chat = none
  find_chat ((c, a) ∷ rest) chat =
      let found = find_chat rest chat in if c == chat then some a else found

  unfoldable pub drop_chat : List (ℕ × A) → ℕ → List (ℕ × A)
  drop_chat [] chat = []
  drop_chat ((c, a) ∷ rest) chat =
      let others = drop_chat rest chat in if c == chat then others else (c, a) ∷ others

  -- one entry for the chat, in place of those it had
  unfoldable pub put_chat : List (ℕ × A) → ℕ → A → List (ℕ × A)
  put_chat entries chat a = (chat, a) ∷ drop_chat entries chat

  unfoldable pub is_empty : List A → Bool
  is_empty [] = true
  is_empty (x ∷ xs) = false

unfoldable pub queue_of : Queues → ℕ → List StoredEvent
queue_of pending chat = elim (find_chat pending chat) [ none ↦ [] | some queue ↦ queue ]

unfoldable pub is_live : List StoredEvent → EventId → Bool
is_live recent id = any (λ event. id_eq event.event_id id) recent

unfoldable pub progress_of : List (ℕ × Progress) → ℕ → Progress
progress_of closed chat = elim (find_chat closed chat) [ none ↦ [] | some progress ↦ progress ]

unfoldable pub is_closed : List (ℕ × Progress) → ℕ → EventId → Bool
is_closed closed chat id = any (λ entry. id_eq entry.0 id) (progress_of closed chat)

-- the progress of live events, and the chats that have any
unfoldable pub live_progress : List StoredEvent → Progress → Progress
live_progress recent = keep_if (λ entry. is_live recent entry.0)

unfoldable pub prune_closed : List StoredEvent → List (ℕ × Progress) → List (ℕ × Progress)
prune_closed recent [] = []
prune_closed recent ((chat, progress) ∷ rest) =
    let others = prune_closed recent rest in
    if is_empty (live_progress recent progress)
    then others
    else (chat, live_progress recent progress) ∷ others

unfoldable pub closed_changed : List StoredEvent → List (ℕ × Progress) → Bool
closed_changed recent = any (λ entry.
    is_empty (live_progress recent entry.1)
    || not (length (live_progress recent entry.1) == length entry.1))

-- the events still due to a recipient
unfoldable pub is_due : List (ℕ × Progress) → Recipient → ℕ → StoredEvent → Bool
is_due closed recipient chat event =
    not (is_closed closed chat event.event_id) && not (ltb event.at recipient.first_seen)

unfoldable pub due_queue :
    ℕ → List (ℕ × Recipient) → List (ℕ × Progress) → ℕ → List StoredEvent → List StoredEvent
due_queue at recipients closed chat queue = elim (find_chat recipients chat) [
  | none ↦ []
  | some recipient ↦ bounded_events at max_per_chat (is_due closed recipient chat) queue
]

unfoldable pub prune_pending : ℕ → List (ℕ × Recipient) → List (ℕ × Progress) → Queues → Queues
prune_pending at recipients closed [] = []
prune_pending at recipients closed ((chat, queue) ∷ rest) =
    let others = prune_pending at recipients closed rest in
    if is_empty (due_queue at recipients closed chat queue)
    then others
    else (chat, due_queue at recipients closed chat queue) ∷ others

unfoldable pub pending_changed : ℕ → List (ℕ × Recipient) → List (ℕ × Progress) → Queues → Bool
pending_changed at recipients closed = any (λ entry.
    is_empty (due_queue at recipients closed entry.0 entry.1)
    || not (same_events entry.1 (due_queue at recipients closed entry.0 entry.1)))

unfoldable pub step_revision : Bool → ℕ → ℕ
step_revision changed revision = if changed then revision + 1 else revision

-- `pruneLocked`
unfoldable pub prune : ℕ → Store → Store
prune at s =
    let recent = bounded_events at max_recent keep_all s.recent in
    let closed = prune_closed recent s.closed in
    record s {
      recent = recent;
      closed = closed;
      pending = prune_pending at s.recipients closed s.pending;
      revision =
          step_revision
            (not (same_events s.recent recent)
              || closed_changed recent s.closed
              || pending_changed at s.recipients closed s.pending)
            s.revision;
    }

-- the loop over the recipients of a new event
unfoldable pub append_pending : StoredEvent → List (ℕ × Recipient) → Queues → Queues
append_pending event [] pending = pending
append_pending event ((chat, recipient) ∷ rest) pending = append_pending event rest (
    if ltb event.at recipient.first_seen
    then pending
    else put_chat pending chat (queue_of pending chat ++ event ∷ []))

unfoldable pub next_event : Store → Text → ℕ → StoredEvent
next_event s text at = record {
  event_id = record { epoch = s.epoch; sequence = s.sequence + 1 };
  at = at;
  text = text;
}

-- `appendEventLocked`
unfoldable pub append_event : Text → ℕ → Store → Store × EventId
append_event text at s =
    let event = next_event s text at in
    (
      prune at (record s {
        sequence = s.sequence + 1;
        recent = s.recent ++ event ∷ [];
        pending = append_pending event s.recipients s.pending;
        revision = s.revision + 1;
      }),
      event.event_id,
    )

-- `deferLocked`
unfoldable pub push_waiting : List WaitingEvent → WaitingEvent → List WaitingEvent
push_waiting [] event = event ∷ []
push_waiting (first ∷ rest) event =
    if length (first ∷ rest) == max_recent then rest ++ event ∷ [] else (first ∷ rest) ++ event ∷ []

unfoldable pub defer : Text → ℕ → Store → Store
defer text at s = record s { backlog = push_waiting s.backlog (record { at = at; text = text }) }

-- the event that an acknowledgement closes, in the recent ones
unfoldable pub find_event : List StoredEvent → EventId → Option StoredEvent
find_event [] id = none
find_event (event ∷ rest) id =
    let found = find_event rest id in if id_eq event.event_id id then some event else found

-- a queue without an event
abbrev pub unacked : EventId → List StoredEvent → List StoredEvent
unacked id = keep_if (λ event. not (id_eq event.event_id id))

unfoldable pub ack_pending : Queues → ℕ → EventId → Queues
ack_pending pending chat id =
    let kept = unacked id (queue_of pending chat) in
    if not (is_live (queue_of pending chat) id)
    then pending
    else if is_empty kept
    then drop_chat pending chat
    else put_chat pending chat kept

unfoldable pub close_event :
    Option StoredEvent → List (ℕ × Progress) → ℕ → EventId → List (ℕ × Progress)
close_event none closed chat id = closed
close_event (some event) closed chat id =
    if is_closed closed chat id
    then closed
    else put_chat closed chat (progress_of closed chat ++ (id, event.at) ∷ [])

unfoldable pub ack_closed :
    List StoredEvent → List (ℕ × Progress) → ℕ → EventId → List (ℕ × Progress)
ack_closed recent closed chat id = close_event (find_event recent id) closed chat id

unfoldable pub is_some_event : Option StoredEvent → Bool
is_some_event none = false
is_some_event (some event) = true

-- `Ack` under the lock, once the id has been checked
unfoldable pub ack_event : ℕ → ℕ → EventId → Store → Store
ack_event at chat id s =
    let p = prune at s in
    record p {
      pending = ack_pending p.pending chat id;
      closed = ack_closed p.recent p.closed chat id;
      revision =
          step_revision
            (is_live (queue_of p.pending chat) id
              || (is_some_event (find_event p.recent id) && not (is_closed p.closed chat id)))
            p.revision;
    }
