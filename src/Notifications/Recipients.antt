-- ===== src/Notifications/Recipients.antt =====
-- `ReplaceRecipients` of server/internal/notifications/recipients.go under the lock. The merged
-- events have distinct ids of one epoch, so sorting by sequence has one result.
use vpn_director.Prelude.{
  ℕ, Bool, false, ◌&&◌, ◌||◌, not, Option, none, some, List, [], ◌∷◌, ◌++◌, if◌then◌else◌, ◌==◌,
  ltb, all, length,
}
use vpn_director.Notifications.Events.{
  StoredEvent, same_events, bounded_events, keep_all, max_per_chat,
}
use vpn_director.Notifications.State.{
  Store, Recipient, Queues, find_chat, put_chat, queue_of, is_live, is_due, is_empty, step_revision,
  prune,
}

-- the map of the recipients, of two of one chat the earlier
unfoldable pub next_recipients : List Recipient → List (ℕ × Recipient) → List (ℕ × Recipient)
next_recipients [] next = next
next_recipients (r ∷ rest) next = next_recipients rest (elim (find_chat next r.chat_id) [
  | none ↦ put_chat next r.chat_id r
  | some previous ↦ if ltb r.first_seen previous.first_seen then put_chat next r.chat_id r else next
])

-- the events of both lists that are due, each once
unfoldable pub merge_events :
    (StoredEvent → Bool) → List StoredEvent → List StoredEvent → List StoredEvent
merge_events due [] merged = merged
merge_events due (event ∷ events) merged =
    merge_events due events
      (if is_live merged event.event_id || not (due event) then merged else merged ++ event ∷ [])

unfoldable pub insert_event : StoredEvent → List StoredEvent → List StoredEvent
insert_event event [] = event ∷ []
insert_event event (e ∷ es) =
    let rest = insert_event event es in
    if ltb e.event_id.sequence event.event_id.sequence then e ∷ rest else event ∷ e ∷ es

unfoldable pub sort_events : List StoredEvent → List StoredEvent
sort_events [] = []
sort_events (e ∷ es) = insert_event e (sort_events es)

-- the queue of one recipient of the new list
unfoldable pub merged_queue : ℕ → Store → ℕ → Recipient → List StoredEvent
merged_queue at s chat r =
    bounded_events at max_per_chat keep_all
      (sort_events (merge_events (is_due s.closed r chat) (queue_of s.pending chat ++ s.recent) []))

unfoldable pub merged_pending : ℕ → Store → List (ℕ × Recipient) → Queues
merged_pending at s [] = []
merged_pending at s ((chat, r) ∷ rest) =
    let others = merged_pending at s rest in
    if is_empty (merged_queue at s chat r)
    then others
    else (chat, merged_queue at s chat r) ∷ others

unfoldable pub same_recipient : Recipient → Option Recipient → Bool
same_recipient r none = false
same_recipient r (some other) = r.chat_id == other.chat_id && r.first_seen == other.first_seen

unfoldable pub same_recipients : List (ℕ × Recipient) → List (ℕ × Recipient) → Bool
same_recipients a b =
    length a == length b && all (λ entry. same_recipient entry.1 (find_chat b entry.0)) a

unfoldable pub same_queue : List StoredEvent → Option (List StoredEvent) → Bool
same_queue events none = false
same_queue events (some other) = same_events events other

unfoldable pub same_pending : Queues → Queues → Bool
same_pending a b = length a == length b && all (λ entry. same_queue entry.1 (find_chat b entry.0)) a

-- `ReplaceRecipients` under the lock
unfoldable pub replace_recipients : ℕ → List Recipient → Store → Store
replace_recipients at recipients s =
    let next = next_recipients recipients [] in
    let p = prune at s in
    let pending = merged_pending at p next in
    record p {
      recipients = next;
      pending = pending;
      revision =
          step_revision
            (not (same_recipients p.recipients next) || not (same_pending p.pending pending))
            p.revision;
    }
