-- ===== src/Notifications/History/Sizes.antt =====
-- How long the lists of the store may grow: the limits of `boundedEvents` and `deferLocked` in
-- server/internal/notifications/store.go over a history.
use vpn_director.Prelude.{
  ℕ, ◌≤◌, Text, Bool, true, Option, none, some, List, [], ◌∷◌, ◌++◌, ◌≡◌, refl, arith, all, keep_if,
  length, length-append, leb, not,
}
use vpn_director.Notifications.Events.{
  StoredEvent, EventId, id_eq, bounded_events, max_recent, max_per_chat, keep_all,
}
use vpn_director.Notifications.Events.Bounded.{length-bounded_events}
use vpn_director.Notifications.State.{
  Store, StoreError, Recipient, Queues, Progress, WaitingEvent, find_chat, put_chat, drop_chat,
  queue_of, is_due, due_queue, prune_pending, prune, append_event, push_waiting, defer, ack_pending,
  ack_event,
}
use vpn_director.Notifications.Recipients.{
  merged_queue, merged_pending, next_recipients, sort_events, merge_events, replace_recipients,
}
use vpn_director.Notifications.Saves.{
  SavedState, begin_save, finish_save, load_store, new_store, restored_store,
}
use vpn_director.Notifications.History.{
  System, Step, publish, wait, ack, replace, begin, written, unwritten, restart, Reach, here, next,
  first_start,
}

-- every queue within its limit
unfoldable pub are_short : Queues → Bool
are_short = all (λ entry. leb (length entry.1) max_per_chat)

pub record IsShort (s : Store) : Type 0 where
  pub few_recent : length s.recent ≤ max_recent
  pub short_queues : are_short s.pending ≡ true
  pub few_waiting : length s.backlog ≤ max_recent

due_queue_short :
    (at : ℕ) (recipients : List (ℕ × Recipient)) (closed : List (ℕ × Progress)) (chat : ℕ)
    (queue : List StoredEvent)
    → length (due_queue at recipients closed chat queue) ≤ max_per_chat
unfolding due_queue
due_queue_short at recipients closed chat queue =
    elim (find_chat recipients chat)
      as (λ r.
        length (elim r [
          | none ↦ []
          | some recipient ↦ bounded_events at max_per_chat (is_due closed recipient chat) queue
        ])
        ≤ max_per_chat) [
          | none ↦ omega arith
          | some r ↦
              length-bounded_events at max_per_chat (is_due closed r chat) queue (omega arith)
        ]

prune_pending_short :
    (at : ℕ) (recipients : List (ℕ × Recipient)) (closed : List (ℕ × Progress)) (pending : Queues)
    → are_short (prune_pending at recipients closed pending) ≡ true
unfolding prune_pending are_short all
prune_pending_short at recipients closed [] = refl
prune_pending_short at recipients closed ((chat, queue) ∷ rest) = ground (
  arith,
  prune_pending_short at recipients closed rest,
  due_queue_short at recipients closed chat queue,
)

merged_pending_short :
    (at : ℕ) (s : Store) (next : List (ℕ × Recipient)) → are_short (merged_pending at s next) ≡ true
unfolding merged_pending merged_queue are_short all
merged_pending_short at s [] = refl
merged_pending_short at s ((chat, r) ∷ rest) = ground (
  arith,
  merged_pending_short at s rest,
  length-bounded_events at max_per_chat keep_all
      (sort_events (merge_events (is_due s.closed r chat) (queue_of s.pending chat ++ s.recent) []))
      (omega arith),
)

length-keep_if {ℓ} : {A : Type ℓ} (p : A → Bool) (xs : List A) → length (keep_if p xs) ≤ length xs
unfolding keep_if
length-keep_if p [] = omega arith
length-keep_if p (x ∷ xs) = ground (arith, length-keep_if p xs)

drop_chat_short :
    (pending : Queues) (chat : ℕ)
    → are_short pending ≡ true
    → are_short (drop_chat pending chat) ≡ true
unfolding drop_chat are_short all
drop_chat_short [] chat a = refl
drop_chat_short ((c, q) ∷ rest) chat a = ground (arith, drop_chat_short rest chat)

put_chat_short :
    (pending : Queues) (chat : ℕ) (queue : List StoredEvent)
    → length queue ≤ max_per_chat
    → are_short pending ≡ true
    → are_short (put_chat pending chat queue) ≡ true
unfolding put_chat are_short all
put_chat_short pending chat queue h a = ground (arith, drop_chat_short pending chat a)

queue_of_short :
    (pending : Queues) (chat : ℕ)
    → are_short pending ≡ true
    → length (queue_of pending chat) ≤ max_per_chat
unfolding queue_of find_chat are_short all
queue_of_short [] chat a = omega arith
queue_of_short ((c, q) ∷ rest) chat a = ground (arith, queue_of_short rest chat)

ack_pending_short :
    (pending : Queues) (chat : ℕ) (id : EventId)
    → are_short pending ≡ true
    → are_short (ack_pending pending chat id) ≡ true
unfolding ack_pending
ack_pending_short pending chat id a =
    let kept =
      keep_if (λ (event : StoredEvent). not (id_eq event.event_id id)) (queue_of pending chat) in
    ground (
      arith,
      drop_chat_short pending chat a,
      put_chat_short pending chat kept,
      length-keep_if (λ (event : StoredEvent). not (id_eq event.event_id id))
          (queue_of pending chat),
      queue_of_short pending chat a,
    )

push_waiting_short :
    (backlog : List WaitingEvent) (event : WaitingEvent)
    → length backlog ≤ max_recent
    → length (push_waiting backlog event) ≤ max_recent
unfolding push_waiting
push_waiting_short [] event h = omega arith
push_waiting_short (first ∷ rest) event h =
    ground (arith, length-append rest (event ∷ []), length-append (first ∷ rest) (event ∷ []))

pub prune-IsShort : (at : ℕ) (s : Store) → length s.backlog ≤ max_recent → IsShort (prune at s)
unfolding prune
prune-IsShort at s h = record {
  few_recent = length-bounded_events at max_recent keep_all s.recent (omega arith);
  short_queues = prune_pending_short at s.recipients (prune at s).closed s.pending;
  few_waiting = h;
}

append_event-IsShort :
    (text : Text) (at : ℕ) (s : Store) → IsShort s → IsShort (append_event text at s).0
unfolding append_event
append_event-IsShort text at s v = prune-IsShort at _ v.few_waiting

defer-IsShort : (text : Text) (at : ℕ) (s : Store) → IsShort s → IsShort (defer text at s)
unfolding defer
defer-IsShort text at s v = record {
  few_recent = v.few_recent;
  short_queues = v.short_queues;
  few_waiting = push_waiting_short s.backlog (record { at = at; text = text }) v.few_waiting;
}

ack_event-IsShort :
    (at chat : ℕ) (id : EventId) (s : Store) → IsShort s → IsShort (ack_event at chat id s)
unfolding ack_event
ack_event-IsShort at chat id s v =
    let p = prune-IsShort at s v.few_waiting in
    record {
      few_recent = p.few_recent;
      short_queues = ack_pending_short (prune at s).pending chat id p.short_queues;
      few_waiting = p.few_waiting;
    }

replace_recipients-IsShort :
    (at : ℕ) (recipients : List Recipient) (s : Store)
    → IsShort s
    → IsShort (replace_recipients at recipients s)
unfolding replace_recipients
replace_recipients-IsShort at recipients s v =
    let p = prune-IsShort at s v.few_waiting in
    record {
      few_recent = p.few_recent;
      short_queues = merged_pending_short at (prune at s) (next_recipients recipients []);
      few_waiting = p.few_waiting;
    }

finish_save-IsShort :
    (failure : Option StoreError) (state : SavedState) (revision : ℕ) (s : Store)
    → IsShort s
    → IsShort (finish_save failure state revision s)
unfolding finish_save
finish_save-IsShort none state revision s v = record {
  few_recent = v.few_recent;
  short_queues = v.short_queues;
  few_waiting = v.few_waiting;
}
finish_save-IsShort (some f) state revision s v = record {
  few_recent = v.few_recent;
  short_queues = v.short_queues;
  few_waiting = v.few_waiting;
}

no_waiting :
    (epoch : Text) (file : Option SavedState) → length (load_store epoch file).backlog ≤ max_recent
unfolding load_store new_store restored_store
no_waiting epoch none = omega arith
no_waiting epoch (some state) = ground arith

Step-IsShort : (y z : System) → Step y z → IsShort y.store → IsShort z.store
unfolding begin_save
Step-IsShort y z (publish text at top h e) v =
    rw e (append_event-IsShort text at (prune at y.store) (prune-IsShort at y.store v.few_waiting))
Step-IsShort y z (wait text at e) v = rw e (defer-IsShort text at y.store v)
Step-IsShort y z (ack at chat id e) v = rw e (ack_event-IsShort at chat id y.store v)
Step-IsShort y z (replace at recipients e) v =
    rw e (replace_recipients-IsShort at recipients y.store v)
Step-IsShort y z (begin at reserve free e) v = rw e (prune-IsShort at y.store v.few_waiting)
Step-IsShort y z (written failure state revision f e) v =
    rw e (finish_save-IsShort failure state revision y.store v)
Step-IsShort y z (unwritten failure state revision f e) v =
    rw e (finish_save-IsShort (some failure) state revision y.store v)
Step-IsShort y z (restart epoch at new e) v =
    rw e (prune-IsShort at (load_store epoch y.file) (no_waiting epoch y.file))

-- After any history the store keeps at most 20 recent events, at most 20 for each chat, and at most
-- 20 that wait for an id, whatever the file held at a restart.
pub Reach-IsShort : (epoch : Text) (z : System) → Reach (first_start epoch) z → IsShort z.store
unfolding first_start load_store new_store are_short all
Reach-IsShort epoch z here = record {
  few_recent = omega arith;
  short_queues = refl;
  few_waiting = omega arith;
}
Reach-IsShort epoch z (next {z = w} r st) = Step-IsShort w z st (Reach-IsShort epoch w r)
