-- ===== src/Notifications/History/Acks.antt =====
-- An acknowledged event and the queue of its chat, operation by operation:
-- server/internal/notifications/store.go.
pub mod Maps
pub mod Keys
pub mod Kept
pub mod Operations
pub mod Effect
pub mod Forever
use vpn_director.Prelude.{
  ℕ, zero, suc, ◌+◌, ◌-◌, ◌≤◌, ◌<◌, Text, text_eq, text_eq_iff, Bool, true, false, Option, none,
  some, List, [], ◌∷◌, ◌++◌, ◌≡◌, sym, refl, arith, all, any, any-append, keep_if, length, leb, ltb,
  ◌&&◌, ◌||◌, not, Bool-cases, Option-cases, inl, inr, if◌then◌else◌, ◌==◌, drop,
}
use vpn_director.Notifications.Events.{
  StoredEvent, EventId, id_eq, bounded_events, max_recent, max_per_chat, keep_all,
}
use vpn_director.Notifications.Events.Bounded.{bounded_events-last, passes}
use vpn_director.Notifications.State.{
  Store, StoreError, Recipient, Queues, Progress, find_chat, put_chat, drop_chat, is_empty,
  queue_of, is_live, is_due, due_queue, progress_of, is_closed, live_progress, prune_closed,
  prune_pending, prune, next_event, append_pending, append_event, find_event, ack_pending,
  ack_closed, ack_event,
}
use vpn_director.Notifications.Recipients.{
  merged_queue, merged_pending, next_recipients, sort_events, insert_event, merge_events,
  replace_recipients,
}

-- no queue of the chat holds the event
unfoldable pub is_spared : ℕ → EventId → Queues → Bool
is_spared chat id = all (λ entry. not (entry.0 == chat && is_live entry.1 id))

-- the event is out of the queue of the chat, and closed there as long as it is live
pub record IsAcked (chat : ℕ) (id : EventId) (recent : List StoredEvent) (pending : Queues)
    (closed : List (ℕ × Progress)) : Type 0 where
  pub spared : is_spared chat id pending ≡ true
  pub barred : not (is_live recent id) || is_closed closed chat id ≡ true

module _ {ℓ} {A : Type ℓ} (p : A → Bool) where
  pub none_in_drop : (n : ℕ) (xs : List A) → any p xs ≡ false → any p (drop n xs) ≡ false
  unfolding any
  none_in_drop zero xs h = h
  none_in_drop (suc n) [] h = refl
  none_in_drop (suc n) (x ∷ xs) h = none_in_drop n xs (ground arith)

  pub none_in_keep_if :
      (q : A → Bool) (xs : List A) → any p xs ≡ false → any p (keep_if q xs) ≡ false
  unfolding any keep_if
  none_in_keep_if q [] h = refl
  none_in_keep_if q (x ∷ xs) h = ground (arith, none_in_keep_if q xs)

pub gone-bounded_events :
    (at limit : ℕ) (keep : StoredEvent → Bool) (events : List StoredEvent) (id : EventId)
    → 0 < limit
    → is_live events id ≡ false
    → is_live (bounded_events at limit keep events) id ≡ false
unfolding is_live
gone-bounded_events at limit keep events id p h = rw (bounded_events-last at limit keep events p) (
    none_in_drop (λ event. id_eq event.event_id id)
      (length (keep_if (passes at keep) events) - limit) (keep_if (passes at keep) events)
      (none_in_keep_if (λ event. id_eq event.event_id id) (passes at keep) events h))

pub gone-due_queue :
    (at : ℕ) (recipients : List (ℕ × Recipient)) (closed : List (ℕ × Progress)) (chat : ℕ)
    (queue : List StoredEvent) (id : EventId)
    → is_live queue id ≡ false
    → is_live (due_queue at recipients closed chat queue) id ≡ false
unfolding due_queue is_live any
gone-due_queue at recipients closed chat queue id h =
    elim (find_chat recipients chat)
      as (λ r.
        any (λ event. id_eq event.event_id id)
          (elim r [
            | none ↦ []
            | some recipient ↦ bounded_events at max_per_chat (is_due closed recipient chat) queue
          ])
        ≡ false) [
          | none ↦ refl
          | some r ↦
              gone-bounded_events at max_per_chat (is_due closed r chat) queue id (omega arith) h
        ]

pub spared-prune_pending :
    (at chat : ℕ) (id : EventId) (recipients : List (ℕ × Recipient)) (closed : List (ℕ × Progress))
    (pending : Queues)
    → is_spared chat id pending ≡ true
    → is_spared chat id (prune_pending at recipients closed pending) ≡ true
unfolding is_spared all prune_pending
spared-prune_pending at chat id recipients closed [] h = refl
spared-prune_pending at chat id recipients closed ((c, queue) ∷ rest) h = ground (
  arith,
  spared-prune_pending at chat id recipients closed rest,
  gone-due_queue at recipients closed c queue id,
)

pub id_eq_elim : (a b : EventId) → id_eq a b ≡ true → a ≡ b
unfolding id_eq
id_eq_elim a b h = ground (arith, text_eq_iff a.epoch b.epoch)

live_of_eq :
    (recent : List StoredEvent) (a b : EventId)
    → is_live recent b ≡ true
    → id_eq a b ≡ true
    → is_live recent a ≡ true
live_of_eq recent a b l h = rw (id_eq_elim a b h) l

live_progress_keeps :
    (recent : List StoredEvent) (progress : Progress) (id : EventId)
    → is_live recent id ≡ true
    → any (λ entry. id_eq entry.0 id) progress ≡ true
    → any (λ entry. id_eq entry.0 id) (live_progress recent progress) ≡ true
unfolding live_progress keep_if any
live_progress_keeps recent [] id h a = a
live_progress_keeps recent ((other, at) ∷ rest) id h a =
    ground (arith, live_progress_keeps recent rest id h, live_of_eq recent other id h)

pub is_closed-cons :
    (c chat : ℕ) (progress : Progress) (rest : List (ℕ × Progress)) (id : EventId)
    → is_closed ((c, progress) ∷ rest) chat id
      ≡ (if c == chat then any (λ entry. id_eq entry.0 id) progress else is_closed rest chat id)
unfolding is_closed progress_of find_chat
is_closed-cons c chat progress rest id = ground arith

not_empty {ℓ} : {A : Type ℓ} (p : A → Bool) (xs : List A) → any p xs ≡ true → is_empty xs ≡ false
unfolding any is_empty
not_empty p [] h = sym h
not_empty p (x ∷ xs) h = refl

-- a live event stays closed
pub closed-prune_closed :
    (recent : List StoredEvent) (chat : ℕ) (id : EventId) (closed : List (ℕ × Progress))
    → is_live recent id ≡ true
    → is_closed closed chat id ≡ true
    → is_closed (prune_closed recent closed) chat id ≡ true
unfolding prune_closed
closed-prune_closed recent chat id [] h a = a
closed-prune_closed recent chat id ((c, progress) ∷ rest) h a = ground (
  arith,
  closed-prune_closed recent chat id rest h,
  is_closed-cons c chat progress rest id,
  is_closed-cons c chat (live_progress recent progress) (prune_closed recent rest) id,
  live_progress_keeps recent progress id h,
  not_empty (λ (entry : EventId × ℕ). id_eq entry.0 id) (live_progress recent progress),
)

pub spared-drop_chat :
    (chat c : ℕ) (id : EventId) (pending : Queues)
    → is_spared chat id pending ≡ true
    → is_spared chat id (drop_chat pending c) ≡ true
unfolding is_spared all drop_chat
spared-drop_chat chat c id [] h = refl
spared-drop_chat chat c id ((other, queue) ∷ rest) h =
    ground (arith, spared-drop_chat chat c id rest)

pub spared-queue_of :
    (chat c : ℕ) (id : EventId) (pending : Queues)
    → is_spared chat id pending ≡ true
    → (c == chat && is_live (queue_of pending c) id) ≡ false
unfolding is_spared all queue_of find_chat is_live any
spared-queue_of chat c id [] h = ground arith
spared-queue_of chat c id ((other, queue) ∷ rest) h = ground (arith, spared-queue_of chat c id rest)

pub spared-put_chat :
    (chat c : ℕ) (id : EventId) (pending : Queues) (queue : List StoredEvent)
    → (c == chat && is_live queue id) ≡ false
    → is_spared chat id pending ≡ true
    → is_spared chat id (put_chat pending c queue) ≡ true
unfolding is_spared all put_chat
spared-put_chat chat c id pending queue h a = ground (arith, spared-drop_chat chat c id pending a)
