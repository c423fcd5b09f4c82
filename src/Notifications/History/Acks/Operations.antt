-- ===== src/Notifications/History/Acks/Operations.antt =====
-- The operations of the store, and an event that a chat has acknowledged:
-- server/internal/notifications/store.go.
use vpn_director.Prelude.{
  ℕ, ◌+◌, Text, true, false, Option, none, some, List, [], ◌∷◌, ◌++◌, ◌≡◌, refl, arith, any,
  any-append, keep_if, ◌||◌, not, Bool-cases, inl, inr, ◌==◌,
}
use vpn_director.Notifications.Events.{StoredEvent, EventId, id_eq, max_recent, keep_all}
use vpn_director.Notifications.State.{
  Store, Recipient, Queues, Progress, put_chat, drop_chat, queue_of, unacked, is_live, progress_of,
  is_closed, prune, next_event, append_pending, append_event, find_event, ack_pending, ack_closed,
  close_event, ack_event,
}
use vpn_director.Notifications.History.Acks.{
  is_spared, IsAcked, none_in_keep_if, closed-prune_closed, gone-bounded_events,
  spared-prune_pending, spared-put_chat, spared-queue_of, spared-drop_chat, is_closed-cons,
}

pub prune-IsAcked :
    (at chat : ℕ) (id : EventId) (s : Store)
    → IsAcked chat id s.recent s.pending s.closed
    → IsAcked chat id (prune at s).recent (prune at s).pending (prune at s).closed
unfolding prune
prune-IsAcked at chat id s v = record {
  spared = spared-prune_pending at chat id s.recipients (prune at s).closed s.pending v.spared;
  barred = ground (
    arith,
    closed-prune_closed (prune at s).recent chat id s.closed,
    gone-bounded_events at max_recent keep_all s.recent id (omega arith),
    v.barred,
  );
}

pub live-append :
    (events : List StoredEvent) (event : StoredEvent) (id : EventId)
    → id_eq event.event_id id ≡ false
    → is_live (events ++ event ∷ []) id ≡ is_live events id
unfolding is_live any
live-append [] event id h = ground arith
live-append (e ∷ events) event id h = ground (arith, live-append events event id h)

spared-append_pending :
    (event : StoredEvent) (recipients : List (ℕ × Recipient)) (pending : Queues) (chat : ℕ)
    (id : EventId)
    → id_eq event.event_id id ≡ false
    → is_spared chat id pending ≡ true
    → is_spared chat id (append_pending event recipients pending) ≡ true
unfolding append_pending
spared-append_pending event [] pending chat id h a = a
spared-append_pending event ((c, r) ∷ rest) pending chat id h a = ground (
  arith,
  spared-append_pending event rest pending chat id h a,
  spared-append_pending event rest (put_chat pending c (queue_of pending c ++ event ∷ [])) chat id
      h,
  spared-put_chat chat c id pending (queue_of pending c ++ event ∷ []),
  spared-queue_of chat c id pending a,
  live-append (queue_of pending c) event id h,
)

pub append_event-IsAcked :
    (text : Text) (at chat : ℕ) (id : EventId) (s : Store)
    → id_eq (next_event s text at).event_id id ≡ false
    → IsAcked chat id s.recent s.pending s.closed
    → (let t = (append_event text at s).0 in IsAcked chat id t.recent t.pending t.closed)
unfolding append_event
append_event-IsAcked text at chat id s h v =
    let event = next_event s text at in
    prune-IsAcked at chat id
      (record s {
        sequence = s.sequence + 1;
        recent = s.recent ++ event ∷ [];
        pending = append_pending event s.recipients s.pending;
        revision = s.revision + 1;
      })
      (record {
        spared = spared-append_pending event s.recipients s.pending chat id h v.spared;
        barred = rw (live-append s.recent event id h) v.barred;
      })

gone-unacked :
    (other id : EventId) (events : List StoredEvent)
    → is_live events id ≡ false
    → is_live (unacked other events) id ≡ false
unfolding is_live
gone-unacked other id events h =
    none_in_keep_if (λ event. id_eq event.event_id id) (λ event. not (id_eq event.event_id other))
      events h

pub gone-unacked_self :
    (id : EventId) (events : List StoredEvent) → is_live (unacked id events) id ≡ false
unfolding is_live any keep_if
gone-unacked_self id [] = refl
gone-unacked_self id (event ∷ events) = ground (arith, gone-unacked_self id events)

spared-ack_pending :
    (pending : Queues) (c chat : ℕ) (other id : EventId)
    → is_spared chat id pending ≡ true
    → is_spared chat id (ack_pending pending c other) ≡ true
unfolding ack_pending
spared-ack_pending pending c chat other id a = ground (
  arith,
  spared-drop_chat chat c id pending a,
  spared-put_chat chat c id pending (unacked other (queue_of pending c)),
  spared-queue_of chat c id pending a,
  gone-unacked other id (queue_of pending c),
)

closed-drop_chat :
    (closed : List (ℕ × Progress)) (c chat : ℕ) (id : EventId)
    → (c == chat) ≡ false
    → is_closed (drop_chat closed c) chat id ≡ is_closed closed chat id
unfolding drop_chat
closed-drop_chat [] c chat id h = refl
closed-drop_chat ((d, progress) ∷ rest) c chat id h = ground (
  arith,
  closed-drop_chat rest c chat id h,
  is_closed-cons d chat progress rest id,
  is_closed-cons d chat progress (drop_chat rest c) id,
)

pub closed-put_self :
    (closed : List (ℕ × Progress)) (chat : ℕ) (more : Progress) (id : EventId)
    → is_closed closed chat id || any (λ entry. id_eq entry.0 id) more ≡ true
    → is_closed (put_chat closed chat (progress_of closed chat ++ more)) chat id ≡ true
unfolding put_chat is_closed
closed-put_self closed chat more id a = ground (
  arith,
  is_closed-cons chat chat (progress_of closed chat ++ more) (drop_chat closed chat) id,
  any-append (λ (entry : EventId × ℕ). id_eq entry.0 id) (progress_of closed chat) more,
)

closed-put_chat :
    (closed : List (ℕ × Progress)) (c chat t : ℕ) (other id : EventId)
    → is_closed closed chat id ≡ true
    → is_closed (put_chat closed c (progress_of closed c ++ (other, t) ∷ [])) chat id ≡ true
unfolding put_chat
closed-put_chat closed c chat t other id a =
    let progress = progress_of closed c ++ (other, t) ∷ [] in
    elim (Bool-cases (c == chat)) [
      | inl e ↦
          let same : c ≡ chat = ground arith in
          rw same (closed-put_self closed chat ((other, t) ∷ []) id (ground arith))
      | inr e ↦ ground (
        arith,
        closed-drop_chat closed c chat id e,
        is_closed-cons c chat progress (drop_chat closed c) id,
      )
    ]

closed-close_event :
    (found : Option StoredEvent) (closed : List (ℕ × Progress)) (c chat : ℕ) (other id : EventId)
    → is_closed closed chat id ≡ true
    → is_closed (close_event found closed c other) chat id ≡ true
unfolding close_event
closed-close_event none closed c chat other id a = a
closed-close_event (some event) closed c chat other id a =
    ground (arith, closed-put_chat closed c chat event.at other id a)

closed-ack_closed :
    (recent : List StoredEvent) (closed : List (ℕ × Progress)) (c chat : ℕ) (other id : EventId)
    → is_closed closed chat id ≡ true
    → is_closed (ack_closed recent closed c other) chat id ≡ true
unfolding ack_closed
closed-ack_closed recent closed c chat other id =
    closed-close_event (find_event recent other) closed c chat other id

pub ack_event-IsAcked :
    (at c chat : ℕ) (other id : EventId) (s : Store)
    → IsAcked chat id s.recent s.pending s.closed
    → (let t = ack_event at c other s in IsAcked chat id t.recent t.pending t.closed)
unfolding ack_event
ack_event-IsAcked at c chat other id s v =
    let p = prune-IsAcked at chat id s v in
    record {
      spared = spared-ack_pending (prune at s).pending c chat other id p.spared;
      barred = ground (
        arith,
        closed-ack_closed (prune at s).recent (prune at s).closed c chat other id,
        p.barred,
      );
    }
