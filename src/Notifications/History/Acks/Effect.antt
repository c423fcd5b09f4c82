-- ===== src/Notifications/History/Acks/Effect.antt =====
-- The acknowledgement of an event and the change of the recipients:
-- server/internal/notifications/store.go.
use mathlib.Core.Path.{subst}
use vpn_director.Prelude.{
  ℕ, text_eq_iff, Bool, true, false, Option, none, some, List, [], ◌∷◌, ◌++◌, ◌≡◌, ap, ◌∙◌, refl,
  arith, all, any, any-append, ◌&&◌, ◌||◌, not, Bool-cases, inl, inr, ◌==◌,
}
use vpn_director.Notifications.Events.{StoredEvent, EventId, id_eq, max_per_chat, keep_all}
use vpn_director.Notifications.State.{
  Store, Recipient, Queues, Progress, find_chat, put_chat, drop_chat, queue_of, unacked, is_live,
  is_due, is_closed, prune, find_event, ack_pending, ack_closed, close_event, is_some_event,
  ack_event,
}
use vpn_director.Notifications.Recipients.{
  merged_queue, merged_pending, next_recipients, sort_events, insert_event, merge_events,
  replace_recipients,
}
use vpn_director.Notifications.History.Acks.{
  is_spared, IsAcked, gone-bounded_events, spared-queue_of, id_eq_elim,
}
use vpn_director.Notifications.History.Acks.Maps.{is_map, prune_pending_map}
use vpn_director.Notifications.History.Acks.Operations.{
  live-append, prune-IsAcked, gone-unacked_self, closed-put_self,
}

absent-IsSpared :
    (chat : ℕ) (id : EventId) (pending : Queues)
    → any (λ entry. entry.0 == chat) pending ≡ false
    → is_spared chat id pending ≡ true
unfolding is_spared all any
absent-IsSpared chat id [] h = refl
absent-IsSpared chat id ((c, queue) ∷ rest) h = ground (arith, absent-IsSpared chat id rest)

spared-drop_self :
    (chat : ℕ) (id : EventId) (pending : Queues) → is_spared chat id (drop_chat pending chat) ≡ true
unfolding is_spared all drop_chat
spared-drop_self chat id [] = refl
spared-drop_self chat id ((c, queue) ∷ rest) = ground (arith, spared-drop_self chat id rest)

-- an event out of the queue of a map
spared_of_queue :
    (chat : ℕ) (id : EventId) (pending : Queues)
    → is_map pending ≡ true
    → is_live (queue_of pending chat) id ≡ false
    → is_spared chat id pending ≡ true
unfolding is_map is_spared all queue_of find_chat
spared_of_queue chat id [] m h = refl
spared_of_queue chat id ((c, queue) ∷ rest) m h = elim (Bool-cases (c == chat)) [
  | inl e ↦
      let same : c ≡ chat = ground arith in
      let absent : is_spared chat id rest ≡ true =
        subst (λ k. is_spared k id rest ≡ true) same (absent-IsSpared c id rest (ground arith)) in
      ground (arith, absent)
  | inr e ↦ ground (arith, spared_of_queue chat id rest)
]

spared-cons :
    (chat : ℕ) (id : EventId) (queue : List StoredEvent) (rest : Queues)
    → is_live queue id ≡ false
    → is_spared chat id rest ≡ true
    → is_spared chat id ((chat, queue) ∷ rest) ≡ true
unfolding is_spared all
spared-cons chat id queue rest g h = ground arith

spared-ack_self :
    (pending : Queues) (chat : ℕ) (id : EventId)
    → is_map pending ≡ true
    → is_spared chat id (ack_pending pending chat id) ≡ true
unfolding ack_pending put_chat
spared-ack_self pending chat id m = ground (
  arith,
  spared_of_queue chat id pending m,
  spared-drop_self chat id pending,
  gone-unacked_self id (queue_of pending chat),
  spared-cons chat id (unacked id (queue_of pending chat)) (drop_chat pending chat),
)

found-live :
    (recent : List StoredEvent) (id : EventId)
    → is_some_event (find_event recent id) ≡ is_live recent id
unfolding find_event is_live any is_some_event
found-live [] id = refl
found-live (event ∷ recent) id = ground (arith, found-live recent id)

pub id_eq_refl : (id : EventId) → id_eq id id ≡ true
unfolding id_eq
id_eq_refl id = ground (arith, text_eq_iff id.epoch id.epoch)

closed-close_self :
    (found : Option StoredEvent) (closed : List (ℕ × Progress)) (chat : ℕ) (id : EventId)
    → not (is_some_event found) || is_closed (close_event found closed chat id) chat id ≡ true
unfolding close_event is_some_event any
closed-close_self none closed chat id = refl
closed-close_self (some event) closed chat id =
    ground (arith, closed-put_self closed chat ((id, event.at) ∷ []) id, id_eq_refl id)

closed-ack_self :
    (recent : List StoredEvent) (closed : List (ℕ × Progress)) (chat : ℕ) (id : EventId)
    → not (is_live recent id) || is_closed (ack_closed recent closed chat id) chat id ≡ true
unfolding ack_closed
closed-ack_self recent closed chat id =
    rw (← found-live recent id) (closed-close_self (find_event recent id) closed chat id)

pub ack_event_own-IsAcked :
    (at chat : ℕ) (id : EventId) (s : Store)
    → is_map s.pending ≡ true
    → (let t = ack_event at chat id s in IsAcked chat id t.recent t.pending t.closed)
unfolding ack_event prune
ack_event_own-IsAcked at chat id s m =
    let p = prune at s in
    record {
      spared =
          spared-ack_self p.pending chat id
            (prune_pending_map at s.recipients p.closed s.pending m);
      barred = closed-ack_self p.recent p.closed chat id;
    }

gone-insert_event :
    (event : StoredEvent) (events : List StoredEvent) (id : EventId)
    → is_live (insert_event event events) id ≡ (id_eq event.event_id id || is_live events id)
unfolding insert_event is_live any
gone-insert_event event [] id = refl
gone-insert_event event (e ∷ events) id = ground (arith, gone-insert_event event events id)

live-sort_events :
    (events : List StoredEvent) (id : EventId) → is_live (sort_events events) id ≡ is_live events id
unfolding sort_events is_live any
live-sort_events [] id = refl
live-sort_events (e ∷ events) id =
    gone-insert_event e (sort_events events) id
    ∙ ap (λ b. id_eq e.event_id id || b) (live-sort_events events id)

gone-merge_events :
    (due : StoredEvent → Bool) (events merged : List StoredEvent) (id : EventId)
    → any (λ event. id_eq event.event_id id && due event) events ≡ false
    → is_live merged id ≡ false
    → is_live (merge_events due events merged) id ≡ false
unfolding merge_events any
gone-merge_events due [] merged id h g = g
gone-merge_events due (e ∷ events) merged id h g = ground (
  arith,
  gone-merge_events due events merged id,
  gone-merge_events due events (merged ++ e ∷ []) id,
  live-append merged e id,
)

none_due_absent :
    (due : StoredEvent → Bool) (events : List StoredEvent) (id : EventId)
    → is_live events id ≡ false
    → any (λ event. id_eq event.event_id id && due event) events ≡ false
unfolding is_live any
none_due_absent due [] id h = refl
none_due_absent due (e ∷ events) id h = ground (arith, none_due_absent due events id)

closed_of_eq :
    (closed : List (ℕ × Progress)) (chat : ℕ) (a b : EventId)
    → is_closed closed chat b ≡ true
    → id_eq a b ≡ true
    → is_closed closed chat a ≡ true
closed_of_eq closed chat a b l h = rw (id_eq_elim a b h) l

none_due_closed :
    (closed : List (ℕ × Progress)) (r : Recipient) (chat : ℕ) (events : List StoredEvent)
    (id : EventId)
    → is_closed closed chat id ≡ true
    → any (λ event. id_eq event.event_id id && is_due closed r chat event) events ≡ false
unfolding any is_due
none_due_closed closed r chat [] id h = refl
none_due_closed closed r chat (e ∷ events) id h =
    ground
      (arith, none_due_closed closed r chat events id h, closed_of_eq closed chat e.event_id id h)

none_live : (id : EventId) → is_live [] id ≡ false
unfolding is_live any
none_live id = refl

gone-merged_queue :
    (at : ℕ) (s : Store) (chat : ℕ) (r : Recipient) (id : EventId)
    → IsAcked chat id s.recent s.pending s.closed
    → is_live (merged_queue at s chat r) id ≡ false
unfolding merged_queue
gone-merged_queue at s chat r id v =
    let due = is_due s.closed r chat in
    let queue = queue_of s.pending chat in
    let absent : is_live queue id ≡ false =
      ground (arith, spared-queue_of chat chat id s.pending v.spared) in
    let none_due : any (λ event. id_eq event.event_id id && due event) (queue ++ s.recent) ≡ false =
      ground (
        arith,
        any-append (λ (event : StoredEvent). id_eq event.event_id id && due event) queue s.recent,
        none_due_absent due queue id absent,
        none_due_absent due s.recent id,
        none_due_closed s.closed r chat s.recent id,
        v.barred,
      ) in
    let merged = merge_events due (queue ++ s.recent) [] in
    gone-bounded_events at max_per_chat keep_all (sort_events merged) id (omega arith) (
      live-sort_events merged id
      ∙ gone-merge_events due (queue ++ s.recent) [] id none_due (none_live id))

spared-merged_queue :
    (at : ℕ) (s : Store) (c chat : ℕ) (r : Recipient) (id : EventId)
    → IsAcked chat id s.recent s.pending s.closed
    → (c == chat && is_live (merged_queue at s c r) id) ≡ false
spared-merged_queue at s c chat r id v = elim (Bool-cases (c == chat)) [
  | inl e ↦
      let same : chat ≡ c = ground arith in
      let gone : is_live (merged_queue at s c r) id ≡ false =
        subst (λ k. is_live (merged_queue at s k r) id ≡ false) same
          (gone-merged_queue at s chat r id v) in
      ground arith
  | inr e ↦ ground arith
]

spared-merged_pending :
    (at : ℕ) (s : Store) (next : List (ℕ × Recipient)) (chat : ℕ) (id : EventId)
    → IsAcked chat id s.recent s.pending s.closed
    → is_spared chat id (merged_pending at s next) ≡ true
unfolding merged_pending is_spared all
spared-merged_pending at s [] chat id v = refl
spared-merged_pending at s ((c, r) ∷ rest) chat id v =
    ground
      (arith, spared-merged_pending at s rest chat id v, spared-merged_queue at s c chat r id v)

pub replace_recipients-IsAcked :
    (at : ℕ) (recipients : List Recipient) (chat : ℕ) (id : EventId) (s : Store)
    → IsAcked chat id s.recent s.pending s.closed
    → (let t = replace_recipients at recipients s in IsAcked chat id t.recent t.pending t.closed)
unfolding replace_recipients
replace_recipients-IsAcked at recipients chat id s v =
    let p = prune-IsAcked at chat id s v in
    record {
      spared = spared-merged_pending at (prune at s) (next_recipients recipients []) chat id p;
      barred = p.barred;
    }
