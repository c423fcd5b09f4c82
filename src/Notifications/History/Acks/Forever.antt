-- ===== src/Notifications/History/Acks/Forever.antt =====
-- An acknowledgement that a save has put into the file, over any further history.
use vpn_director.Prelude.{ℕ, Text, true, false, Option, none, some, ◌≡◌, refl, arith}
use vpn_director.Notifications.Events.{EventId}
use vpn_director.Notifications.State.{StoreError, queue_of, is_live, prune, ack_event}
use vpn_director.Notifications.Saves.{SavedState, begin_save, finish_save}
use vpn_director.Notifications.History.{
  System, start_writing, ack, begin, written, Reach, next, first_start,
}
use vpn_director.Notifications.History.Starts.{first_start-IsSound}
use vpn_director.Notifications.History.Unique.{Reach-IsSound}
use vpn_director.Notifications.History.Acks.{spared-queue_of}
use vpn_director.Notifications.History.Acks.Operations.{prune-IsAcked}
use vpn_director.Notifications.History.Acks.Effect.{ack_event_own-IsAcked}
use vpn_director.Notifications.History.Acks.Maps.{is_map}
use vpn_director.Notifications.History.Acks.Keys.{reached_map}
use vpn_director.Notifications.History.Acks.Kept.{
  IsKept, is_issued, started-IsAcked, written-IsKept, Reach-IsKept,
}

-- a chat's acknowledgement, and the save that begins after it
abbrev pub acked : ℕ → ℕ → EventId → System → System
acked at chat id y = record y { store = ack_event at chat id y.store }

abbrev pub begun : ℕ → System → System
begun at y = record y {
  store = (begin_save at 0 y.store).0;
  writing = start_writing (begin_save at 0 y.store).1;
}

abbrev pub put_in_file : Option StoreError → SavedState → ℕ → System → System
put_in_file failure state revision y = record y {
  store = finish_save failure state revision y.store;
  file = some state;
  writing = none;
}

saved_ack-IsKept :
    (y : System) (at later chat revision : ℕ) (id : EventId) (failure : Option StoreError)
    (state : SavedState)
    → is_map y.store.pending ≡ true
    → (begun later (acked at chat id y)).writing ≡ some (state, revision)
    → IsKept chat id (put_in_file failure state revision (begun later (acked at chat id y)))
unfolding begin_save
saved_ack-IsKept y at later chat revision id failure state m w =
    let a = ack_event_own-IsAcked at chat id y.store m in
    let p = prune-IsAcked later chat id (ack_event at chat id y.store) a in
    written-IsKept (begun later (acked at chat id y)) failure state revision chat id p
      (started-IsAcked 0 chat id (prune later (ack_event at chat id y.store)) state revision p w)

module _ (epoch : Text) (y z : System) (at later chat revision : ℕ) (id : EventId)
    (failure : Option StoreError) (state : SavedState) (r : Reach (first_start epoch) y)
    (issued : is_issued id y ≡ true) (free : y.writing ≡ none)
    (w : (begun later (acked at chat id y)).writing ≡ some (state, revision)) where
  -- Let a chat acknowledge an event that a reachable store, which has no write under way, has given
  -- an id, and let a save that begins then put its state into the file. After any further history, crashes included, the queue of the chat does not hold
  -- the event.
  pub acked_for_good :
      Reach (put_in_file failure state revision (begun later (acked at chat id y))) z
      → is_live (queue_of z.store.pending chat) id ≡ false
  acked_for_good more =
      let saved =
        next (next (next r (ack at chat id refl)) (begin later 0 free refl))
          (written failure state revision w refl) in
      let after = put_in_file failure state revision (begun later (acked at chat id y)) in
      let sound = Reach-IsSound (first_start epoch) after saved (first_start-IsSound epoch) in
      let kept =
        (Reach-IsKept after z chat id more sound issued (
          saved_ack-IsKept y at later chat revision id failure state (reached_map epoch y r)
            w)).0 in
      ground (arith, spared-queue_of chat chat id z.store.pending kept.in_store.spared)
