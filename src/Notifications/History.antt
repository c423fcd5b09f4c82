-- ===== src/Notifications/History.antt =====
-- The store and its file over any sequence of what the daemon does and of crashes: each step is one
-- stretch under the store's lock, so saves and changes interleave.
pub mod Leases
pub mod Starts
pub mod Unique
pub mod Acks
pub mod Sizes
use vpn_director.Prelude.{
  ℕ, ◌+◌, ◌<◌, Text, Bool, true, false, Option, none, some, List, [], ◌∷◌, ◌≡◌, text_eq, any, all,
  keep_if, not, ◌&&◌,
}
use vpn_director.Notifications.Events.{
  EventId, id_eq, max_uint64, event_eq, same_events, is_fresh, push_bounded, bounded_loop,
  bounded_events,
}
use vpn_director.Notifications.State.{
  Store, StoreError, Recipient, prune, append_event, defer, ack_event, queue_of, is_live, find_chat,
  put_chat, drop_chat, is_empty, prune_pending, due_queue, is_due, is_closed, progress_of,
  prune_closed, live_progress, closed_changed, pending_changed, step_revision, append_pending,
  next_event, find_event, ack_pending, ack_closed, close_event, is_some_event,
}
use vpn_director.Notifications.Recipients.{
  replace_recipients, next_recipients, merged_pending, merged_queue, merge_events, sort_events,
  insert_event, same_recipients, same_recipient, same_pending, same_queue,
}
use vpn_director.Notifications.Saves.{
  SavedState, SaveStart, write, begin_save, finish_save, load_store, start_of, snapshot,
  next_reserve, max, reserve_needed, state_to_save, new_store,
}

-- the store in memory, its file, the write under way, and the ids given out since the beginning
pub record System : Type 0 where
  pub store : Store
  pub file : Option SavedState
  pub writing : Option (SavedState × ℕ)
  pub issued : List EventId

unfoldable pub start_writing : SaveStart → Option (SavedState × ℕ)
start_writing (write state revision) = some (state, revision)
start_writing other = none

-- The epoch of a process is drawn at random; it is new.
unfoldable pub is_new_epoch : Text → System → Bool
is_new_epoch epoch y =
    not (any (λ id. text_eq id.epoch epoch) y.issued)
    && (elim y.file [ none ↦ true | some state ↦ not (text_eq state.epoch epoch) ])

pub data Step (y : System) (z : System) : Type 0 where
  publish :
      (text : Text) (at : ℕ)
      → (prune at y.store).sequence < max_uint64
      → (prune at y.store).sequence < (prune at y.store).reserved_through
      → z ≡ record y {
        store = (append_event text at (prune at y.store)).0;
        issued = (append_event text at (prune at y.store)).1 ∷ y.issued;
      }
      → Step y z
  wait : (text : Text) (at : ℕ) → z ≡ record y { store = defer text at y.store } → Step y z
  ack :
      (at chat : ℕ) (id : EventId)
      → z ≡ record y { store = ack_event at chat id y.store }
      → Step y z
  replace :
      (at : ℕ) (recipients : List Recipient)
      → z ≡ record y { store = replace_recipients at recipients y.store }
      → Step y z
  begin :
      (at reserve : ℕ)
      → y.writing ≡ none
      → z ≡ record y {
        store = (begin_save at reserve y.store).0;
        writing = start_writing (begin_save at reserve y.store).1;
      }
      → Step y z
  -- the file holds the new state; the write may still have failed, in the sync of the directory
  written :
      (failure : Option StoreError) (state : SavedState) (revision : ℕ)
      → y.writing ≡ some (state, revision)
      → z ≡ record y {
        store = finish_save failure state revision y.store;
        file = some state;
        writing = none;
      }
      → Step y z
  unwritten :
      (failure : StoreError) (state : SavedState) (revision : ℕ)
      → y.writing ≡ some (state, revision)
      → z ≡ record y { store = finish_save (some failure) state revision y.store; writing = none }
      → Step y z
  -- a crash at any moment, a write under way included, and the next start
  restart :
      (epoch : Text) (at : ℕ)
      → is_new_epoch epoch y ≡ true
      → z ≡ record y { store = prune at (load_store epoch y.file); writing = none }
      → Step y z

pub data Reach (y : System) : System → Type 0 where
  here : Reach y y
  next : {z w : System} → Reach y z → Step z w → Reach y w

-- the first start, with no file
unfoldable pub first_start : Text → System
first_start epoch = record {
  store = load_store epoch none;
  file = none;
  writing = none;
  issued = [];
}

-- Opens the store's functions, for evaluation on concrete histories.
unfoldable pub run_history : Unit {0}
unfolding first_start load_store new_store replace_recipients next_recipients find_chat put_chat
    drop_chat merged_pending merged_queue merge_events sort_events insert_event same_recipients
    same_recipient same_pending same_queue prune append_event next_event append_pending queue_of
    prune_pending prune_closed due_queue is_due is_closed progress_of live_progress closed_changed
    pending_changed step_revision is_live any all keep_if id_eq event_eq same_events is_empty
    bounded_events bounded_loop is_fresh push_bounded text_eq ack_event ack_pending ack_closed
    close_event find_event is_some_event begin_save start_of start_writing state_to_save snapshot
    next_reserve max reserve_needed finish_save is_new_epoch
run_history = tt
