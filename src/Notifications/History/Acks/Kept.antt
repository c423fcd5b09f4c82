-- ===== src/Notifications/History/Acks/Kept.antt =====
-- What keeps an acknowledgement over a history: the store, its file and the write under way.
use vpn_director.Prelude.{
  ℕ, Text, text_eq_iff, Bool, true, false, Option, none, some, List, [], ◌∷◌, ◌≡◌, sym, refl, arith,
  any, all, Bool-cases, inl, inr,
}
use vpn_director.Notifications.Events.{EventId, id_eq}
use vpn_director.Notifications.State.{
  Store, StoreError, is_live, prune, next_event, append_event, defer, ack_event,
}
use vpn_director.Notifications.Recipients.{replace_recipients}
use vpn_director.Notifications.Saves.{
  SavedState, begin_save, start_of, finish_save, load_store, new_store, restored_store,
  valid_saved_state,
}
use vpn_director.Notifications.History.{
  System, start_writing, Step, publish, wait, ack, replace, begin, written, unwritten, restart,
  Reach, here, next,
}
use vpn_director.Notifications.History.Leases.{IsSound, is_within}
use vpn_director.Notifications.History.Unique.{Reach-IsSound}
use vpn_director.Notifications.History.Acks.{is_spared, IsAcked}
use vpn_director.Notifications.History.Acks.Operations.{
  prune-IsAcked, append_event-IsAcked, ack_event-IsAcked,
}
use vpn_director.Notifications.History.Acks.Effect.{replace_recipients-IsAcked}
use vpn_director.Notifications.History.Acks.Keys.{started_lists, finished_lists}

-- the store, the file and the write under way know of the acknowledgement
pub record IsKept (chat : ℕ) (id : EventId) (y : System) : Type 0 where
  pub in_store : IsAcked chat id y.store.recent y.store.pending y.store.closed
  pub on_file :
      (state : SavedState)
      → y.file ≡ some state
      → IsAcked chat id state.recent state.pending state.closed
  pub in_flight :
      (state : SavedState) (revision : ℕ)
      → y.writing ≡ some (state, revision)
      → IsAcked chat id state.recent state.pending state.closed

abbrev pub is_issued : EventId → System → Bool
is_issued id y = any (λ other. id_eq other id) y.issued

-- the next id is none of those given out
next-ne-issued :
    (text : Text) (at : ℕ) (s : Store) (id : EventId) (ids : List EventId)
    → all (is_within s.epoch s.sequence) ids ≡ true
    → any (λ other. id_eq other id) ids ≡ true
    → id_eq (next_event s text at).event_id id ≡ false
unfolding all any is_within next_event id_eq
next-ne-issued text at s id [] h a = absurd (ground arith)
next-ne-issued text at s id (other ∷ ids) h a = ground (
  arith,
  next-ne-issued text at s id ids,
  text_eq_iff other.epoch id.epoch,
  text_eq_iff s.epoch id.epoch,
  text_eq_iff other.epoch s.epoch,
)

empty-IsAcked : (chat : ℕ) (id : EventId) → IsAcked chat id [] [] []
unfolding is_spared is_live all any
empty-IsAcked chat id = record { spared = refl; barred = refl }

pub started-IsAcked :
    (reserve chat : ℕ) (id : EventId) (s : Store) (state : SavedState) (revision : ℕ)
    → IsAcked chat id s.recent s.pending s.closed
    → start_writing (start_of reserve s) ≡ some (state, revision)
    → IsAcked chat id state.recent state.pending state.closed
started-IsAcked reserve chat id s state revision v e =
    let (a, b, c) = started_lists reserve s state revision e in rw (a, b, c) v

loaded-IsAcked :
    (epoch : Text) (chat : ℕ) (id : EventId) (file : Option SavedState)
    → ((state : SavedState)
        → file ≡ some state
        → IsAcked chat id state.recent state.pending state.closed)
    → (let s = load_store epoch file in IsAcked chat id s.recent s.pending s.closed)
unfolding load_store new_store restored_store
loaded-IsAcked epoch chat id none h = empty-IsAcked chat id
loaded-IsAcked epoch chat id (some state) h = elim (Bool-cases (valid_saved_state state)) [
  | inl valid ↦ rw valid (h state refl)
  | inr invalid ↦ rw invalid (empty-IsAcked chat id)
]

publish-IsKept :
    (y : System) (text : Text) (at chat : ℕ) (id : EventId)
    → IsSound y
    → is_issued id y ≡ true
    → IsKept chat id y
    → IsKept chat id (record y {
      store = (append_event text at (prune at y.store)).0;
      issued = (append_event text at (prune at y.store)).1 ∷ y.issued;
    })
unfolding prune
publish-IsKept y text at chat id v i k = record {
  in_store =
      append_event-IsAcked text at chat id (prune at y.store)
        (next-ne-issued text at (prune at y.store) id y.issued v.counted i)
        (prune-IsAcked at chat id y.store k.in_store);
  on_file = k.on_file;
  in_flight = k.in_flight;
}

-- a step that changes no more than the store
store-IsKept :
    (y : System) (s : Store) (chat : ℕ) (id : EventId)
    → IsAcked chat id s.recent s.pending s.closed
    → IsKept chat id y
    → IsKept chat id (record y { store = s })
store-IsKept y s chat id a k = record { in_store = a; on_file = k.on_file; in_flight = k.in_flight }

begin-IsKept :
    (y : System) (at reserve chat : ℕ) (id : EventId)
    → IsKept chat id y
    → IsKept chat id (record y {
      store = (begin_save at reserve y.store).0;
      writing = start_writing (begin_save at reserve y.store).1;
    })
unfolding begin_save
begin-IsKept y at reserve chat id k =
    let p = prune-IsAcked at chat id y.store k.in_store in
    record {
      in_store = p;
      on_file = k.on_file;
      in_flight =
          λ state revision e. started-IsAcked reserve chat id (prune at y.store) state revision p e;
    }

pub written-IsKept :
    (y : System) (failure : Option StoreError) (state : SavedState) (revision chat : ℕ)
    (id : EventId)
    → IsAcked chat id y.store.recent y.store.pending y.store.closed
    → IsAcked chat id state.recent state.pending state.closed
    → IsKept chat id (record y {
      store = finish_save failure state revision y.store;
      file = some state;
      writing = none;
    })
written-IsKept y failure state revision chat id a w =
    let (e, f, g) = finished_lists failure state revision y.store in
    record {
      in_store = rw (e, f, g) a;
      on_file = λ other h. let same : state ≡ other = cc in rw (sym same) w;
      in_flight = λ other r h. cc;
    }

unwritten-IsKept :
    (y : System) (failure : StoreError) (state : SavedState) (revision chat : ℕ) (id : EventId)
    → IsKept chat id y
    → IsKept chat id
        (record y { store = finish_save (some failure) state revision y.store; writing = none })
unfolding finish_save
unwritten-IsKept y failure state revision chat id k = record {
  in_store = k.in_store;
  on_file = k.on_file;
  in_flight = λ other r h. cc;
}

restart-IsKept :
    (y : System) (epoch : Text) (at chat : ℕ) (id : EventId)
    → IsKept chat id y
    → IsKept chat id (record y { store = prune at (load_store epoch y.file); writing = none })
restart-IsKept y epoch at chat id k = record {
  in_store =
      prune-IsAcked at chat id (load_store epoch y.file)
        (loaded-IsAcked epoch chat id y.file k.on_file);
  on_file = k.on_file;
  in_flight = λ other r h. cc;
}

Step-IsKept :
    (y z : System) (chat : ℕ) (id : EventId)
    → Step y z
    → IsSound y
    → is_issued id y ≡ true
    → IsKept chat id y
    → IsKept chat id z
unfolding defer
Step-IsKept y z chat id (publish text at top h e) v i k =
    rw e (publish-IsKept y text at chat id v i k)
Step-IsKept y z chat id (wait text at e) v i k =
    rw e (store-IsKept y (defer text at y.store) chat id k.in_store k)
Step-IsKept y z chat id (ack at c other e) v i k = rw e (
    store-IsKept y (ack_event at c other y.store) chat id
      (ack_event-IsAcked at c chat other id y.store k.in_store) k)
Step-IsKept y z chat id (replace at recipients e) v i k = rw e (
    store-IsKept y (replace_recipients at recipients y.store) chat id
      (replace_recipients-IsAcked at recipients chat id y.store k.in_store) k)
Step-IsKept y z chat id (begin at reserve free e) v i k = rw e (begin-IsKept y at reserve chat id k)
Step-IsKept y z chat id (written failure state revision f e) v i k =
    rw e (written-IsKept y failure state revision chat id k.in_store (k.in_flight state revision f))
Step-IsKept y z chat id (unwritten failure state revision f e) v i k =
    rw e (unwritten-IsKept y failure state revision chat id k)
Step-IsKept y z chat id (restart epoch at new e) v i k = rw e (restart-IsKept y epoch at chat id k)

-- an id given out stays among those given out
Step-is_issued :
    (y z : System) (id : EventId) → Step y z → is_issued id y ≡ true → is_issued id z ≡ true
unfolding any
Step-is_issued y z id (publish text at top h e) i = rw e (ground arith)
Step-is_issued y z id (wait text at e) i = rw e i
Step-is_issued y z id (ack at c other e) i = rw e i
Step-is_issued y z id (replace at recipients e) i = rw e i
Step-is_issued y z id (begin at reserve free e) i = rw e i
Step-is_issued y z id (written failure state revision f e) i = rw e i
Step-is_issued y z id (unwritten failure state revision f e) i = rw e i
Step-is_issued y z id (restart epoch at new e) i = rw e i

pub Reach-IsKept :
    (y z : System) (chat : ℕ) (id : EventId)
    → Reach y z
    → IsSound y
    → is_issued id y ≡ true
    → IsKept chat id y
    → IsKept chat id z × (is_issued id z ≡ true)
Reach-IsKept y z chat id here v i k = (k, i)
Reach-IsKept y z chat id (next {z = w} r st) v i k =
    let (kept, issued) = Reach-IsKept y w chat id r v i k in
    (
      Step-IsKept w z chat id st (Reach-IsSound y w r v) issued kept,
      Step-is_issued w z id st issued,
    )
