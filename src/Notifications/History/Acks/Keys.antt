-- ===== src/Notifications/History/Acks/Keys.antt =====
-- No chat has two queues over a history: the store, its file and the write under way.
use vpn_director.Prelude.{
  ℕ, Text, true, Option, none, some, ◌≡◌, sym, refl, arith, Bool-cases, inl, inr,
}
use vpn_director.Notifications.State.{Store, StoreError, prune, defer}
use vpn_director.Notifications.Saves.{
  SavedState, begin_save, start_of, state_to_save, snapshot, finish_save, load_store, new_store,
  restored_store, valid_saved_state,
}
use vpn_director.Notifications.History.{
  System, start_writing, Step, publish, wait, ack, replace, begin, written, unwritten, restart,
  Reach, here, next, first_start,
}
use vpn_director.Notifications.History.Acks.Maps.{
  is_map, prune_map, append_event_map, ack_event_map, replace_recipients_map,
}

pub started_lists :
    (reserve : ℕ) (s : Store) (state : SavedState) (revision : ℕ)
    → start_writing (start_of reserve s) ≡ some (state, revision)
    → (state.recent ≡ s.recent) × (state.pending ≡ s.pending) × (state.closed ≡ s.closed)
unfolding start_of start_writing state_to_save snapshot
started_lists reserve s state revision e = ground arith

pub finished_lists :
    (failure : Option StoreError) (state : SavedState) (revision : ℕ) (s : Store)
    → ((finish_save failure state revision s).recent ≡ s.recent)
      × ((finish_save failure state revision s).pending ≡ s.pending)
      × ((finish_save failure state revision s).closed ≡ s.closed)
unfolding finish_save
finished_lists none state revision s = (refl, refl, refl)
finished_lists (some f) state revision s = (refl, refl, refl)

record IsMapped (y : System) : Type 0 where
  in_store : is_map y.store.pending ≡ true
  on_file : (state : SavedState) → y.file ≡ some state → is_map state.pending ≡ true
  in_flight :
      (state : SavedState) (revision : ℕ)
      → y.writing ≡ some (state, revision)
      → is_map state.pending ≡ true

loaded_map :
    (epoch : Text) (file : Option SavedState)
    → ((state : SavedState) → file ≡ some state → is_map state.pending ≡ true)
    → is_map (load_store epoch file).pending ≡ true
unfolding load_store new_store restored_store is_map
loaded_map epoch none h = refl
loaded_map epoch (some state) h = elim (Bool-cases (valid_saved_state state)) [
  | inl valid ↦ rw valid (h state refl)
  | inr invalid ↦ rw invalid refl
]

started_map :
    (reserve : ℕ) (s : Store) (state : SavedState) (revision : ℕ)
    → is_map s.pending ≡ true
    → start_writing (start_of reserve s) ≡ some (state, revision)
    → is_map state.pending ≡ true
started_map reserve s state revision h e =
    let (a, b, c) = started_lists reserve s state revision e in rw b h

finished_map :
    (failure : Option StoreError) (state : SavedState) (revision : ℕ) (s : Store)
    → is_map s.pending ≡ true
    → is_map (finish_save failure state revision s).pending ≡ true
finished_map failure state revision s h =
    let (a, b, c) = finished_lists failure state revision s in rw b h

Step-IsMapped : (y z : System) → Step y z → IsMapped y → IsMapped z
unfolding defer begin_save
Step-IsMapped y z (publish text at top h e) m = rw e (record {
  in_store = append_event_map text at (prune at y.store) (prune_map at y.store m.in_store);
  on_file = m.on_file;
  in_flight = m.in_flight;
})
Step-IsMapped y z (wait text at e) m =
    rw e (record { in_store = m.in_store; on_file = m.on_file; in_flight = m.in_flight })
Step-IsMapped y z (ack at chat id e) m = rw e (record {
  in_store = ack_event_map at chat id y.store m.in_store;
  on_file = m.on_file;
  in_flight = m.in_flight;
})
Step-IsMapped y z (replace at recipients e) m = rw e (record {
  in_store = replace_recipients_map at recipients y.store;
  on_file = m.on_file;
  in_flight = m.in_flight;
})
Step-IsMapped y z (begin at reserve free e) m = rw e (record {
  in_store = prune_map at y.store m.in_store;
  on_file = m.on_file;
  in_flight = λ state revision w.
      started_map reserve (prune at y.store) state revision (prune_map at y.store m.in_store) w;
})
Step-IsMapped y z (written failure state revision f e) m = rw e (record {
  in_store = finished_map failure state revision y.store m.in_store;
  on_file =
      λ other h. let same : state ≡ other = cc in rw (sym same) (m.in_flight state revision f);
  in_flight = λ other r h. cc;
})
Step-IsMapped y z (unwritten failure state revision f e) m = rw e (record {
  in_store = finished_map (some failure) state revision y.store m.in_store;
  on_file = m.on_file;
  in_flight = λ other r h. cc;
})
Step-IsMapped y z (restart epoch at new e) m = rw e (record {
  in_store = prune_map at (load_store epoch y.file) (loaded_map epoch y.file m.on_file);
  on_file = m.on_file;
  in_flight = λ other r h. cc;
})

first_start-IsMapped : (epoch : Text) → IsMapped (first_start epoch)
unfolding first_start new_store is_map load_store
first_start-IsMapped epoch = record {
  in_store = refl;
  on_file = λ state h. cc;
  in_flight = λ state r h. cc;
}

Reach-IsMapped : (y z : System) → Reach y z → IsMapped y → IsMapped z
Reach-IsMapped y z here m = m
Reach-IsMapped y z (next {z = w} r st) m = Step-IsMapped w z st (Reach-IsMapped y w r m)

-- the pending list of a reachable store stands for a map
pub reached_map :
    (epoch : Text) (y : System) → Reach (first_start epoch) y → is_map y.store.pending ≡ true
reached_map epoch y r =
    (Reach-IsMapped (first_start epoch) y r (first_start-IsMapped epoch)).in_store
