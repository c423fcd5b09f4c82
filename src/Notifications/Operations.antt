-- ===== src/Notifications/Operations.antt =====
-- The operations of the opened store as one goroutine runs them, its saves included:
-- server/internal/notifications/store.go and persist.go. The disk says of each save when it is made
-- and how its write ends.
pub mod Rounds
pub mod Publishes
use vpn_director.Prelude.{
  ℕ, zero, suc, ◌+◌, ◌-◌, Text, Bool, true, false, ◌&&◌, ◌||◌, not, Option, none, some, List, [],
  ◌∷◌, if◌then◌else◌, ◌==◌, ltb, leb, length, text_eq, drop,
}
use vpn_director.Notifications.Events.{EventId, valid_id, max_uint64}
use vpn_director.Notifications.State.{
  Store, StoreError, unavailable, reserve_unsaved, deferred, sequence_exhausted, bad_event_id,
  WaitingEvent, Recipient, is_empty, prune, append_event, defer, ack_event,
}
use vpn_director.Notifications.Recipients.{replace_recipients}
use vpn_director.Notifications.Saves.{
  SavedState, SaveStart, exhausted, clean, write, begin_save, finish_save,
}

-- how the write of a save ends: the new state in the file, the same without the last sync of the
-- directory, or the old state with an error
pub data Ending : Type 0 where
  stored : Ending
  stored_unsynced : StoreError → Ending
  kept : StoreError → Ending

pub record Attempt : Type 0 where
  pub at : ℕ
  pub ending : Ending

pub record World : Type 0 where
  pub store : Store
  pub file : Option SavedState
  pub saves : ℕ

unfoldable pub ending_failure : Ending → Option StoreError
ending_failure stored = none
ending_failure (stored_unsynced f) = some f
ending_failure (kept f) = some f

unfoldable pub file_after : Ending → SavedState → Option SavedState → Option SavedState
file_after stored state file = some state
file_after (stored_unsynced f) state file = some state
file_after (kept f) state file = file

-- the write of a state and the second half of `saveLocked`
unfoldable pub write_state : Attempt → SavedState → ℕ → World → World × Option StoreError
write_state attempt state revision w = (
  record w {
    store = finish_save (ending_failure attempt.ending) state revision w.store;
    file = file_after attempt.ending state w.file;
  },
  ending_failure attempt.ending,
)

unfoldable pub run_start : Attempt → SaveStart → World → World × Option StoreError
run_start attempt exhausted w = (w, some sequence_exhausted)
run_start attempt clean w = (w, none)
run_start attempt (write state revision) w = write_state attempt state revision w

-- `publishAt`, with the save to call; no id and no error would be a loop that has not ended
unfoldable pub publish_at :
    (World → World × Option StoreError)
    → Text
    → ℕ
    → ℕ
    → World
    → World × Option EventId × Option StoreError
publish_at save_all text at zero w = (w, none, none)
publish_at save_all text at (suc fuel) w =
    let pruned = record w { store = prune at w.store } in
    let saving = save_all pruned in
    let again = publish_at save_all text at fuel saving.0 in
    let (appended, id) = append_event text at pruned.store in
    let last = save_all (record pruned { store = appended }) in
    if pruned.store.sequence == max_uint64
    then (pruned, none, some sequence_exhausted)
    else if leb pruned.store.reserved_through pruned.store.sequence
    then (elim saving.1 [ some f ↦ (saving.0, none, some reserve_unsaved) | none ↦ again ])
    else (last.0, some id, last.1)

-- the waiting events past one that has an id
unfoldable pub pop_waiting : Option EventId → World → World
pop_waiting none w = w
pop_waiting (some id) w = record w { store = record w.store { backlog = drop 1 w.store.backlog } }

unfoldable pub defer_in : Text → ℕ → World → World
defer_in text at w = record w { store = defer text at w.store }

unfoldable pub is_unsaved : Option StoreError → Bool
is_unsaved none = false
is_unsaved (some f) = elim f [ reserve_unsaved ↦ true | other ↦ false ]

-- an event with no lease saved for its id waits
unfoldable pub end_publish :
    Text
    → ℕ
    → World × Option EventId × Option StoreError
    → World × Option EventId × Option StoreError
end_publish text at (published, id, failure) =
    if is_unsaved failure
    then (defer_in text at published, none, some deferred)
    else (published, id, failure)

module _ (disk : ℕ → Attempt) where
  -- `saveLocked`
  unfoldable pub save : ℕ → World → World × Option StoreError
  save reserve w =
      let (pruned, start) = begin_save (disk w.saves).at reserve w.store in
      run_start (disk w.saves) start (record w { store = pruned; saves = w.saves + 1 })

  -- `drainLocked`, at most as many rounds as there are waiting events
  unfoldable pub drain : ℕ → World → World × Option StoreError
  drain zero w = (w, none)
  drain (suc rounds) w = elim w.store.backlog [
    | [] ↦ (w, none)
    | event ∷ rest ↦
        let (published, id, failure) = publish_at (save 0) event.text event.at 2 w in
        let more = drain rounds (pop_waiting id published) in
        elim failure [ some f ↦ (pop_waiting id published, some f) | none ↦ more ]
  ]

  -- `flushForEvents` of an opened store
  unfoldable pub flush_for_events : ℕ → World → World × Option StoreError
  flush_for_events reserve w =
      let saving = save reserve w in
      elim saving.1 [
        | some f ↦ (saving.0, some f)
        | none ↦ drain (length saving.0.store.backlog) saving.0
      ]

  -- `Publish`
  unfoldable pub publish : Text → ℕ → World → World × Option EventId × Option StoreError
  publish text at w =
      if not w.store.opened || not (is_empty w.store.backlog)
      then (defer_in text at w, none, some deferred)
      else end_publish text at (publish_at (flush_for_events 0) text at 2 w)

  -- `Ack`, of an id given by its parts
  unfoldable pub ack : ℕ → ℕ → EventId → World → World × Option StoreError
  ack at chat id w =
      if not w.store.opened
      then (w, some unavailable)
      else if not (valid_id id)
      then (w, some bad_event_id)
      else if text_eq id.epoch w.store.epoch && ltb w.store.sequence id.sequence
      then (w, some bad_event_id)
      else flush_for_events 0 (record w { store = ack_event at chat id w.store })

  -- `ReplaceRecipients`
  unfoldable pub replace : ℕ → List Recipient → World → World × Option StoreError
  replace at recipients w =
      if not w.store.opened
      then (w, some unavailable)
      else flush_for_events 0 (record w { store = replace_recipients at recipients w.store })
