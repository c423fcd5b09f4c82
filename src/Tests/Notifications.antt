-- ===== src/Tests/Notifications.antt =====
-- Tests of the notification store, and its theorems at concrete inputs.
use vpn_director.Prelude.{
  all, ℕ, ◌+◌, ◌≤◌, Text, runes, true, false, none, some, List, [], ◌∷◌, ◌≡◌, refl, keep_if, arith,
}
use vpn_director.Notifications.Events.{EventId, StoredEvent, bounded_events, max_uint64, keep_all}
use vpn_director.Notifications.Events.Bounded.{last, passes, bounded_events-last}
use vpn_director.Notifications.State.{Recipient, prune, append_event, ack_event, queue_of, is_live}
use vpn_director.Notifications.Recipients.{replace_recipients}
use vpn_director.Notifications.Saves.{SavedState, state_to_save, load_store}
use vpn_director.Notifications.Pages.{Sizes, Message, messages_to, follow}
use vpn_director.Notifications.Pages.Follow.{is_before, is_ordered, fits_alone, follow_everything}
use vpn_director.Notifications.History.{
  run_history, System, Step, replace, restart, Reach, here, next, first_start,
}
use vpn_director.Notifications.History.Leases.{distinct_ids}
use vpn_director.Notifications.History.Unique.{Reach-distinct_ids}
use vpn_director.Notifications.History.Sizes.{IsShort, Reach-IsShort}
use vpn_director.Notifications.Operations.{Attempt, World, stored, publish}
use vpn_director.Notifications.Operations.Publishes.{IsPublished, publish_ends}
use vpn_director.Notifications.History.Acks.Forever.{acked, begun, put_in_file, acked_for_good}

abbrev epoch : Text
epoch = runes "0123456789abcdef0123456789abcdef"

abbrev hello : Text
hello = runes "hello"

abbrev reader : Recipient
reader = record { chat_id = 7; first_seen = 3 }

abbrev with_reader : System
with_reader = record (first_start epoch) {
  store = replace_recipients 4 (reader ∷ []) (first_start epoch).store;
}

abbrev published : System
published = record with_reader {
  store = (append_event hello 5 (prune 5 with_reader.store)).0;
  issued = (append_event hello 5 (prune 5 with_reader.store)).1 ∷ with_reader.issued;
}

abbrev first_id : EventId
first_id = record { epoch = epoch; sequence = 1 }

published-Reach : Reach (first_start epoch) published
unfolding run_history
published-Reach =
    next (next here (replace 4 (reader ∷ []) refl))
      (Step.publish hello 5 (omega arith) (omega arith) refl)

Reach-distinct_ids_example :
    (distinct_ids published.issued ≡ true) × (published.store.sequence ≤ max_uint64)
Reach-distinct_ids_example = Reach-distinct_ids epoch published published-Reach

Reach-IsShort_example : IsShort published.store
Reach-IsShort_example = Reach-IsShort epoch published published-Reach

abbrev saved : SavedState
saved = state_to_save 0 (prune 7 (ack_event 6 7 first_id published.store))

abbrev closed_system : System
closed_system = put_in_file none saved 5 (begun 7 (acked 6 7 first_id published))

abbrev later_system : System
later_system = record closed_system {
  store = prune 9 (load_store hello closed_system.file);
  writing = none;
}

delivered : is_live (queue_of published.store.pending 7) first_id ≡ true
unfolding run_history
delivered = refl

-- the acknowledgement saved, a crash, and the next start
saved_writing : (begun 7 (acked 6 7 first_id published)).writing ≡ some (saved, 5)
unfolding run_history
saved_writing = refl

later-Reach : Reach closed_system later_system
unfolding run_history
later-Reach = next here (restart hello 9 refl refl)

acked_for_good_example : is_live (queue_of later_system.store.pending 7) first_id ≡ false
unfolding run_history
acked_for_good_example =
    acked_for_good epoch published later_system 6 7 7 5 first_id none saved published-Reach refl
      refl saved_writing later-Reach

abbrev three_events : List StoredEvent
three_events =
    record { event_id = first_id; at = 5; text = hello }
    ∷ record { event_id = record { epoch = epoch; sequence = 2 }; at = 6; text = hello }
    ∷ record { event_id = record { epoch = epoch; sequence = 3 }; at = 7; text = hello }
    ∷ []

bounded_events-last_example :
    bounded_events 8 2 keep_all three_events ≡ last 2 (keep_if (passes 8 keep_all) three_events)
bounded_events-last_example = bounded_events-last 8 2 keep_all three_events (omega arith)

abbrev disk : ℕ → Attempt
disk n = record { at = 9 + n; ending = stored }

abbrev world : World
world = record { store = published.store; file = none; saves = 0 }

publish_ends_example : IsPublished hello 9 world (publish disk hello 9 world)
unfolding run_history
publish_ends_example = publish_ends disk hello 9 world (omega arith)

abbrev sizes : Sizes
sizes = record { message = λ m. 6_000_000; cursor = λ c. 50; empty_page = 20 }

abbrev three_messages : List Message
three_messages = messages_to 7 three_events

-- two of the messages fill a page
follow_everything_example : follow 4 sizes epoch none three_messages ≡ some three_messages
unfolding messages_to
follow_everything_example =
    follow_everything sizes epoch three_messages 4 (unfold is_ordered is_before all in refl)
      (unfold fits_alone all in refl) (omega arith)
