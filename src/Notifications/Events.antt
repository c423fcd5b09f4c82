-- ===== src/Notifications/Events.antt =====
-- Events and their bounded lists: server/internal/notifications/store.go, and the event ids of
-- server/internal/watchdapi/notifications_server.go. An id that parses is the pair of its store's
-- epoch and its sequence, which its text "epoch:sequence" is made of. A time is a number of
-- nanoseconds.
pub mod Bounded
use vpn_director.Prelude.{
  ℕ, ◌+◌, ◌*◌, Text, Bool, true, false, ◌&&◌, ◌||◌, not, List, [], ◌∷◌, ◌++◌, if◌then◌else◌, ◌==◌,
  ltb, leb, text_eq, length, all, drop,
}
use vpn_director.VpnConfig.Names.{is_hex_digit}

abbrev pub max_per_chat : ℕ
max_per_chat = 20

abbrev pub max_recent : ℕ
max_recent = 20

-- twelve hours
abbrev pub max_age : ℕ
max_age = 43_200_000_000_000

abbrev pub max_uint64 : ℕ
max_uint64 = 18_446_744_073_709_551_615

pub record EventId : Type 0 where
  pub epoch : Text
  pub sequence : ℕ

unfoldable pub id_eq : EventId → EventId → Bool
id_eq a b = a.sequence == b.sequence && text_eq a.epoch b.epoch

pub record StoredEvent : Type 0 where
  pub event_id : EventId
  pub at : ℕ
  pub text : Text

unfoldable pub event_eq : StoredEvent → StoredEvent → Bool
event_eq a b = id_eq a.event_id b.event_id && a.at == b.at && text_eq a.text b.text

-- `sameEvents`
unfoldable pub same_events : List StoredEvent → List StoredEvent → Bool
same_events [] [] = true
same_events [] (b ∷ bs) = false
same_events (a ∷ rest) [] = false
same_events (a ∷ rest) (b ∷ bs) = event_eq a b && same_events rest bs

unfoldable pub is_fresh : ℕ → StoredEvent → Bool
is_fresh at event = not (ltb (event.at + max_age) at)

-- an event behind those kept, the oldest of which gives way at the limit
unfoldable pub push_bounded : ℕ → List StoredEvent → StoredEvent → List StoredEvent
push_bounded limit kept event =
    if length kept == limit then drop 1 kept ++ event ∷ [] else kept ++ event ∷ []

unfoldable pub bounded_loop :
    ℕ → ℕ → (StoredEvent → Bool) → List StoredEvent → List StoredEvent → List StoredEvent
bounded_loop at limit keep [] kept = kept
bounded_loop at limit keep (event ∷ events) kept =
    bounded_loop at limit keep events
      (if not (is_fresh at event) || not (keep event) then kept else push_bounded limit kept event)

-- `boundedEvents`; where the code passes no test, `keep` is always true
unfoldable pub bounded_events : ℕ → ℕ → (StoredEvent → Bool) → List StoredEvent → List StoredEvent
bounded_events at limit keep events = bounded_loop at limit keep events []

abbrev pub keep_all : StoredEvent → Bool
keep_all event = true

-- `validEpoch`
unfoldable pub valid_epoch : Text → Bool
valid_epoch epoch = length epoch == 32 && all is_hex_digit epoch

-- `ParseEventID`, of an id given by its parts
unfoldable pub valid_id : EventId → Bool
valid_id id = valid_epoch id.epoch && ltb 0 id.sequence && leb id.sequence max_uint64
