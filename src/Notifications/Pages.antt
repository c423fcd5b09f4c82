-- ===== src/Notifications/Pages.antt =====
-- The pages in which the transport takes the pending events: `Pending` of
-- server/internal/notifications/store.go. The length of an encoded message, of a cursor and of an
-- empty page are arguments.
pub mod Follow
use vpn_director.Prelude.{
  ℕ, zero, suc, ◌+◌, Text, text_eq, Bool, true, false, ◌&&◌, ◌||◌, not, Option, none, some, List,
  [], ◌∷◌, ◌++◌, if◌then◌else◌, ◌==◌, ltb, leb, length, map,
}
use vpn_director.Notifications.Events.{EventId, StoredEvent, max_uint64}
use vpn_director.Notifications.State.{
  Store, StoreError, unavailable, bad_cursor, Queues, is_empty, prune,
}

abbrev pub page_size : ℕ
page_size = 100

abbrev pub max_page_bytes : ℕ
max_page_bytes = 16_777_216

-- one event of one chat
pub record Message : Type 0 where
  pub chat_id : ℕ
  pub event : StoredEvent

-- a cursor that parses, by its parts; none is the empty one
pub record Cursor : Type 0 where
  pub epoch : Text
  pub chat_id : ℕ
  pub sequence : ℕ

pub record Sizes : Type 0 where
  pub message : Message → ℕ
  pub cursor : Cursor → ℕ
  pub empty_page : ℕ

pub data Page : Type 0 where
  page : List Message → Option Cursor → Page
  too_big : List Message → Page
  refused : StoreError → Page

unfoldable pub insert_queue : ℕ × List StoredEvent → Queues → Queues
insert_queue queue [] = queue ∷ []
insert_queue queue (q ∷ qs) =
    let rest = insert_queue queue qs in if ltb q.0 queue.0 then q ∷ rest else queue ∷ q ∷ qs

unfoldable pub sort_queues : Queues → Queues
sort_queues [] = []
sort_queues (q ∷ qs) = insert_queue q (sort_queues qs)

unfoldable pub messages_to : ℕ → List StoredEvent → List Message
messages_to chat [] = []
messages_to chat (event ∷ events) =
    record { chat_id = chat; event = event } ∷ messages_to chat events

-- the pending events in the order of the loops
unfoldable pub all_messages : Queues → List Message
all_messages [] = []
all_messages ((chat, queue) ∷ rest) = messages_to chat queue ++ all_messages rest

-- `pageCursor` of a message
unfoldable pub cursor_of : Text → Message → Cursor
cursor_of epoch m = record {
  epoch = epoch;
  chat_id = m.chat_id;
  sequence = m.event.event_id.sequence;
}

unfoldable pub is_past : Option Cursor → Message → Bool
is_past none m = false
is_past (some c) m =
    ltb m.chat_id c.chat_id || (m.chat_id == c.chat_id && leb m.event.event_id.sequence c.sequence)

-- a page that ends before a message
unfoldable pub stop_at : Text → List Message → Option Message → Page
stop_at epoch messages none = too_big messages
stop_at epoch messages (some last) = page messages (some (cursor_of epoch last))

unfoldable pub next_size : Sizes → Text → Message → List Message → ℕ
next_size sizes epoch m rest = if is_empty rest then 0 else sizes.cursor (cursor_of epoch m)

unfoldable pub is_some_message : Option Message → Bool
is_some_message none = false
is_some_message (some m) = true

-- the bytes that a message adds, with the comma before all but the first
unfoldable pub delta : Sizes → Option Message → Message → ℕ
delta sizes last m = if is_some_message last then sizes.message m + 1 else sizes.message m

-- the loop over the messages past the cursor, with those taken, the last of them, and their bytes
unfoldable pub fill :
    Sizes → Text → Option Cursor → List Message → List Message → Option Message → ℕ → Page
fill sizes epoch cursor [] taken last encoded = page taken none
fill sizes epoch cursor (m ∷ rest) taken last encoded =
    let skipped = fill sizes epoch cursor rest taken last encoded in
    let more =
      fill sizes epoch cursor rest (taken ++ m ∷ []) (some m) (encoded + delta sizes last m) in
    if is_past cursor m
    then skipped
    else if length taken == page_size
        || leb max_page_bytes (encoded + delta sizes last m + next_size sizes epoch m rest)
    then stop_at epoch taken last
    else more

unfoldable pub valid_cursor : Store → Option Cursor → Bool
valid_cursor s none = true
valid_cursor s (some c) =
    text_eq c.epoch s.epoch
    && not (c.chat_id == 0)
    && not (c.sequence == 0)
    && leb c.sequence s.sequence

-- `Pending`
unfoldable pub pending_page : Sizes → ℕ → Option Cursor → Store → Store × Page
pending_page sizes at cursor s =
    if not s.opened
    then (s, refused unavailable)
    else if not (valid_cursor s cursor)
    then (s, refused bad_cursor)
    else (
      prune at s,
      fill sizes s.epoch cursor (all_messages (sort_queues (prune at s).pending)) [] none
          (sizes.empty_page + 1),
    )

-- the pages that a reader of one moment takes, from a cursor to the end
unfoldable pub follow : ℕ → Sizes → Text → Option Cursor → List Message → Option (List Message)
follow zero sizes epoch cursor messages = none
follow (suc fuel) sizes epoch cursor messages =
    let first = fill sizes epoch cursor messages [] none (sizes.empty_page + 1) in
    elim first [
      | page taken none ↦ some taken
      | page taken (some next) ↦ (elim (follow fuel sizes epoch (some next) messages) [
        | none ↦ none
        | some rest ↦ some (taken ++ rest)
      ])
      | too_big taken ↦ none
      | refused failure ↦ none
    ]
