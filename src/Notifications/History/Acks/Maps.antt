-- ===== src/Notifications/History/Acks/Maps.antt =====
-- Association lists that stand for the maps of the store, operation by operation:
-- server/internal/notifications/store.go and recipients.go.
use vpn_director.Prelude.{
  ℕ, Text, Bool, true, false, List, [], ◌∷◌, ◌++◌, ◌≡◌, refl, arith, any, ◌&&◌, not, ◌==◌, ltb,
  Option-cases, Bool-cases, inl, inr,
}
use vpn_director.Notifications.Events.{StoredEvent, EventId}
use vpn_director.Notifications.State.{
  Store, Recipient, Queues, Progress, find_chat, put_chat, drop_chat, queue_of, unacked,
  prune_pending, prune, next_event, append_pending, append_event, ack_pending, ack_event,
}
use vpn_director.Notifications.Recipients.{merged_pending, next_recipients, replace_recipients}

module _ {ℓ} {A : Type ℓ} where
  -- no chat twice
  unfoldable pub is_map : List (ℕ × A) → Bool
  is_map [] = true
  is_map ((chat, a) ∷ rest) = not (any (λ entry. entry.0 == chat) rest) && is_map rest

  absent-drop_chat :
      (entries : List (ℕ × A)) (chat c : ℕ)
      → any (λ entry. entry.0 == c) entries ≡ false
      → any (λ entry. entry.0 == c) (drop_chat entries chat) ≡ false
  unfolding drop_chat any
  absent-drop_chat [] chat c h = refl
  absent-drop_chat ((d, a) ∷ rest) chat c h = ground (arith, absent-drop_chat rest chat c)

  dropped-drop_chat :
      (entries : List (ℕ × A)) (chat : ℕ)
      → any (λ entry. entry.0 == chat) (drop_chat entries chat) ≡ false
  unfolding drop_chat any
  dropped-drop_chat [] chat = refl
  dropped-drop_chat ((d, a) ∷ rest) chat = ground (arith, dropped-drop_chat rest chat)

  map-drop_chat :
      (entries : List (ℕ × A)) (chat : ℕ)
      → is_map entries ≡ true
      → is_map (drop_chat entries chat) ≡ true
  unfolding drop_chat is_map
  map-drop_chat [] chat h = refl
  map-drop_chat ((d, a) ∷ rest) chat h =
      ground (arith, map-drop_chat rest chat, absent-drop_chat rest chat d)

  map-put_chat :
      (entries : List (ℕ × A)) (chat : ℕ) (a : A)
      → is_map entries ≡ true
      → is_map (put_chat entries chat a) ≡ true
  unfolding put_chat is_map
  map-put_chat entries chat a h =
      ground (arith, map-drop_chat entries chat h, dropped-drop_chat entries chat)

absent-prune_pending :
    (at chat : ℕ) (recipients : List (ℕ × Recipient)) (closed : List (ℕ × Progress))
    (pending : Queues)
    → any (λ entry. entry.0 == chat) pending ≡ false
    → any (λ entry. entry.0 == chat) (prune_pending at recipients closed pending) ≡ false
unfolding prune_pending any
absent-prune_pending at chat recipients closed [] h = refl
absent-prune_pending at chat recipients closed ((c, queue) ∷ rest) h =
    ground (arith, absent-prune_pending at chat recipients closed rest)

pub prune_pending_map :
    (at : ℕ) (recipients : List (ℕ × Recipient)) (closed : List (ℕ × Progress)) (pending : Queues)
    → is_map pending ≡ true
    → is_map (prune_pending at recipients closed pending) ≡ true
unfolding prune_pending is_map
prune_pending_map at recipients closed [] m = refl
prune_pending_map at recipients closed ((c, queue) ∷ rest) m = ground (
  arith,
  prune_pending_map at recipients closed rest,
  absent-prune_pending at c recipients closed rest,
)

map-append_pending :
    (event : StoredEvent) (recipients : List (ℕ × Recipient)) (pending : Queues)
    → is_map pending ≡ true
    → is_map (append_pending event recipients pending) ≡ true
unfolding append_pending
map-append_pending event [] pending h = h
map-append_pending event ((c, r) ∷ rest) pending h = ground (
  arith,
  map-append_pending event rest pending h,
  map-append_pending event rest (put_chat pending c (queue_of pending c ++ event ∷ [])),
  map-put_chat pending c (queue_of pending c ++ event ∷ []) h,
)

map-ack_pending :
    (pending : Queues) (chat : ℕ) (id : EventId)
    → is_map pending ≡ true
    → is_map (ack_pending pending chat id) ≡ true
unfolding ack_pending
map-ack_pending pending chat id h = ground (
  arith,
  map-drop_chat pending chat h,
  map-put_chat pending chat (unacked id (queue_of pending chat)) h,
)

map-next_recipients :
    (recipients : List Recipient) (next : List (ℕ × Recipient))
    → is_map next ≡ true
    → is_map (next_recipients recipients next) ≡ true
unfolding next_recipients
map-next_recipients [] next h = h
map-next_recipients (r ∷ rest) next h = elim (Option-cases (find_chat next r.chat_id)) [
  | inl e ↦
      rw e (map-next_recipients rest (put_chat next r.chat_id r) (map-put_chat next r.chat_id r h))
  | inr (previous, e) ↦ elim (Bool-cases (ltb r.first_seen previous.first_seen)) [
    | inl b ↦
        rw (e, b)
          (map-next_recipients rest (put_chat next r.chat_id r) (map-put_chat next r.chat_id r h))
    | inr b ↦ rw (e, b) (map-next_recipients rest next h)
  ]
]

absent-merged_pending :
    (at : ℕ) (s : Store) (next : List (ℕ × Recipient)) (chat : ℕ)
    → any (λ entry. entry.0 == chat) next ≡ false
    → any (λ entry. entry.0 == chat) (merged_pending at s next) ≡ false
unfolding merged_pending any
absent-merged_pending at s [] chat h = refl
absent-merged_pending at s ((c, r) ∷ rest) chat h =
    ground (arith, absent-merged_pending at s rest chat)

map-merged_pending :
    (at : ℕ) (s : Store) (next : List (ℕ × Recipient))
    → is_map next ≡ true
    → is_map (merged_pending at s next) ≡ true
unfolding merged_pending is_map
map-merged_pending at s [] h = refl
map-merged_pending at s ((c, r) ∷ rest) h =
    ground (arith, map-merged_pending at s rest, absent-merged_pending at s rest c)

pub prune_map : (at : ℕ) (s : Store) → is_map s.pending ≡ true → is_map (prune at s).pending ≡ true
unfolding prune
prune_map at s h = prune_pending_map at s.recipients (prune at s).closed s.pending h

pub append_event_map :
    (text : Text) (at : ℕ) (s : Store)
    → is_map s.pending ≡ true
    → is_map (append_event text at s).0.pending ≡ true
unfolding append_event
append_event_map text at s h =
    prune_map at _ (map-append_pending (next_event s text at) s.recipients s.pending h)

pub ack_event_map :
    (at chat : ℕ) (id : EventId) (s : Store)
    → is_map s.pending ≡ true
    → is_map (ack_event at chat id s).pending ≡ true
unfolding ack_event
ack_event_map at chat id s h = map-ack_pending (prune at s).pending chat id (prune_map at s h)

pub replace_recipients_map :
    (at : ℕ) (recipients : List Recipient) (s : Store)
    → is_map (replace_recipients at recipients s).pending ≡ true
unfolding replace_recipients is_map
replace_recipients_map at recipients s =
    map-merged_pending at (prune at s) (next_recipients recipients [])
      (map-next_recipients recipients [] refl)
