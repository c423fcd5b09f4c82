-- ===== src/Notifications/Operations/Publishes.antt =====
-- How `Publish` ends.
use mathlib.Core.Path.{subst}
use vpn_director.Prelude.{
  ℕ, ◌≤◌, Text, Bool, true, false, ◌≡◌, sym, ◌⊎◌, inl, inr, refl, ◌||◌, not, Option, none, some,
  Bool-cases, List, [], ◌∷◌, ◌++◌, ◌==◌, length, arith,
}
use vpn_director.Notifications.Events.{EventId, max_recent, max_uint64}
use vpn_director.Notifications.State.{
  StoreError, deferred, sequence_exhausted, WaitingEvent, is_empty, prune, push_waiting, defer,
}
use vpn_director.Notifications.Operations.{
  Attempt, World, publish_at, flush_for_events, publish, defer_in, is_unsaved, end_publish,
}
use vpn_director.Notifications.Operations.Rounds.{
  IsEnd, publish_at-IsEnd, flush_for_events-IsSave, publish_deferred, publish_tried,
}

-- how a publication ends, of an event in a world
abbrev pub IsPublished : Text → ℕ → World → World × Option EventId × Option StoreError → Type 0
IsPublished text at w r =
    ((id : EventId) × (r.1 ≡ some id))
    ⊎ ((r.1 ≡ none)
        × (r.2 ≡ some deferred)
        × (before : List WaitingEvent) × (r.0.store.backlog
            ≡ before ++ (record { at = at; text = text }) ∷ []))
    ⊎ ((r.1 ≡ none) × (r.2 ≡ some sequence_exhausted) × (w.store.sequence ≡ max_uint64))

no_backlog :
    (opened : Bool) (backlog : List WaitingEvent)
    → not opened || not (is_empty backlog) ≡ false
    → backlog ≡ []
unfolding is_empty
no_backlog opened [] e = refl
no_backlog opened (event ∷ rest) e = absurd (ground arith)

push_waiting_last :
    (backlog : List WaitingEvent) (event : WaitingEvent)
    → (before : List WaitingEvent) × (push_waiting backlog event ≡ before ++ event ∷ [])
unfolding push_waiting
push_waiting_last [] event = ([], refl)
push_waiting_last (first ∷ rest) event = elim (Bool-cases (length (first ∷ rest) == max_recent)) [
  | inl e ↦ (rest, rw e refl)
  | inr e ↦ (first ∷ rest, rw e refl)
]

defer_in-IsPublished :
    (text : Text) (at : ℕ) (w v : World)
    → IsPublished text at w (defer_in text at v, none, some deferred)
unfolding defer_in defer
defer_in-IsPublished text at w v = inr (
    inl (
      refl,
      refl,
      (push_waiting_last v.store.backlog (record { at = at; text = text })).0,
      (push_waiting_last v.store.backlog (record { at = at; text = text })).1,
    ))

unsaved_end :
    (text : Text) (at : ℕ) (r : World × Option EventId × Option StoreError)
    → is_unsaved r.2 ≡ true
    → end_publish text at r ≡ (defer_in text at r.0, none, some deferred)
unfolding end_publish
unsaved_end text at r e = rw e refl

saved_end :
    (text : Text) (at : ℕ) (r : World × Option EventId × Option StoreError)
    → is_unsaved r.2 ≡ false
    → end_publish text at r ≡ r
unfolding end_publish
saved_end text at r e = rw e refl

saved-IsPublished :
    (text : Text) (at : ℕ) (w : World) (r : World × Option EventId × Option StoreError)
    → is_unsaved r.2 ≡ false
    → IsEnd w r
    → IsPublished text at w r
unfolding is_unsaved
saved-IsPublished text at w r e (inl h) = inr (inr h)
saved-IsPublished text at w r e (inr (inl (a, b, c))) = absurd (ground arith)
saved-IsPublished text at w r e (inr (inr h)) = inl h

end_publish-IsPublished :
    (text : Text) (at : ℕ) (w : World) (r : World × Option EventId × Option StoreError)
    → IsEnd w r
    → IsPublished text at w (end_publish text at r)
unfolding end_publish
end_publish-IsPublished text at w r h = elim (Bool-cases (is_unsaved r.2)) [
  | inl e ↦
      subst (IsPublished text at w) (sym (unsaved_end text at r e))
        (defer_in-IsPublished text at w r.0)
  | inr e ↦
      subst (IsPublished text at w) (sym (saved_end text at r e))
        (saved-IsPublished text at w r e h)
]

module _ (disk : ℕ → Attempt) (text : Text) (at : ℕ) (w : World)
    (b : w.store.sequence ≤ max_uint64) where
  -- Whatever the disk does, a publication to a store with its counter within 64 bits gives the
  -- event an id, or leaves it last in the backlog and says that it is deferred, or says that the
  -- ids are exhausted, with the counter at the largest 64-bit number.
  pub publish_ends : IsPublished text at w (publish disk text at w)
  unfolding prune
  publish_ends = elim (Bool-cases (not w.store.opened || not (is_empty w.store.backlog))) [
    | inl e ↦
        subst (IsPublished text at w) (sym (publish_deferred disk text at w e))
          (defer_in-IsPublished text at w w)
    | inr e ↦ subst (IsPublished text at w) (sym (publish_tried disk text at w e)) (
        end_publish-IsPublished text at w (publish_at (flush_for_events disk 0) text at 2 w) (
          publish_at-IsEnd (flush_for_events disk 0) text at w (
            flush_for_events-IsSave disk (record w { store = prune at w.store }) b
              (no_backlog w.store.opened w.store.backlog e))))
  ]
