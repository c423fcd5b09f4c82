-- ===== src/Notifications/History/Leases.antt =====
-- What keeps the ids of the store apart: the leases in its file, step by step.
use mathlib.Core.Path.{subst}
use vpn_director.Prelude.{
  ℕ, ◌+◌, ◌<◌, ◌≤◌, Text, Bool, true, false, Option, none, some, List, [], ◌∷◌, ◌≡◌, sym, refl,
  text_eq, text_eq_iff, any, all, not, ◌&&◌, ◌||◌, leb, ltb, arith,
}
use vpn_director.Notifications.Events.{EventId, id_eq, max_uint64}
use vpn_director.Notifications.State.{Store, StoreError, prune, next_event, append_event}
use vpn_director.Notifications.Saves.{
  SavedState, max, next_reserve, snapshot, state_to_save, start_of, begin_save, finish_save,
}
use vpn_director.Notifications.History.{System, start_writing}

-- no id twice
unfoldable pub distinct_ids : List EventId → Bool
distinct_ids [] = true
distinct_ids (id ∷ ids) = not (any (λ other. id_eq other id) ids) && distinct_ids ids

-- an id of the epoch is at most the bound
unfoldable pub is_within : Text → ℕ → EventId → Bool
is_within epoch bound id = not (text_eq id.epoch epoch) || leb id.sequence bound

-- a saved state covers the ids given out and what its own process may give out yet
abbrev pub Covers : SavedState → System → Type 0
Covers state y =
    (all (is_within state.epoch state.reserved_through) y.issued ≡ true)
    × ((text_eq state.epoch y.store.epoch && ltb state.reserved_through y.store.reserved_through)
        ≡ false)
    × (state.reserved_through ≤ max_uint64)

-- a state that a store has handed to a write
abbrev pub Follows : SavedState → Store → Type 0
Follows state s =
    (state.epoch ≡ s.epoch)
    × (s.reserved_through ≤ state.reserved_through)
    × (state.reserved_through ≤ max_uint64)

pub record IsSound (y : System) : Type 0 where
  pub distinct : distinct_ids y.issued ≡ true
  pub counted : all (is_within y.store.epoch y.store.sequence) y.issued ≡ true
  pub leased : y.store.sequence ≤ y.store.reserved_through
  pub bounded : y.store.reserved_through ≤ max_uint64
  pub on_file : (state : SavedState) → y.file ≡ some state → Covers state y
  pub in_flight :
      (state : SavedState) (revision : ℕ)
      → y.writing ≡ some (state, revision)
      → Follows state y.store

unissued :
    (epoch : Text) (n : ℕ) (ids : List EventId)
    → all (is_within epoch n) ids ≡ true
    → any (λ other. id_eq other (record { epoch = epoch; sequence = n + 1 })) ids ≡ false
unfolding any all is_within id_eq
unissued epoch n [] h = refl
unissued epoch n (id ∷ ids) h = ground (arith, unissued epoch n ids)

within_mono :
    (epoch : Text) (m n : ℕ) (ids : List EventId)
    → m ≤ n
    → all (is_within epoch m) ids ≡ true
    → all (is_within epoch n) ids ≡ true
unfolding all is_within
within_mono epoch m n [] h a = refl
within_mono epoch m n (id ∷ ids) h a = ground (arith, within_mono epoch m n ids h)

pub within_new :
    (epoch : Text) (n : ℕ) (ids : List EventId)
    → any (λ id. text_eq id.epoch epoch) ids ≡ false
    → all (is_within epoch n) ids ≡ true
unfolding all any is_within
within_new epoch n [] h = refl
within_new epoch n (id ∷ ids) h = ground (arith, within_new epoch n ids)

-- a step that moves no counter, gives out no id and writes nothing
pub quiet-IsSound :
    (y : System) (s : Store)
    → s.epoch ≡ y.store.epoch
    → s.sequence ≡ y.store.sequence
    → s.reserved_through ≡ y.store.reserved_through
    → IsSound y
    → IsSound (record y { store = s })
quiet-IsSound y s e n r v = record {
  distinct = v.distinct;
  counted = rw (e, n) v.counted;
  leased = omega (arith, n, r, v.leased);
  bounded = omega (arith, r, v.bounded);
  on_file = λ state f. rw (e, r) (v.on_file state f);
  in_flight = λ state revision f. rw (e, r) (v.in_flight state revision f);
}

pub publish-IsSound :
    (y : System) (text : Text) (at : ℕ)
    → (prune at y.store).sequence < (prune at y.store).reserved_through
    → IsSound y
    → IsSound (record y {
      store = (append_event text at (prune at y.store)).0;
      issued = (append_event text at (prune at y.store)).1 ∷ y.issued;
    })
unfolding append_event next_event prune distinct_ids all
publish-IsSound y text at h v = record {
  distinct = ground (arith, v.distinct, unissued y.store.epoch y.store.sequence y.issued v.counted);
  counted = ground (
    arith,
    newest,
    within_mono y.store.epoch y.store.sequence (y.store.sequence + 1) y.issued (omega arith)
        v.counted,
  );
  leased = omega (arith, h);
  bounded = v.bounded;
  on_file =
      λ state f. let (a, b, c) = v.on_file state f in (ground (arith, a, filed state b), b, c);
  in_flight = v.in_flight;
}
  where
    newest :
        is_within y.store.epoch
          (y.store.sequence + 1)
          (record { epoch = y.store.epoch; sequence = y.store.sequence + 1 })
        ≡ true
    newest = unfold is_within in ground arith

    filed :
        (state : SavedState)
        → (text_eq state.epoch y.store.epoch && ltb state.reserved_through y.store.reserved_through)
          ≡ false
        → is_within state.epoch state.reserved_through
            (record { epoch = y.store.epoch; sequence = y.store.sequence + 1 })
          ≡ true
    filed state b =
        unfold is_within in
        ground (
          arith,
          b,
          h,
          text_eq_iff y.store.epoch state.epoch,
          text_eq_iff state.epoch y.store.epoch,
        )

start_of-Follows :
    (reserve : ℕ) (p : Store) (state : SavedState) (revision : ℕ)
    → p.sequence ≤ p.reserved_through
    → p.reserved_through ≤ max_uint64
    → start_writing (start_of reserve p) ≡ some (state, revision)
    → Follows state p
unfolding start_of start_writing state_to_save snapshot next_reserve max
start_of-Follows reserve p state revision l b e = ground arith

pub begin-IsSound :
    (y : System) (at reserve : ℕ)
    → IsSound y
    → IsSound (record y {
      store = (begin_save at reserve y.store).0;
      writing = start_writing (begin_save at reserve y.store).1;
    })
unfolding begin_save prune
begin-IsSound y at reserve v = record {
  distinct = v.distinct;
  counted = v.counted;
  leased = v.leased;
  bounded = v.bounded;
  on_file = v.on_file;
  in_flight = λ state revision e.
      start_of-Follows reserve (prune at y.store) state revision v.leased v.bounded e;
}

-- a finished save moves the lease at most to that of the state
finish_save-counters :
    (failure : Option StoreError) (state : SavedState) (revision : ℕ) (s : Store)
    → s.reserved_through ≤ state.reserved_through
    → ((finish_save failure state revision s).epoch ≡ s.epoch)
      × ((finish_save failure state revision s).sequence ≡ s.sequence)
      × (s.reserved_through ≤ (finish_save failure state revision s).reserved_through)
      × ((finish_save failure state revision s).reserved_through ≤ state.reserved_through)
unfolding finish_save max
finish_save-counters none state revision s h = ground arith
finish_save-counters (some f) state revision s h = (refl, refl, omega arith, h)

pub written-IsSound :
    (y : System) (failure : Option StoreError) (state : SavedState) (revision : ℕ)
    → y.writing ≡ some (state, revision)
    → IsSound y
    → IsSound (record y {
      store = finish_save failure state revision y.store;
      file = some state;
      writing = none;
    })
written-IsSound y failure state revision e v =
    let (same, low, high) = v.in_flight state revision e in
    let (epoch, sequence, grown, within) =
      finish_save-counters failure state revision y.store low in
    let covered : all (is_within state.epoch state.reserved_through) y.issued ≡ true =
      within_mono state.epoch y.store.sequence state.reserved_through y.issued
        (omega (arith, v.leased))
        (subst (λ t. all (is_within t y.store.sequence) y.issued ≡ true) (sym same) v.counted) in
    record {
      distinct = v.distinct;
      counted = rw (epoch, sequence) v.counted;
      leased = omega (arith, v.leased);
      bounded = omega arith;
      on_file = λ other f. filed other f (covered, beyond within, high);
      in_flight = λ other r f. cc;
    }
  where
    after : System
    after = record {
      store = finish_save failure state revision y.store;
      file = some state;
      writing = none;
      issued = y.issued;
    }

    beyond :
        (finish_save failure state revision y.store).reserved_through ≤ state.reserved_through
        → (text_eq state.epoch after.store.epoch
            && ltb state.reserved_through after.store.reserved_through)
          ≡ false
    beyond within = ground arith

    filed :
        (other : SavedState)
        → ◌≡◌ {A = Option SavedState} (some state) (some other)
        → Covers state after
        → Covers other after
    filed other f covers = let same : state ≡ other = cc in subst (λ o. Covers o after) same covers

pub unwritten-IsSound :
    (y : System) (failure : StoreError) (state : SavedState) (revision : ℕ)
    → IsSound y
    → IsSound
        (record y { store = finish_save (some failure) state revision y.store; writing = none })
unfolding finish_save
unwritten-IsSound y failure state revision v = record {
  distinct = v.distinct;
  counted = v.counted;
  leased = v.leased;
  bounded = v.bounded;
  on_file = v.on_file;
  in_flight = λ other r f. cc;
}
