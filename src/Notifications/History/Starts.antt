-- ===== src/Notifications/History/Starts.antt =====
-- A start of the store, the first one too, goes on behind the leases of its file.
use mathlib.Core.Path.{subst}
use vpn_director.Prelude.{
  ℕ, ◌≤◌, Text, true, none, some, ◌≡◌, sym, refl, all, arith, Option-cases, Bool-cases, inl, inr,
}
use vpn_director.Notifications.Events.{max_uint64}
use vpn_director.Notifications.State.{Store, prune}
use vpn_director.Notifications.Saves.{
  SavedState, valid_saved_state, new_store, restored_store, load_store, sequence_reserve,
}
use vpn_director.Notifications.History.{System, is_new_epoch, first_start}
use vpn_director.Notifications.History.Leases.{distinct_ids, is_within, Covers, IsSound, within_new}

-- a loaded store goes on behind every id of its epoch
record IsLoaded (y : System) (s : Store) : Type 0 where
  counted : all (is_within s.epoch s.sequence) y.issued ≡ true
  leased : s.sequence ≤ s.reserved_through
  bounded : s.reserved_through ≤ max_uint64
  on_file : (state : SavedState) → y.file ≡ some state → Covers state (record y { store = s })

restart-IsSound :
    (y : System) (at : ℕ) (s : Store)
    → IsLoaded y s
    → distinct_ids y.issued ≡ true
    → IsSound (record y { store = prune at s; writing = none })
unfolding prune
restart-IsSound y at s l d = record {
  distinct = d;
  counted = l.counted;
  leased = l.leased;
  bounded = l.bounded;
  on_file = l.on_file;
  in_flight = λ other r f. cc;
}

new_store-IsLoaded :
    (y : System) (epoch : Text) (s : Store)
    → s.epoch ≡ epoch
    → s.sequence ≡ 0
    → s.reserved_through ≡ sequence_reserve
    → is_new_epoch epoch y ≡ true
    → IsSound y
    → IsLoaded y s
unfolding is_new_epoch
new_store-IsLoaded y epoch s e n r new v = record {
  counted = rw (e, n) (within_new epoch 0 y.issued (ground arith));
  leased = omega (arith, n, r);
  bounded = omega (arith, r);
  on_file = λ state f. let (a, b, c) = v.on_file state f in (a, ground arith, c);
}

restored_store-IsLoaded :
    (y : System) (state : SavedState)
    → y.file ≡ some state
    → IsSound y
    → IsLoaded y (restored_store state)
unfolding restored_store
restored_store-IsLoaded y state f v =
    let (a, b, c) = v.on_file state f in
    record {
      counted = a;
      leased = omega arith;
      bounded = c;
      on_file = λ other g. filed other g (a, ground arith, c);
    }
  where
    filed :
        (other : SavedState)
        → y.file ≡ some other
        → Covers state (record y { store = restored_store state })
        → Covers other (record y { store = restored_store state })
    filed other g covers =
        let same : state ≡ other = cc in
        subst (λ o. Covers o (record y { store = restored_store state })) same covers

load_store-IsLoaded :
    (y : System) (epoch : Text)
    → is_new_epoch epoch y ≡ true
    → IsSound y
    → IsLoaded y (load_store epoch y.file)
load_store-IsLoaded y epoch new v = elim (Option-cases y.file) [
  | inl e ↦
      new_store-IsLoaded y epoch (load_store epoch y.file)
        (unfold load_store new_store in ground arith) (unfold load_store new_store in ground arith)
        (unfold load_store new_store in ground arith) new v
  | inr (state, e) ↦ elim (Bool-cases (valid_saved_state state)) [
    | inl valid ↦
        let same : load_store epoch y.file ≡ restored_store state =
          unfold load_store in ground arith in
        subst (IsLoaded y) (sym same) (restored_store-IsLoaded y state e v)
    | inr invalid ↦
        new_store-IsLoaded y epoch (load_store epoch y.file)
          (unfold load_store new_store in ground arith)
          (unfold load_store new_store in ground arith)
          (unfold load_store new_store in ground arith) new v
  ]
]

pub load-IsSound :
    (y : System) (epoch : Text) (at : ℕ)
    → is_new_epoch epoch y ≡ true
    → IsSound y
    → IsSound (record y { store = prune at (load_store epoch y.file); writing = none })
load-IsSound y epoch at new v =
    restart-IsSound y at (load_store epoch y.file) (load_store-IsLoaded y epoch new v) v.distinct

pub first_start-IsSound : (epoch : Text) → IsSound (first_start epoch)
unfolding first_start load_store new_store distinct_ids all
first_start-IsSound epoch = record {
  distinct = refl;
  counted = refl;
  leased = omega arith;
  bounded = omega arith;
  on_file = λ state f. cc;
  in_flight = λ state r f. cc;
}
