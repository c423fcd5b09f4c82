-- ===== src/Monitor/Dispatch/Limits.antt =====
-- How many checks run, and of which endpoints.
use vpn_director.Prelude.{
  ℕ, zero, suc, ◌+◌, ◌-◌, ◌≤◌, Text, text_eq, text_eq_iff, Bool, true, false, ◌&&◌, ◌||◌, not, List,
  [], ◌∷◌, ◌++◌, ◌≡◌, ◌∙◌, refl, length, take, drop, arith,
}
use vpn_director.Monitor.Entries.{bump}
use vpn_director.Monitor.State.{Monitor, Entries, at_key, smaller}
use vpn_director.Monitor.Dispatch.{
  count_busy, due_entries, sort_due, Started, start, start_each, note_lag, waiting_lag, dispatch,
}

-- an association list that stands for a map
unfoldable pub has_key : Text → Entries → Bool
has_key key [] = false
has_key key ((k, e) ∷ rest) = text_eq k key || has_key key rest

unfoldable pub is_map : Entries → Bool
is_map [] = true
is_map ((k, e) ∷ rest) = not (has_key k rest) && is_map rest

busy-absent :
    (entries : Entries) (key : Text)
    → has_key key entries ≡ false
    → at_key start entries key ≡ entries
unfolding has_key at_key
busy-absent [] key h = refl
busy-absent ((k, e) ∷ rest) key h = ground (arith, busy-absent rest key)

busy-start :
    (entries : Entries) (key : Text)
    → is_map entries ≡ true
    → count_busy (at_key start entries key) ≤ count_busy entries + 1
unfolding count_busy at_key is_map start
busy-start [] key h = omega arith
busy-start ((k, e) ∷ rest) key h =
    ground (arith, busy-start rest key, busy-absent rest key, text_eq_iff k key)

keys-start :
    (entries : Entries) (key k : Text) → has_key k (at_key start entries key) ≡ has_key k entries
unfolding has_key at_key
keys-start [] key k = refl
keys-start ((j, e) ∷ rest) key k = ground (arith, keys-start rest key k)

map-start : (entries : Entries) (key : Text) → is_map (at_key start entries key) ≡ is_map entries
unfolding is_map at_key
map-start [] key = refl
map-start ((k, e) ∷ rest) key = ground (arith, map-start rest key, keys-start rest key k)

busy-start_each :
    (due : Entries) (m : Monitor) (started : List Started)
    → is_map m.entries ≡ true
    → count_busy (start_each due m started).0.entries ≤ count_busy m.entries + length due
unfolding start_each
busy-start_each [] m started h = omega arith
busy-start_each ((key, e) ∷ rest) m started h =
    let next = at_key start m.entries key in
    let kept : is_map next ≡ true = map-start m.entries key ∙ h in
    let newer : Started = record {
      key = key;
      session = m.session;
      generation = m.generation;
      started = bump m.starts;
    } in
    omega (
      arith,
      busy-start m.entries key h,
      busy-start_each rest (record m { entries = next; starts = bump m.starts })
          (started ++ newer ∷ []) kept,
    )

length-take-le {ℓ} : {A : Type ℓ} (n : ℕ) (xs : List A) → length (take n xs) ≤ n
length-take-le zero xs = omega arith
length-take-le (suc n) [] = omega arith
length-take-le (suc n) (x ∷ xs) = omega (arith, length-take-le n xs)

entries-note_lag : (lag : ℕ) (m : Monitor) → (note_lag lag m).entries ≡ m.entries
unfolding note_lag
entries-note_lag lag m = ground arith

smaller-le : (a b : ℕ) → smaller a b ≤ a
unfolding smaller
smaller-le a b = ground arith

-- However many checks are due, a dispatch brings the number of checks that run to at most the
-- concurrency of the settings, or leaves it where it is if more ran already. The entries stand for
-- a map.
pub dispatch-limit :
    (now : ℕ) (m : Monitor)
    → is_map m.entries ≡ true
    → count_busy (dispatch now m).0.entries
      ≤ count_busy m.entries + (m.settings.concurrency - count_busy m.entries)
unfolding dispatch
dispatch-limit now m h =
    let due = sort_due m.order (due_entries now m.entries) in
    let n = smaller (m.settings.concurrency - count_busy m.entries) (length due) in
    let after = start_each (take n due) m [] in
    let bound : n ≤ m.settings.concurrency - count_busy m.entries =
      smaller-le (m.settings.concurrency - count_busy m.entries) (length due) in
    rw (entries-note_lag (waiting_lag now (drop n due)) after.0)
      (omega (arith, busy-start_each (take n due) m [] h, length-take-le n due, bound))
