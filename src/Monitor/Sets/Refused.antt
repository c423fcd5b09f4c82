-- ===== src/Monitor/Sets/Refused.antt =====
-- The endpoints that the generator refuses, and the checks that start.
use vpn_director.Prelude.{
  ℕ, zero, suc, ◌-◌, Text, text_eq, text_eq_iff, Bool, true, false, ◌||◌, not, List, [], ◌∷◌, ◌++◌,
  ◌≡◌, ◌∙◌, refl, if◌then◌else◌, ◌==◌, length, take, any, any-append, all, arith,
}
use vpn_director.Monitor.Entries.{same_status, Entry, bump, checkable, reject, rejected_state}
use vpn_director.Monitor.State.{Monitor, Entries, each, at_key, smaller, invalidate_evidence}
use vpn_director.Monitor.Dispatch.{
  is_due, count_busy, due_entries, insert_due, sort_due, Started, start, start_each, dispatch,
}
use vpn_director.Monitor.Dispatch.Limits.{has_key, is_map}
use vpn_director.Monitor.Sets.{
  Endpoint, Merge, put_key, held_entry, listed_entry, merge_listed, merge_refused, refuse_one,
  refused_entry, merged, merge, take_merge, has_new_identity,
}

-- no entry of the key is checkable
unfoldable is_out : Text → Entries → Bool
is_out key = all (λ entry. not (text_eq entry.0 key) || not (checkable entry.1))

key-put_key :
    (entries : Entries) (key k : Text) (e : Entry)
    → has_key key (put_key entries k e) ≡ (text_eq k key || has_key key entries)
unfolding has_key put_key
key-put_key [] key k e = refl
key-put_key ((j, d) ∷ rest) key k e =
    ground (arith, key-put_key rest key k e, text_eq_iff j k, text_eq_iff j key, text_eq_iff k key)

map-put_key :
    (entries : Entries) (k : Text) (e : Entry)
    → is_map entries ≡ true
    → is_map (put_key entries k e) ≡ true
unfolding is_map put_key has_key
map-put_key [] k e h = refl
map-put_key ((j, d) ∷ rest) k e h =
    ground (arith, map-put_key rest k e, key-put_key rest j k e, text_eq_iff j k, text_eq_iff k j)

absent_out :
    (key : Text) (entries : Entries) → has_key key entries ≡ false → is_out key entries ≡ true
unfolding has_key is_out all
absent_out key [] h = refl
absent_out key ((k, e) ∷ rest) h = ground (arith, absent_out key rest)

out-put_key :
    (entries : Entries) (key k : Text) (e : Entry)
    → is_map entries ≡ true
    → not (text_eq k key) || not (checkable e) ≡ true
    → text_eq k key || is_out key entries ≡ true
    → is_out key (put_key entries k e) ≡ true
unfolding is_out all put_key is_map
out-put_key [] key k e m c o = ground arith
out-put_key ((j, d) ∷ rest) key k e m c o = ground (
  arith,
  out-put_key rest key k e,
  absent_out key rest,
  absent_out j rest,
  text_eq_iff j k,
  text_eq_iff j key,
  text_eq_iff k key,
)

map-merge_listed :
    (now : ℕ) (m : Monitor) (eps : List Endpoint) (g : Merge)
    → is_map g.next ≡ true
    → is_map (merge_listed now m eps g).next ≡ true
unfolding merge_listed
map-merge_listed now m [] g h = h
map-merge_listed now m (ep ∷ eps) g h =
    map-merge_listed now m eps _
      (map-put_key g.next ep.key (listed_entry now ep (held_entry now m g.next ep.key).0) h)

map-refuse_one :
    (now : ℕ) (m : Monitor) (key reason : Text) (g : Merge)
    → is_map g.next ≡ true
    → is_map (refuse_one now m key reason g).next ≡ true
unfolding refuse_one
map-refuse_one now m key reason g h =
    map-put_key g.next key (refused_entry now reason (held_entry now m g.next key).0) h

not_checkable :
    (now : ℕ) (reason : Text) (e : Entry) → checkable (refused_entry now reason e) ≡ false
unfolding refused_entry reject rejected_state checkable same_status
not_checkable now reason e = refl

out-refuse_one :
    (now : ℕ) (m : Monitor) (k reason key : Text) (g : Merge)
    → is_map g.next ≡ true
    → text_eq k key || is_out key g.next ≡ true
    → is_out key (refuse_one now m k reason g).next ≡ true
unfolding refuse_one
out-refuse_one now m k reason key g h o =
    out-put_key g.next key k (refused_entry now reason (held_entry now m g.next k).0) h
      (ground (arith, not_checkable now reason (held_entry now m g.next k).0)) o

out-merge_refused :
    (now : ℕ) (m : Monitor) (refused : List (Text × Text)) (key : Text) (g : Merge)
    → is_map g.next ≡ true
    → any (λ entry. text_eq entry.0 key) refused || is_out key g.next ≡ true
    → is_out key (merge_refused now m refused g).next ≡ true
unfolding merge_refused any
out-merge_refused now m [] key g h o = o
out-merge_refused now m ((k, reason) ∷ rest) key g h o =
    out-merge_refused now m rest key (refuse_one now m k reason g)
      (map-refuse_one now m k reason g h) (ground (arith, o, out-refuse_one now m k reason key g h))

out-each :
    (f : Entry → Entry) (entries : Entries) (key : Text)
    → ((e : Entry) → checkable (f e) ≡ checkable e)
    → is_out key (each f entries) ≡ is_out key entries
unfolding is_out all each
out-each f [] key h = refl
out-each f ((k, e) ∷ rest) key h = ground (arith, out-each f rest key h, h e)

out-due_entries :
    (now : ℕ) (entries : Entries) (key : Text)
    → is_out key entries ≡ true
    → has_key key (due_entries now entries) ≡ false
unfolding is_out all due_entries has_key is_due
out-due_entries now [] key h = refl
out-due_entries now ((k, e) ∷ rest) key h = ground (arith, out-due_entries now rest key)

key-insert_due :
    (order : List Text) (x : Text × Entry) (entries : Entries) (key : Text)
    → has_key key (insert_due order x entries) ≡ (text_eq x.0 key || has_key key entries)
unfolding insert_due has_key
key-insert_due order x [] key = refl
key-insert_due order x (y ∷ ys) key = ground (arith, key-insert_due order x ys key)

key-sort_due :
    (order : List Text) (entries : Entries) (key : Text)
    → has_key key (sort_due order entries) ≡ has_key key entries
unfolding sort_due has_key
key-sort_due order [] key = refl
key-sort_due order ((k, e) ∷ rest) key =
    ground
      (arith, key-insert_due order (k, e) (sort_due order rest) key, key-sort_due order rest key)

key-take :
    (n : ℕ) (entries : Entries) (key : Text)
    → has_key key entries ≡ false
    → has_key key (take n entries) ≡ false
unfolding has_key
key-take zero entries key h = refl
key-take (suc n) [] key h = refl
key-take (suc n) ((k, e) ∷ rest) key h = ground (arith, key-take n rest key)

-- a check of the key is among those started
unfoldable pub is_started : Text → List Started → Bool
is_started key = any (λ s. text_eq s.key key)

started-start_each :
    (due : Entries) (m : Monitor) (started : List Started) (key : Text)
    → has_key key due ≡ false
    → is_started key started ≡ false
    → is_started key (start_each due m started).1 ≡ false
unfolding start_each has_key is_started any
started-start_each [] m started key h s = s
started-start_each ((k, e) ∷ rest) m started key h s =
    let newer : Started = record {
      key = k;
      session = m.session;
      generation = m.generation;
      started = bump m.starts;
    } in
    started-start_each rest
      (record m { entries = at_key start m.entries k; starts = bump m.starts })
      (started ++ newer ∷ []) key (ground arith)
      (ground (arith, any-append (λ (x : Started). text_eq x.key key) started (newer ∷ [])))

started-dispatch :
    (now : ℕ) (m : Monitor) (key : Text)
    → is_out key m.entries ≡ true
    → is_started key (dispatch now m).1 ≡ false
unfolding dispatch is_started any
started-dispatch now m key o =
    let due = sort_due m.order (due_entries now m.entries) in
    let n = smaller (m.settings.concurrency - count_busy m.entries) (length due) in
    started-start_each (take n due) m [] key
      (key-take n due key (
        key-sort_due m.order (due_entries now m.entries) key ∙ out-due_entries now m.entries key o))
      refl

out-invalidate :
    (identity : Bool) (m : Monitor) (key : Text)
    → is_out key m.entries ≡ true
    → is_out key (if identity then invalidate_evidence m else m).entries ≡ true
unfolding invalidate_evidence checkable
out-invalidate true m key o =
    out-each (λ e. record e { evidence_follow_up = false }) m.entries key (λ e. refl) ∙ o
out-invalidate false m key o = o

out-merge :
    (now : ℕ) (eps : List Endpoint) (refused : List (Text × Text)) (m : Monitor) (key : Text)
    → any (λ entry. text_eq entry.0 key) refused ≡ true
    → is_out key (merge now eps refused m).entries ≡ true
unfolding merge merged take_merge is_map
out-merge now eps refused m key h =
    let first : Merge = record {
      next = [];
      order = [];
      changed = not (length m.restored == 0);
      identity = false;
      status = false;
    } in
    let g = merged now eps refused m in
    out-invalidate (has_new_identity m g) (take_merge now (has_new_identity m g) g m) key (
      out-merge_refused now m refused key (merge_listed now m eps first)
        (map-merge_listed now m eps first refl) (ground arith))

-- Whatever the monitor knew of it and wherever else it is listed, an endpoint that the generator
-- refuses gets no check from a dispatch after the merge of its set.
pub refused-unstarted :
    (now later : ℕ) (eps : List Endpoint) (refused : List (Text × Text)) (m : Monitor) (key : Text)
    → any (λ entry. text_eq entry.0 key) refused ≡ true
    → is_started key (dispatch later (merge now eps refused m)).1 ≡ false
refused-unstarted now later eps refused m key h =
    started-dispatch later (merge now eps refused m) key (out-merge now eps refused m key h)
