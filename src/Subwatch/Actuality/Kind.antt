-- ===== src/Subwatch/Actuality/Kind.antt =====
-- `classifyActive` against its description: what the list as a whole says of the record.
use vpn_director.Prelude.{
  ℕ, zero, suc, Bool, true, false, ◌&&◌, ◌||◌, not, ◌≡◌, ◌∙◌, ap, refl, text_eq, text_eq_refl,
  get_elem?, inl, inr, Bool-cases, Option, none, some, List, [], ◌∷◌, ◌++◌, append_assoc,
  append-nil, if◌then◌else◌, keep_if, arith,
}
use vpn_director.VpnConfig.Config.{ActiveServer}
use vpn_director.VpnConfig.Servers.{
  Server, Kinds, Subscription, same_choice, tag_servers, find_subscription, record_active_server,
  new_active_server,
}
use vpn_director.Subwatch.Actuality.{
  Actuality, current, changed, placeless, at_place, sole, carries_mark, classify_loop,
  classify_active,
}

-- the first server that passes
unfoldable pub first_of : (Server → Bool) → List Server → Option Server
first_of p [] = none
first_of p (s ∷ ss) = let rest = first_of p ss in if p s then some s else rest

module _ (kinds : Kinds) (a : ActiveServer) where
  -- an entry of the choice that is the recorded server
  unfoldable pub stands : Server → Bool
  stands s = same_choice kinds a s && (placeless a || (at_place a s && carries_mark kinds a s))

  -- an entry of the choice at the recorded place
  unfoldable pub in_place : Server → Bool
  in_place s = same_choice kinds a s && at_place a s

  unfoldable pub elsewhere : Server → Bool
  elsewhere s = same_choice kinds a s && not (at_place a s)

  -- A standing entry decides; without one, an entry in place, the first; without that, a sole entry
  -- elsewhere.
  unfoldable pub described : Option Server → Option Server → List Server → Actuality × Option Server
  described (some s) first named = (current, some s)
  described none (some s) named = (changed, some s)
  described none none named = sole named

  classify_loop-described :
      (ss : List Server) (first : Option Server) (named : List Server)
      → classify_loop kinds a ss first named
        ≡ described
            (first_of stands ss)
            (elim first [ none ↦ first_of in_place ss | some f ↦ some f ])
            (named ++ keep_if elsewhere ss)
  unfolding classify_loop described first_of keep_if stands in_place elsewhere
  classify_loop-described [] none named = rw (append-nil named) refl
  classify_loop-described [] (some f) named = refl
  classify_loop-described (s ∷ ss) none named = ground (
    arith,
    classify_loop-described ss none named,
    classify_loop-described ss (some s) named,
    classify_loop-described ss none (named ++ s ∷ []),
    append_assoc named (s ∷ []) (keep_if elsewhere ss),
  )
  classify_loop-described (s ∷ ss) (some f) named = ground (
    arith,
    classify_loop-described ss (some f) named,
    classify_loop-described ss (some f) (named ++ s ∷ []),
    append_assoc named (s ∷ []) (keep_if elsewhere ss),
  )

-- The verdict on a record with a name and of a listed subscription is the one that its list as a whole gives: a
-- standing entry makes it current; without one, an entry in place makes it changed, and the first is
-- followed; without that, a sole entry elsewhere makes it moved, and otherwise it is gone.
pub classify_active-described :
    (kinds : Kinds) (subs : List Subscription) (a : ActiveServer) (i : ℕ) (sub : Subscription)
    → text_eq a.subscription [] ≡ false
    → text_eq a.name [] ≡ false
    → find_subscription subs a.subscription ≡ some i
    → get_elem? subs i ≡ some sub
    → classify_active kinds subs (some a)
      ≡ described kinds a
          (first_of (stands kinds a) (tag_servers sub.id sub.servers))
          (first_of (in_place kinds a) (tag_servers sub.id sub.servers))
          (keep_if (elsewhere kinds a) (tag_servers sub.id sub.servers))
unfolding classify_active
classify_active-described kinds subs a i sub p q f g =
    ground (arith, classify_loop-described kinds a (tag_servers sub.id sub.servers) none [])

first_of-found :
    (p : Server → Bool) (ss : List Server) (j : ℕ) (s : Server)
    → get_elem? ss j ≡ some s
    → p s ≡ true
    → (t : Server) × (first_of p ss ≡ some t)
unfolding first_of
first_of-found p [] j s g h = cc
first_of-found p (t ∷ ss) zero s g h = (t, ground arith)
first_of-found p (t ∷ ss) (suc j) s g h = elim (Bool-cases (p t)) [
  | inl y ↦ (t, rw y refl)
  | inr n ↦ rw n (first_of-found p ss j s g h)
]

recorded_stands :
    (kinds : Kinds) (prev : Option ActiveServer) (s : Server)
    → stands kinds (record_active_server kinds prev s) s ≡ true
unfolding stands same_choice at_place carries_mark record_active_server new_active_server
recorded_stands kinds prev s = ground (
  arith,
  text_eq_refl s.subscription,
  text_eq_refl s.name,
  text_eq_refl s.address,
  text_eq_refl (kinds.identity_mark s),
  text_eq_refl (kinds.group s),
)

-- A server just recorded, with a name and a subscription, is current as long as its subscription
-- lists it.
pub classify_active-record :
    (kinds : Kinds) (subs : List Subscription) (prev : Option ActiveServer) (s : Server) (i j : ℕ)
    (sub : Subscription)
    → text_eq s.subscription [] ≡ false
    → text_eq s.name [] ≡ false
    → find_subscription subs s.subscription ≡ some i
    → get_elem? subs i ≡ some sub
    → get_elem? (tag_servers sub.id sub.servers) j ≡ some s
    → (classify_active kinds subs (some (record_active_server kinds prev s))).0 ≡ current
classify_active-record kinds subs prev s i j sub p q f g h =
    let a = record_active_server kinds prev s in
    let servers = tag_servers sub.id sub.servers in
    let (t, e) = first_of-found (stands kinds a) servers j s h (recorded_stands kinds prev s) in
    ap (λ r. r.0)
      (classify_active-described kinds subs a i sub
        (unfold record_active_server new_active_server in p)
        (unfold record_active_server new_active_server in q)
        (unfold record_active_server new_active_server in f) g)
    ∙ by_standing a servers t e
  where
    by_standing :
        (a : ActiveServer) (servers : List Server) (t : Server)
        → first_of (stands kinds a) servers ≡ some t
        → (described kinds a
            (first_of (stands kinds a) servers)
            (first_of (in_place kinds a) servers)
            (keep_if (elsewhere kinds a) servers)).0
          ≡ current
    by_standing a servers t e = rw e (unfold described in refl)
