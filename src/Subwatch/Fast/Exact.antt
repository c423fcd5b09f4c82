-- ===== src/Subwatch/Fast/Exact.antt =====
-- What the entry that a fast check takes for the running server has of its record.
use vpn_director.Prelude.{
  ℕ, suc, ◌+◌, Text, text_eq, text_eq_sound, true, ◌||◌, Option, none, some, List, [], ◌∷◌, ◌≡◌,
  ◌⊎◌, refl, arith, get_elem?, Option-cases, Bool-cases, inl, inr,
}
use vpn_director.VpnConfig.Config.{ActiveServer}
use vpn_director.VpnConfig.Servers.{
  Server, Kinds, Subscription, find_subscription, is_recorded, recorded_loop, recorded_index,
}
use vpn_director.Subwatch.Fast.{exact_entry, exact_fast_server}

module _ (kinds : Kinds) where
  recorded_loop_lem :
      (a : ActiveServer) (ss : List Server) (i : ℕ) (first : Option ℕ) (j : ℕ)
      → recorded_loop kinds a ss i first ≡ some j
      → (first ≡ some j)
        ⊎ (k : ℕ) × (s : Server) × (j ≡ i + k)
          × (get_elem? ss k ≡ some s)
          × (is_recorded kinds a s ≡ true)
  unfolding recorded_loop
  recorded_loop_lem a [] i first j e = inl e
  recorded_loop_lem a (s ∷ ss) i first j e = elim (Bool-cases (is_recorded kinds a s)) [
    | inr n ↦ elim (recorded_loop_lem a ss (suc i) first j (ground arith)) [
      | inl f ↦ inl f
      | inr (k, t, at, g, r) ↦ inr (suc k, t, omega (arith, at), g, r)
    ]
    | inl y ↦
        elim (Bool-cases (text_eq a.identity [] || text_eq (kinds.identity_mark s) a.identity)) [
          | inl m ↦ inr (0, s, ground arith, refl, y)
          | inr m ↦ elim (Option-cases first) [
            | inl f ↦ elim (recorded_loop_lem a ss (suc i) (some i) j (ground arith)) [
              | inl g ↦ inr (0, s, ground arith, refl, y)
              | inr (k, t, at, g, r) ↦ inr (suc k, t, omega (arith, at), g, r)
            ]
            | inr (n, f) ↦ elim (recorded_loop_lem a ss (suc i) (some n) j (ground arith)) [
              | inl g ↦ inl (ground arith)
              | inr (k, t, at, g, r) ↦ inr (suc k, t, omega (arith, at), g, r)
            ]
          ]
        ]
  ]

found_subscription :
    (subs : List Subscription) (id : Text) (i : ℕ)
    → find_subscription subs id ≡ some i
    → (sub : Subscription) × (get_elem? subs i ≡ some sub) × (sub.id ≡ id)
unfolding find_subscription
found_subscription [] id i e = absurd (cc)
found_subscription (sub ∷ subs) id i e = elim (Bool-cases (text_eq sub.id id)) [
  | inl y ↦ let z : i ≡ 0 = ground arith in rw z (sub, refl, text_eq_sound sub.id id y)
  | inr n ↦ elim (Option-cases (find_subscription subs id)) [
    | inl g ↦ absurd (ground arith)
    | inr (k, g) ↦
        let (found, at, same) = found_subscription subs id k g in
        let z : i ≡ suc k = ground arith in rw z (found, at, same)
  ]
]

-- the server is a listed entry of the record: of its subscription, name, address and port, and of its
-- kind and mark where the record has them
pub record IsExact (kinds : Kinds) (subs : List Subscription) (a : ActiveServer) (s : Server)
    : Type 0 where
  pub listed :
      (i : ℕ) × (sub : Subscription) × (k : ℕ) × (entry : Server) × (get_elem? subs i ≡ some sub)
      × (get_elem? sub.servers k ≡ some entry)
      × (s ≡ record entry { subscription = sub.id })
      × ((a.identity ≡ []) ⊎ (kinds.identity_mark entry ≡ a.identity))
      × ((a.group ≡ []) ⊎ (kinds.group entry ≡ a.group))
  pub subscription : s.subscription ≡ a.subscription
  pub name : s.name ≡ a.name
  pub address : s.address ≡ a.address
  pub port : s.port ≡ a.port

empty_or_same : (a b : Text) → (text_eq a [] || text_eq b a) ≡ true → (a ≡ []) ⊎ (b ≡ a)
empty_or_same a b h = elim (Bool-cases (text_eq a [])) [
  | inl y ↦ inl (text_eq_sound a [] y)
  | inr n ↦ inr (text_eq_sound b a (ground arith))
]

exact_entry_lem :
    (kinds : Kinds) (a : ActiveServer) (sub : Subscription) (s : Server)
    → exact_entry kinds a sub ≡ some s
    → (k : ℕ) × (entry : Server) × (get_elem? sub.servers k ≡ some entry)
      × (s ≡ record entry { subscription = sub.id })
      × ((text_eq a.identity [] || text_eq (kinds.identity_mark entry) a.identity) ≡ true)
      × (is_recorded kinds a entry ≡ true)
unfolding exact_entry recorded_index
exact_entry_lem kinds a sub s e = elim (Option-cases (recorded_loop kinds a sub.servers 0 none)) [
  | inl g ↦ absurd (ground arith)
  | inr (j, g) ↦ elim (recorded_loop_lem kinds a sub.servers 0 none j g) [
    | inl f ↦ absurd (cc)
    | inr (k, entry, at, got, r) ↦
        let z : j ≡ k = omega (arith, at) in
        (k, entry, got, ground (arith, z, got, g), ground (arith, z, got, g), r)
  ]
]

recorded_fields :
    (kinds : Kinds) (a : ActiveServer) (s : Server)
    → is_recorded kinds a s ≡ true
    → (s.name ≡ a.name)
      × (s.address ≡ a.address)
      × (s.port ≡ a.port)
      × ((a.group ≡ []) ⊎ (kinds.group s ≡ a.group))
unfolding is_recorded
recorded_fields kinds a s h = (
  text_eq_sound s.name a.name (ground arith),
  text_eq_sound s.address a.address (ground arith),
  ground arith,
  empty_or_same a.group (kinds.group s) (ground arith),
)

-- The server that a fast check takes for the running one is an entry of the record's subscription
-- with the record's name, address and port, with its kind unless the record has none, and with its
-- mark unless the record has none.
pub exact_fast_server-IsExact :
    (kinds : Kinds) (subs : List Subscription) (a : ActiveServer) (s : Server)
    → exact_fast_server kinds subs (some a) ≡ some s
    → IsExact kinds subs a s
unfolding exact_fast_server
exact_fast_server-IsExact kinds subs a s e =
    elim (Option-cases (find_subscription subs a.subscription)) [
      | inl g ↦ absurd (ground arith)
      | inr (i, g) ↦
          let (sub, at, same) = found_subscription subs a.subscription i g in
          let (k, entry, got, is, mark, r) =
            exact_entry_lem kinds a sub s (ground (arith, g, at)) in
          let (n, d, p, kind) = recorded_fields kinds a entry r in
          record {
            listed = (
              i,
              sub,
              k,
              entry,
              at,
              got,
              is,
              empty_or_same a.identity (kinds.identity_mark entry) mark,
              kind,
            );
            subscription = ground (arith, is, same);
            name = ground (arith, is, n);
            address = ground (arith, is, d);
            port = ground (arith, is, p);
          }
    ]
