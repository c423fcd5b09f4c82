-- ===== src/Subwatch/Returns/Ways.antt =====
-- The way back of a failed return, and the candidates of a replacement.
use vpn_director.Prelude.{
  Text, text_eq, text_eq_sound, Bool, true, false, ◌&&◌, ◌||◌, not, Option, none, some, List, [],
  ◌∷◌, ◌≡◌, ◌⊎◌, refl, arith, any, keep_if, contains, if◌then◌else◌, Option-cases, Bool-cases, inl,
  inr,
}
use vpn_director.VpnConfig.Config.{ActiveServer}
use vpn_director.VpnConfig.Servers.{Server, Kinds}
use vpn_director.Subwatch.Copies.{dial_ip, server_id}
use vpn_director.Subwatch.Returns.{
  is_server_of, is_copy, take_copy, way_back, entry_copies, rollback_order, left_key, left_keys,
  comes_last, replacement_copies,
}

module _ (ipv4 : Text → Text) where
  take_copy_lem :
      (last : Server) (copies : List Server) (c : Server) (cs : List Server)
      → take_copy ipv4 last copies ≡ some (c, cs)
      → (is_copy ipv4 last c ≡ true) × ((p : Server → Bool) → any p copies ≡ (p c || any p cs))
  unfolding take_copy any
  take_copy_lem last [] c cs e = absurd (cc)
  take_copy_lem last (x ∷ xs) c cs e = elim (Bool-cases (is_copy ipv4 last x)) [
    | inl y ↦ (ground arith, λ p. ground arith)
    | inr n ↦ elim (Option-cases (take_copy ipv4 last xs)) [
      | inl g ↦ absurd (ground arith)
      | inr ((d, ds), g) ↦
          let (copy, anys) = take_copy_lem last xs d ds g in
          (ground (arith, copy), λ p. ground (arith, anys p))
    ]
  ]

  -- whether a copy is dialed at the address
  abbrev pub dials : Text → List Server → Bool
  dials ip copies = any (λ c. text_eq (dial_ip ipv4 c) ip) copies

  -- a way back: it loses no address, brings nothing in but the remembered copy, and leads with that
  pub record IsWay (copies : List Server) (before : Option ActiveServer) (last : Option Server)
      (way : List Server) : Type 0 where
    pub all_kept : (ip : Text) → dials ip copies ≡ true → dials ip way ≡ true
    pub nothing_new :
        (p : Server → Bool)
        → any p way ≡ true
        → (any p copies ≡ true) ⊎ (s : Server) × (last ≡ some s) × (p s ≡ true)
    pub leads :
        (s : Server)
        → last ≡ some s
        → is_server_of s before ≡ true
        → (c : Server) × (cs : List Server) × (way ≡ c ∷ cs)
          × (server_id c ≡ server_id s)
          × (dial_ip ipv4 c ≡ dial_ip ipv4 s)

  same_copy :
      (last c : Server)
      → is_copy ipv4 last c ≡ true
      → (server_id c ≡ server_id last) × (dial_ip ipv4 c ≡ dial_ip ipv4 last)
  unfolding is_copy
  same_copy last c h = (
    text_eq_sound (server_id c) (server_id last) (ground arith),
    text_eq_sound (dial_ip ipv4 c) (dial_ip ipv4 last) (ground arith),
  )

  elsewhere :
      (a b c : Text)
      → text_eq b c ≡ false
      → text_eq a c ≡ true
      → (not (text_eq a b) && text_eq a c) ≡ true
  elsewhere a b c h e = elim (Bool-cases (text_eq a b)) [
    | inl y ↦
        let ab : a ≡ b = text_eq_sound a b y in
        let k : text_eq b c ≡ true = rw ab at e in absurd (cc)
    | inr n ↦ ground arith
  ]

  dials-keep_if :
      (last : Server) (ip : Text) (copies : List Server)
      → text_eq (dial_ip ipv4 last) ip ≡ false
      → dials ip copies ≡ true
      → dials ip (keep_if (λ c. not (text_eq (dial_ip ipv4 c) (dial_ip ipv4 last))) copies) ≡ true
  unfolding any keep_if
  dials-keep_if last ip [] h d = absurd (cc)
  dials-keep_if last ip (c ∷ cs) h d = elim (Bool-cases (text_eq (dial_ip ipv4 c) ip)) [
    | inl y ↦ ground (arith, elsewhere (dial_ip ipv4 c) (dial_ip ipv4 last) ip h y)
    | inr n ↦ ground (arith, dials-keep_if last ip cs h (ground arith))
  ]

  any_of_keep_if :
      (p q : Server → Bool) (copies : List Server)
      → any p (keep_if q copies) ≡ true
      → any p copies ≡ true
  unfolding any keep_if
  any_of_keep_if p q [] h = h
  any_of_keep_if p q (c ∷ cs) h = elim (Bool-cases (p c)) [
    | inl y ↦ ground arith
    | inr n ↦ ground (arith, any_of_keep_if p q cs (ground arith))
  ]

  unchanged-IsWay :
      (copies : List Server) (before : Option ActiveServer) (last : Option Server)
      → ((s : Server) → last ≡ some s → is_server_of s before ≡ false)
      → IsWay copies before last copies
  unchanged-IsWay copies before last other = record {
    all_kept = λ ip h. h;
    nothing_new = λ p h. inl h;
    leads = λ s e h. let n = other s e in absurd (cc);
  }

  found-IsWay :
      (copies : List Server) (before : Option ActiveServer) (last c : Server) (cs : List Server)
      → take_copy ipv4 last copies ≡ some (c, cs)
      → IsWay copies before (some last) (c ∷ cs)
  unfolding any
  found-IsWay copies before last c cs g =
      let (copy, anys) = take_copy_lem last copies c cs g in
      let (same, dialed) = same_copy last c copy in
      record {
        all_kept = λ ip h. ground (arith, anys (λ d. text_eq (dial_ip ipv4 d) ip));
        nothing_new = λ p h. inl (ground (arith, anys p));
        leads = λ s e h. (c, cs, refl, ground (arith, same), ground (arith, dialed));
      }

  remembered-IsWay :
      (copies : List Server) (before : Option ActiveServer) (last : Server)
      → IsWay copies before
          (some last)
          (last ∷ keep_if (λ c. not (text_eq (dial_ip ipv4 c) (dial_ip ipv4 last))) copies)
  unfolding any
  remembered-IsWay copies before last = record {
    all_kept = λ ip h. elim (Bool-cases (text_eq (dial_ip ipv4 last) ip)) [
      | inl y ↦ ground arith
      | inr n ↦ ground (arith, dials-keep_if last ip copies n h)
    ];
    nothing_new = λ p h. elim (Bool-cases (p last)) [
      | inl y ↦ inr (last, refl, y)
      | inr n ↦ inl (
          any_of_keep_if p (λ c. not (text_eq (dial_ip ipv4 c) (dial_ip ipv4 last))) copies
            (ground arith))
    ];
    leads = λ s e h. (last, _, refl, ground arith, ground arith);
  }

  way_back-found :
      (copies : List Server) (before : Option ActiveServer) (last c : Server) (cs : List Server)
      → take_copy ipv4 last copies ≡ some (c, cs)
      → way_back ipv4 copies before (some last) ≡ c ∷ cs
  unfolding way_back
  way_back-found copies before last c cs g = ground arith

  way_back-missing :
      (copies : List Server) (before : Option ActiveServer) (last : Server)
      → take_copy ipv4 last copies ≡ none
      → way_back ipv4 copies before (some last) ≡ (
          if not (is_server_of last before)
          then copies
          else last ∷ keep_if (λ c. not (text_eq (dial_ip ipv4 c) (dial_ip ipv4 last))) copies)
  unfolding way_back
  way_back-missing copies before last g = ground arith

  way_back-IsWay :
      (copies : List Server) (before : Option ActiveServer) (last : Option Server)
      → IsWay copies before last (way_back ipv4 copies before last)
  way_back-IsWay copies before none =
      unfold way_back in unchanged-IsWay copies before none (λ s e. absurd (cc))
  way_back-IsWay copies before (some last) = elim (Option-cases (take_copy ipv4 last copies)) [
    | inr ((c, cs), g) ↦
        rw (way_back-found copies before last c cs g) (found-IsWay copies before last c cs g)
    | inl g ↦ elim (Bool-cases (is_server_of last before)) [
      | inl y ↦ rw (way_back-missing copies before last g, y) (remembered-IsWay copies before last)
      | inr n ↦
          rw (way_back-missing copies before last g, n)
            (unchanged-IsWay copies before (some last) (λ s e. ground arith))
    ]
  ]

  -- rollbackOrder loses no address of the entry that the record names, adds nothing to its copies but
  -- the remembered copy, and leads with the copy of that server and address if it is of the server
  -- that ran before.
  pub rollback_order-IsWay :
      (kinds : Kinds) (servers : List Server) (before : Option ActiveServer) (last : Option Server)
      → IsWay
          (entry_copies ipv4 kinds servers before)
          before
          last
          (rollback_order ipv4 kinds servers before last)
  unfolding rollback_order
  rollback_order-IsWay kinds servers before last =
      way_back-IsWay (entry_copies ipv4 kinds servers before) before last

module _ (ipv4 : Text → Text) (dial_key : Server → Text) (kinds : Kinds) (dead : Option Server)
    (replaced : ActiveServer) where
  -- a replacement leaves out what has been tried and puts what the dead server dials last, each part
  -- in its order
  pub replacement_copies_lem :
      (tried copies : List Server)
      → let last = comes_last ipv4 dial_key kinds dead replaced in
        let left =
          λ (c : Server). contains (left_keys ipv4 dial_key tried) (left_key ipv4 dial_key c) in
        replacement_copies ipv4 dial_key kinds dead replaced tried copies ≡ (
          keep_if (λ c. not (left c) && not (last c)) copies,
          keep_if (λ c. not (left c) && last c) copies,
        )
  unfolding replacement_copies keep_if
  replacement_copies_lem tried [] = refl
  replacement_copies_lem tried (c ∷ cs) = ground (arith, replacement_copies_lem tried cs)
