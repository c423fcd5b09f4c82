-- ===== src/VpnConfig/Servers/Walked.antt =====
-- `RecordWalkedServer` over a sequence of servers.
use vpn_director.Prelude.{
  ◌+◌, true, ◌≡◌, Option, none, some, List, [], ◌∷◌, if◌then◌else◌, arith, text_eq_iff,
  text_eq_refl, Option-cases, inl, inr, Bool-cases, length,
}
use vpn_director.VpnConfig.Config.{Config, ActiveServer}
use vpn_director.VpnConfig.Servers.{
  Server, Kinds, same_choice, same_choice_record, active_seq, new_active_server,
  record_active_server, walked_preference, record_walked_server,
}

-- the records of a walk, one after another
unfoldable pub record_walk : Kinds → Config → List Server → Config
record_walk kinds cfg [] = cfg
record_walk kinds cfg (s ∷ ss) = record_walk kinds (record_walked_server kinds cfg s) ss

-- the server that the user chose: the preferred one, or the active one where none is kept
unfoldable pub choice : Config → Option ActiveServer
choice cfg = elim cfg.xray.preferred_server [ some p ↦ some p | none ↦ cfg.xray.active_server ]

-- Every record moves the counter on by one.
pub seq-record_walk :
    (kinds : Kinds) (cfg : Config) (ss : List Server)
    → active_seq (record_walk kinds cfg ss).xray.active_server
      ≡ active_seq cfg.xray.active_server + length ss
unfolding record_walk record_walked_server record_active_server active_seq
seq-record_walk kinds cfg [] = omega arith
seq-record_walk kinds cfg (s ∷ ss) =
    omega (arith, seq-record_walk kinds (record_walked_server kinds cfg s) ss)

same_choice_record_refl : (a : ActiveServer) → same_choice_record a a ≡ true
unfolding same_choice_record
same_choice_record_refl a =
    ground (arith, text_eq_refl a.subscription, text_eq_refl a.name, text_eq_refl a.group)

same_choice_record_trans :
    (a b c : ActiveServer)
    → same_choice_record a b ≡ true
    → same_choice_record b c ≡ true
    → same_choice_record a c ≡ true
unfolding same_choice_record
same_choice_record_trans a b c p q = ground (
  arith,
  text_eq_iff a.subscription b.subscription,
  text_eq_iff a.name b.name,
  text_eq_iff b.group a.group,
)

-- a server of the choice a gives a record of it
same_choice_record-active :
    (kinds : Kinds) (a : ActiveServer) (prev : Option ActiveServer) (s : Server)
    → same_choice kinds a s ≡ true
    → same_choice_record a (record_active_server kinds prev s) ≡ true
unfolding same_choice same_choice_record record_active_server new_active_server
same_choice_record-active kinds a prev s h = h

-- the choice after one more record
next_choice : Kinds → Config → Server → ActiveServer → ActiveServer
next_choice kinds cfg s a =
    if same_choice kinds a s
    then record_active_server kinds cfg.xray.active_server s
    else elim cfg.xray.preferred_server [ some p ↦ p | none ↦ record a { seq = 0 } ]

choice-record_walked :
    (kinds : Kinds) (cfg : Config) (s : Server) (a : ActiveServer)
    → choice cfg ≡ some a
    → choice (record_walked_server kinds cfg s) ≡ some (next_choice kinds cfg s a)
unfolding choice record_walked_server walked_preference next_choice
choice-record_walked kinds cfg s a e = ground arith

next_choice-same :
    (kinds : Kinds) (cfg : Config) (s : Server) (a : ActiveServer)
    → choice cfg ≡ some a
    → same_choice_record a (next_choice kinds cfg s a) ≡ true
unfolding choice next_choice
next_choice-same kinds cfg s a e = elim (Bool-cases (same_choice kinds a s)) [
  | inl y ↦ rw y (same_choice_record-active kinds a cfg.xray.active_server s y)
  | inr n ↦ rw n (elim (Option-cases cfg.xray.preferred_server) [
    | inl p ↦ ground (arith, same_choice_record_refl a, seq_only a)
    | inr (q, p) ↦ ground (arith, same_choice_record_refl a)
  ])
]
  where
    seq_only : (a : ActiveServer) → same_choice_record a (record a { seq = 0 }) ≡ true
    seq_only a = unfold same_choice_record in same_choice_record_refl a

-- Whatever servers the walk records, in whatever order, the user's choice survives: a choice is
-- still named, of the same subscription and name, and of the same kind if the kind was known.
pub choice-record_walk :
    (kinds : Kinds) (cfg : Config) (a : ActiveServer) (ss : List Server)
    → choice cfg ≡ some a
    → (b : ActiveServer) × (choice (record_walk kinds cfg ss) ≡ some b)
      × (same_choice_record a b ≡ true)
unfolding record_walk
choice-record_walk kinds cfg a [] e = (a, e, same_choice_record_refl a)
choice-record_walk kinds cfg a (s ∷ ss) e =
    let next = next_choice kinds cfg s a in
    let (b, f, same) =
      choice-record_walk kinds (record_walked_server kinds cfg s) next ss
        (choice-record_walked kinds cfg s a e) in
    (b, f, same_choice_record_trans a next b (next_choice-same kinds cfg s a e) same)
