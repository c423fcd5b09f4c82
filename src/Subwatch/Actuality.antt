-- ===== src/Subwatch/Actuality.antt =====
-- server/internal/subwatch/actuality.go: how the recorded server stands against its
-- subscription's list. A result without a server has `none` in place of the zero server.
pub mod Kind
use vpn_director.Prelude.{
  Text, Bool, true, false, ◌&&◌, ◌||◌, not, Option, none, some, List, [], ◌∷◌, ◌++◌, if◌then◌else◌,
  ◌==◌, text_eq, get_elem?,
}
use vpn_director.VpnConfig.Config.{ActiveServer}
use vpn_director.VpnConfig.Servers.{
  Server, Kinds, Subscription, same_choice, find_subscription, tag_servers,
}

pub data Actuality : Type 0 where
  unknown : Actuality
  current : Actuality
  changed : Actuality
  moved : Actuality
  gone : Actuality

-- no address and no port on record
unfoldable pub placeless : ActiveServer → Bool
placeless a = text_eq a.address [] && a.port == 0

unfoldable pub at_place : ActiveServer → Server → Bool
at_place a s = text_eq s.address a.address && s.port == a.port

unfoldable pub sole : List Server → Actuality × Option Server
sole [] = (gone, none)
sole (s ∷ []) = (moved, some s)
sole (s ∷ t ∷ ss) = (gone, none)

module _ (kinds : Kinds) where
  unfoldable pub carries_mark : ActiveServer → Server → Bool
  carries_mark a s = text_eq a.identity [] || text_eq (kinds.identity_mark s) a.identity

  -- the loop, with the first changed entry and the entries elsewhere so far
  unfoldable pub classify_loop :
      ActiveServer → List Server → Option Server → List Server → Actuality × Option Server
  classify_loop a [] first named = elim first [ some s ↦ (changed, some s) | none ↦ sole named ]
  classify_loop a (s ∷ ss) first named =
      let skip = classify_loop a ss first named in
      let change = classify_loop a ss (elim first [ none ↦ some s | some f ↦ some f ]) named in
      let name = classify_loop a ss first (named ++ s ∷ []) in
      if not (same_choice kinds a s)
      then skip
      else if placeless a
      then (current, some s)
      else if at_place a s
      then (if carries_mark a s then (current, some s) else change)
      else name

  unfoldable pub classify_active :
      List Subscription → Option ActiveServer → Actuality × Option Server
  classify_active subs none = (unknown, none)
  classify_active subs (some a) =
      if text_eq a.subscription [] || text_eq a.name []
      then (unknown, none)
      else elim (find_subscription subs a.subscription) [
        | none ↦ (gone, none)
        | some i ↦ elim (get_elem? subs i) [
          | none ↦ (gone, none)
          | some sub ↦ classify_loop a (tag_servers sub.id sub.servers) none []
        ]
      ]
