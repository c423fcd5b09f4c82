-- ===== src/VpnConfig/Pairs.antt =====
-- Pairs of a downloaded list with the stored one: `pairServers` of
-- server/internal/vpnconfig/identity.go. A pair that is -1 is `none`.
use vpn_director.Prelude.{
  ℕ, suc, Text, Bool, true, false, ◌&&◌, ◌||◌, not, Option, none, some, List, [], ◌∷◌,
  if◌then◌else◌, ◌==◌, text_eq, contains,
}
use vpn_director.VpnConfig.Servers.{Server}

-- `ServerIdentity` and `looseIdentity`: hashes of the decoded outbound, empty without one.
pub record Identities : Type 0 where
  pub server_identity : Server → Text
  pub loose_identity : Server → Text

unfoldable pub has_index : List ℕ → ℕ → Bool
has_index [] i = false
has_index (j ∷ js) i = i == j || has_index js i

unfoldable pub is_none : Option ℕ → Bool
is_none none = true
is_none (some i) = false

unfoldable pub has_pair : List (Option ℕ) → ℕ → Bool
has_pair [] i = false
has_pair (none ∷ ps) i = has_pair ps i
has_pair (some j ∷ ps) i = i == j || has_pair ps i

module _ (ids : Identities) where
  -- the front of the queue `strict[id]`: the first stored index of the identity not yet paired
  unfoldable pub first_unpaired : List Server → Text → List ℕ → ℕ → Option ℕ
  first_unpaired [] id used i = none
  first_unpaired (s ∷ stored) id used i =
      let rest = first_unpaired stored id used (suc i) in
      if text_eq (ids.server_identity s) id && not (has_index used i) then some i else rest

  -- the strict pass, with the stored indices paired so far
  unfoldable pub strict_pass : List Server → List Server → List ℕ → List (Option ℕ)
  strict_pass stored [] used = []
  strict_pass stored (f ∷ fresh) used =
      let id = ids.server_identity f in
      let skipped = none ∷ strict_pass stored fresh used in
      if text_eq id [] then skipped else elim (first_unpaired stored id used 0) [
        | none ↦ skipped
        | some j ↦ some j ∷ strict_pass stored fresh (j ∷ used)
      ]

  -- the names of the fresh servers with an identity that the strict pass left
  unfoldable pub left_names : List Server → List (Option ℕ) → List Text
  left_names [] pairs = []
  left_names (f ∷ fresh) [] = []
  left_names (f ∷ fresh) (some j ∷ pairs) = left_names fresh pairs
  left_names (f ∷ fresh) (none ∷ pairs) =
      let rest = left_names fresh pairs in
      if text_eq (ids.server_identity f) [] then rest else f.name ∷ rest

  -- the indices of the servers of a name and loose identity
  unfoldable pub holders : List Server → Text → Text → ℕ → List ℕ
  holders [] name id i = []
  holders (s ∷ ss) name id i =
      let rest = holders ss name id (suc i) in
      if text_eq s.name name && text_eq (ids.loose_identity s) id then i ∷ rest else rest

  unfoldable pub single : List ℕ → Option ℕ
  single [] = none
  single (i ∷ []) = some i
  single (i ∷ j ∷ is) = none

  -- the stored server that the name and the loose identity of a fresh one tell apart
  unfoldable pub loose_pair :
      List Server → List Server → List Text → List (Option ℕ) → Server → Option ℕ
  loose_pair stored fresh left strict f =
      let id = ids.loose_identity f in
      if not (contains left f.name) || text_eq id []
      then none
      else elim (single (holders fresh f.name id 0)) [
        | none ↦ none
        | some i ↦ elim (single (holders stored f.name id 0)) [
          | none ↦ none
          | some j ↦ if has_pair strict j then none else some j
        ]
      ]

  unfoldable pub loose_pass :
      List Server
      → List Server
      → List Text
      → List (Option ℕ)
      → List Server
      → List (Option ℕ)
      → List (Option ℕ)
  loose_pass stored all_fresh left strict [] pairs = []
  loose_pass stored all_fresh left strict (f ∷ fresh) [] = []
  loose_pass stored all_fresh left strict (f ∷ fresh) (some j ∷ pairs) =
      some j ∷ loose_pass stored all_fresh left strict fresh pairs
  loose_pass stored all_fresh left strict (f ∷ fresh) (none ∷ pairs) =
      loose_pair stored all_fresh left strict f
      ∷ loose_pass stored all_fresh left strict fresh pairs

  unfoldable pub pair_servers : List Server → List Server → List (Option ℕ)
  pair_servers stored fresh =
      let strict = strict_pass stored fresh [] in
      loose_pass stored fresh (left_names fresh strict) strict fresh strict
