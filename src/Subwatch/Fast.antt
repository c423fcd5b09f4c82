-- ===== src/Subwatch/Fast.antt =====
-- What a fast check reads of the lists and of the monitor's evidence: `exactFastServer`,
-- `fastCandidatePresent` and `fastEvidenceStatus` of server/internal/subwatch/fast.go. The key of an
-- endpoint, a hash of what is dialed, is an argument.
pub mod Exact
use vpn_director.Prelude.{
  ℕ, Text, text_eq, Bool, true, false, ◌&&◌, ◌||◌, not, Option, none, some, List, [], ◌∷◌,
  if◌then◌else◌, ◌==◌, get_elem?, any, all,
}
use vpn_director.VpnConfig.Config.{ActiveServer}
use vpn_director.VpnConfig.Servers.{
  Server, Kinds, Subscription, find_subscription, recorded_index, all_servers,
}
use vpn_director.Monitor.Entries.{EndpointState, Status, same_status}
use vpn_director.Monitor.State.{ok, same_phase, find_key}
use vpn_director.Monitor.Evidence.{Evidence}
use vpn_director.Subwatch.Best.{state_of}
use vpn_director.Subwatch.Copies.{per_address, server_id}

-- a record without a name, an address or a port
unfoldable pub is_partial : ActiveServer → Bool
is_partial a = text_eq a.name [] || text_eq a.address [] || a.port == 0

module _ (kinds : Kinds) where
  -- the entry of the record in its subscription, with the record's mark
  unfoldable pub exact_entry : ActiveServer → Subscription → Option Server
  exact_entry a sub = elim (recorded_index kinds (some a) sub.servers) [
    | none ↦ none
    | some j ↦ elim (get_elem? sub.servers j) [
      | none ↦ none
      | some s ↦
          if not (text_eq a.identity []) && not (text_eq (kinds.identity_mark s) a.identity)
          then none
          else some (record s { subscription = sub.id })
    ]
  ]

  -- `exactFastServer`
  unfoldable pub exact_fast_server : List Subscription → Option ActiveServer → Option Server
  exact_fast_server subs none = none
  exact_fast_server subs (some a) =
      if is_partial a then none else elim (find_subscription subs a.subscription) [
        | none ↦ none
        | some i ↦ elim (get_elem? subs i) [ none ↦ none | some sub ↦ exact_entry a sub ]
      ]

module _ (key : Server → Text) where
  -- `fastCandidatePresent`
  unfoldable pub fast_candidate_present : List Subscription → Server → Bool
  fast_candidate_present subs s =
      any
        (λ current.
          text_eq (server_id current) (server_id s)
          && any (λ c. text_eq (key c) (key s)) (per_address (current ∷ [])))
        (all_servers subs)

unfoldable pub has_status : Status → Option EndpointState → Bool
has_status status none = false
has_status status (some st) = same_status st.status status

-- `fastEvidenceStatus`
unfoldable pub fast_evidence_status : Evidence → List Text → Status → Bool
fast_evidence_status e [] status = false
fast_evidence_status e (k ∷ keys) status =
    same_phase e.state ok
    && all (λ name. has_status status (state_of (find_key e.found name))) (k ∷ keys)
