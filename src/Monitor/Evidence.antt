-- ===== src/Monitor/Evidence.antt =====
-- Evidence: results with a proof that they still apply, server/internal/monitor/evidence.go. The
-- public map of results and the private map of proofs have the same keys, and are one list here.
pub mod Epochs
pub mod Fresh
pub mod Operations
pub mod Stale
use vpn_director.Prelude.{
  ℕ, Text, text_eq, contains, Bool, true, false, ◌&&◌, ◌||◌, not, Option, none, some, List, [], ◌∷◌,
  ◌++◌, if◌then◌else◌, ◌==◌, map,
}
use vpn_director.Monitor.Entries.{
  Status, unknown, alive, dead, rejected, same_status, EndpointState, same_state, Entry,
}
use vpn_director.Monitor.State.{
  Monitor, Entries, Phase, ok, stopped, disabled, same_phase, same_session, find_key,
}

pub record Proof : Type 0 where
  pub completion : ℕ
  pub revision : ℕ
  pub status : Status

pub record Evidence : Type 0 where
  pub state : Phase
  pub session : Option ℕ
  pub generation : ℕ
  pub found : List (Text × (EndpointState × Proof))

pub data EvidenceError : Type 0 where
  not_active inactive stale : EvidenceError

unfoldable pub has_exited : (ℕ → Bool) → Option ℕ → Bool
has_exited gone none = false
has_exited gone (some s) = gone s

-- `evidenceActive`
unfoldable pub evidence_active : (ℕ → Bool) → Monitor → Option EvidenceError
evidence_active gone m =
    if same_phase m.state stopped || same_phase m.state disabled || not m.settings.enabled
    then some not_active
    else if m.closed || not (same_phase m.state ok) || m.wan_paused || has_exited gone m.session
    then some inactive
    else none

unfoldable pub distinct_keys : List Text → List Text → List Text
distinct_keys seen [] = []
distinct_keys seen (key ∷ keys) =
    let repeated = distinct_keys seen keys in
    let first = key ∷ distinct_keys (key ∷ seen) keys in
    if contains seen key then repeated else first

unfoldable pub all_keys : Entries → List Text
all_keys [] = []
all_keys ((key, e) ∷ rest) = key ∷ all_keys rest

-- `evidenceKeys`
unfoldable pub evidence_keys : Entries → List Text → List Text
evidence_keys entries [] = all_keys entries
evidence_keys entries (key ∷ keys) = distinct_keys [] (key ∷ keys)

unfoldable pub is_applicable : Option ℕ → ℕ → Entry → Status → Bool
is_applicable session generation e rejected = e.rejected_current
is_applicable none generation e alive = false
is_applicable (some s) generation e alive =
    not (e.completed == 0)
    && same_session e.completed_session (some s)
    && e.completed_generation == generation
is_applicable none generation e dead = false
is_applicable (some s) generation e dead =
    not (e.completed == 0)
    && same_session e.completed_session (some s)
    && e.completed_generation == generation
is_applicable session generation e unknown = false

-- `recordFor`, with the entry's public state
unfoldable pub record_for : Option ℕ → ℕ → Option Entry → Option (EndpointState × Proof)
record_for session generation none = none
record_for session generation (some e) =
    if is_applicable session generation e e.st.status
    then some
        (e.st, record { completion = e.completed; revision = e.revision; status = e.st.status })
    else none

unfoldable pub add_found :
    Text
    → Option (EndpointState × Proof)
    → List (Text × (EndpointState × Proof))
    → List (Text × (EndpointState × Proof))
add_found key none found = found
add_found key (some proof) found = (key, proof) ∷ found

unfoldable pub collect : Monitor → List Text → List (Text × (EndpointState × Proof))
collect m [] = []
collect m (key ∷ keys) =
    add_found key (record_for m.session m.generation (find_key m.entries key)) (collect m keys)

unfoldable pub requested : Entries → Option (List Text) → List Text
requested entries none = all_keys entries
requested entries (some keys) = keys

unfoldable pub found_if :
    Option EvidenceError → Monitor → List Text → List (Text × (EndpointState × Proof))
found_if (some e) m keys = []
found_if none m keys = collect m keys

-- `evidenceLocked`; without keys, of the current set
unfoldable pub evidence_locked : (ℕ → Bool) → Option (List Text) → Monitor → Evidence
evidence_locked gone keys m = record {
  state = m.state;
  session = m.session;
  generation = m.generation;
  found = found_if (evidence_active gone m) m (requested m.entries keys);
}

unfoldable pub same_proof : EndpointState × Proof → EndpointState × Proof → Bool
same_proof (a, p) (b, q) =
    p.completion == q.completion
    && p.revision == q.revision
    && same_status p.status q.status
    && same_state a b

unfoldable pub confirms : Option (EndpointState × Proof) → Option (EndpointState × Proof) → Bool
confirms none proof = false
confirms (some current) none = false
confirms (some current) (some proof) = same_proof current proof

unfoldable pub confirms_each : Evidence → Monitor → List Text → Bool
confirms_each e m [] = true
confirms_each e m (key ∷ keys) =
    confirms (record_for m.session m.generation (find_key m.entries key)) (find_key e.found key)
    && confirms_each e m keys

unfoldable pub is_none : List Text → Bool
is_none [] = true
is_none (key ∷ keys) = false

unfoldable pub compare_evidence :
    Option EvidenceError → Evidence → List Text → Monitor → Option EvidenceError
compare_evidence (some failure) e wanted m = some failure
compare_evidence none e wanted m =
    if not (same_phase e.state m.state)
      || not (e.generation == m.generation)
      || not (same_session e.session m.session)
      || is_none wanted
      || not (confirms_each e m wanted)
    then some stale
    else none

-- `ValidateEvidence`
unfoldable pub validate_evidence :
    (ℕ → Bool) → Evidence → List Text → Monitor → Option EvidenceError
validate_evidence gone e keys m =
    compare_evidence (evidence_active gone m) e (evidence_keys m.entries keys) m

-- Opens the above, for evaluation on a concrete monitor.
unfoldable pub run_evidence : Unit {0}
unfolding evidence_active same_phase has_exited evidence_keys distinct_keys all_keys contains
    text_eq is_applicable record_for add_found collect requested found_if evidence_locked find_key
    same_session is_none
run_evidence = tt
