-- ===== src/Monitor/Evidence/Fresh.antt =====
-- Evidence that is validated.
use mathlib.Core.Path.{subst}
use vpn_director.Prelude.{
  ℕ, Text, text_eq, text_eq_iff, Bool, true, false, ◌&&◌, Option, none, some, List, [], ◌∷◌, ◌≡◌,
  refl, sym, ◌∙◌, arith, Bool-cases, Option-cases, inl, inr,
}
use vpn_director.Monitor.Entries.{
  Status, unknown, alive, dead, rejected, same_status, EndpointState, same_state,
}
use vpn_director.Monitor.State.{
  Monitor, Phase, ok, stopped, disabled, no_xray, wan_down, prober_error, same_phase, same_session,
  find_key,
}
use vpn_director.Monitor.Evidence.{
  Proof, Evidence, EvidenceError, evidence_active, evidence_keys, record_for, add_found, collect,
  evidence_locked, same_proof, confirms, confirms_each, is_none, validate_evidence,
  compare_evidence, found_if, requested,
}

same_status_refl : (s : Status) → same_status s s ≡ true
unfolding same_status
same_status_refl unknown = refl
same_status_refl alive = refl
same_status_refl dead = refl
same_status_refl rejected = refl

same_proof_refl : (p : EndpointState × Proof) → same_proof p p ≡ true
unfolding same_proof same_state
same_proof_refl (a, p) =
    ground
      (arith, same_status_refl p.status, same_status_refl a.status, text_eq_iff a.error a.error)

unfoldable pub has_proof : Option (EndpointState × Proof) → Bool
has_proof none = false
has_proof (some p) = true

-- each key of the list has a record
unfoldable pub is_held : Evidence → List Text → Bool
is_held e [] = true
is_held e (key ∷ keys) = has_proof (find_key e.found key) && is_held e keys

found_add :
    (m : Monitor) (k key : Text) (p : EndpointState × Proof) (r : Option (EndpointState × Proof))
    (found : List (Text × (EndpointState × Proof)))
    → record_for m.session m.generation (find_key m.entries k) ≡ r
    → (find_key found key ≡ some p
        → record_for m.session m.generation (find_key m.entries key) ≡ some p)
    → find_key (add_found k r found) key ≡ some p
    → record_for m.session m.generation (find_key m.entries key) ≡ some p
unfolding add_found find_key
found_add m k key p none found e f h = f h
found_add m k key p (some q) found e f h = elim (Bool-cases (text_eq k key)) [
  | inl same ↦
      let is_key : k ≡ key = (text_eq_iff k key).0 same in
      let is_p : ◌≡◌ {A = Option (EndpointState × Proof)} (some q) (some p) = ground arith in
      subst (λ x. record_for m.session m.generation (find_key m.entries x) ≡ some p) is_key
        (e ∙ is_p)
  | inr other ↦ f (ground arith)
]

found_record :
    (m : Monitor) (keys : List Text) (key : Text) (p : EndpointState × Proof)
    → find_key (collect m keys) key ≡ some p
    → record_for m.session m.generation (find_key m.entries key) ≡ some p
unfolding collect find_key
found_record m [] key p h = cc
found_record m (k ∷ keys) key p h =
    found_add m k key p (record_for m.session m.generation (find_key m.entries k)) (collect m keys)
      refl (found_record m keys key p) h

confirms_held :
    (m : Monitor) (e : Evidence) (keys : List Text)
    → ((key : Text) (p : EndpointState × Proof)
        → find_key e.found key ≡ some p
        → record_for m.session m.generation (find_key m.entries key) ≡ some p)
    → is_held e keys ≡ true
    → confirms_each e m keys ≡ true
unfolding confirms_each is_held has_proof
confirms_held m e [] f h = refl
confirms_held m e (key ∷ keys) f h = elim (Option-cases (find_key e.found key)) [
  | inl absent ↦ absurd (ground arith)
  | inr (p, found) ↦
      let same : confirms (record_for m.session m.generation (find_key m.entries key))
            (find_key e.found key)
          ≡ true =
        rw (found, f key p found) (unfold confirms in same_proof_refl p) in
      ground (arith, same, confirms_held m e keys f)
]

same_phase_refl : (p : Phase) → same_phase p p ≡ true
unfolding same_phase
same_phase_refl ok = refl
same_phase_refl stopped = refl
same_phase_refl disabled = refl
same_phase_refl no_xray = refl
same_phase_refl wan_down = refl
same_phase_refl prober_error = refl

same_session_refl : (s : Option ℕ) → same_session s s ≡ true
unfolding same_session
same_session_refl none = refl
same_session_refl (some s) = ground arith

compare_fresh :
    (m : Monitor) (active : Option EvidenceError) (e : Evidence) (keys wanted : List Text)
    → active ≡ none
    → e.state ≡ m.state
    → e.generation ≡ m.generation
    → e.session ≡ m.session
    → e.found ≡ found_if active m keys
    → is_none wanted ≡ false
    → is_held e wanted ≡ true
    → compare_evidence active e wanted m ≡ none
unfolding compare_evidence found_if
compare_fresh m none e keys wanted a s g i f n h =
    let confirmed =
      confirms_held m e wanted (λ key p x. found_record m keys key p (rw (sym f) x)) h in
    ground (arith, confirmed, n, s, g, i, same_phase_refl m.state, same_session_refl m.session)
compare_fresh m (some failure) e keys wanted a s g i f n h = cc

-- Evidence that has just been read of an active monitor validates for any request, not an empty
-- one, of keys that it holds.
pub validate-evidence :
    (gone : ℕ → Bool) (keys : Option (List Text)) (wanted : List Text) (m : Monitor)
    → evidence_active gone m ≡ none
    → is_none (evidence_keys m.entries wanted) ≡ false
    → is_held (evidence_locked gone keys m) (evidence_keys m.entries wanted) ≡ true
    → validate_evidence gone (evidence_locked gone keys m) wanted m ≡ none
unfolding validate_evidence evidence_locked
validate-evidence gone keys wanted m a n h =
    compare_fresh m (evidence_active gone m) (evidence_locked gone keys m)
      (requested m.entries keys) (evidence_keys m.entries wanted) a refl refl refl refl n h
