-- ===== src/Monitor/Evidence/Operations.antt =====
-- What the loop and the callers of server/internal/monitor/monitor.go do to a monitor between two
-- looks at its evidence, and what of it ends the epoch of that evidence.
use vpn_director.Prelude.{
  ℕ, Text, Bool, true, false, ◌&&◌, ◌||◌, not, Option, none, some, List, [], ◌∷◌, if◌then◌else◌,
}
use vpn_director.Monitor.State.{
  Monitor, Phase, wan_down, same_phase, set_state, stop_session, invalidate_evidence, idle,
  find_key,
}
use vpn_director.Monitor.Results.{Result, finish, guard, apply}
use vpn_director.Monitor.Dispatch.{queue, dispatch}
use vpn_director.Monitor.Sets.{
  Endpoint, merged, has_new_identity, merge, reassess_each, reassess_rejected, reject_key,
  has_entry, is_checkable,
}

pub data Operation : Type 0 where
  invalidates stops : Operation
  goes_to : ℕ → Phase → Text → Operation
  idles : ℕ → Phase → Text → Operation
  merges : ℕ → List Endpoint → List (Text × Text) → Operation
  reassesses : ℕ → Operation
  rejects : ℕ → Text → Text → Operation
  queues : List Text → Bool → Operation
  dispatches : ℕ → Operation
  finishes : ℕ → Result → Operation
  guards : Option Bool → ℕ → Operation
  applies : (ℕ → Bool) → Bool → Option Bool → ℕ → ℕ → Result → Operation

unfoldable pub step : Operation → Monitor → Monitor
step invalidates m = invalidate_evidence m
step stops m = stop_session m
step (goes_to now phase message) m = set_state now phase message m
step (idles now phase message) m = idle now phase message m
step (merges now eps refused) m = merge now eps refused m
step (reassesses now) m = reassess_rejected now m
step (rejects now key reason) m = reject_key now key reason m
step (queues keys fresh) m = (queue keys fresh m).0
step (dispatches now) m = (dispatch now m).0
step (finishes now r) m = (finish now r m).0
step (guards up now) m = guard up now m
step (applies gone cancelled up now delay r) m = apply gone cancelled up now delay r m

unfoldable pub run : List Operation → Monitor → Monitor
run [] m = m
run (op ∷ ops) m = run ops (step op m)

unfoldable pub has_session : Option ℕ → Bool
has_session none = false
has_session (some s) = true

-- whether an operation ends the epoch of the evidence
unfoldable pub ends : Operation → Monitor → Bool
ends invalidates m = true
ends stops m = has_session m.session
ends (goes_to now phase message) m = not (same_phase m.state phase)
ends (idles now phase message) m = has_session m.session || not (same_phase m.state phase)
ends (merges now eps refused) m = has_new_identity m (merged now eps refused m)
ends (reassesses now) m = (reassess_each now m.order m.entries false).1
ends (rejects now key reason) m = has_entry m.entries key && is_checkable (find_key m.entries key)
ends (guards (some false) now) m = not (same_phase m.state wan_down)
ends op m = false

-- whether one of them does, each where it comes
unfoldable pub ends_one : List Operation → Monitor → Bool
ends_one [] m = false
ends_one (op ∷ ops) m = let later = ends_one ops (step op m) in if ends op m then true else later
