-- ===== src/Tests/Best.antt =====
-- The order of a switch on concrete servers.
use mathlib.Core.List.{Perm}
use vpn_director.Prelude.{ℕ, Text, true, some, List, [], ◌∷◌, ◌≡◌, refl, keep_if, text_eq}
use vpn_director.VpnConfig.Servers.{Server}
use vpn_director.Tests.Walk.{kinds, riga, oslo, oslo_twin}
use vpn_director.Monitor.Entries.{Status, alive, rejected, EndpointState, same_status}
use vpn_director.Monitor.State.{ok, find_key}
use vpn_director.Monitor.Evidence.{Evidence, Proof}
use vpn_director.Subwatch.Best.{
  BestRef, ranked, order_best, servers_of, sort_ranked, insert_ranked, ranks_before, rank_each,
  tier_of, is_left_out, is_alive_server, known_state, state_of, is_status_alive, is_status_rejected,
  latency_of,
}
use vpn_director.Subwatch.Best.Ordered.{not_rejected, is_in_order, is_level, order_best-sorted}

abbrev key : Server → Text
key s = s.uuid

abbrev state_with : Status → ℕ → EndpointState
state_with status latency = record {
  status = status;
  latency_ms = latency;
  checked_at = 1;
  next_at = 9;
  since = 1;
  fails = 0;
  error = [];
}

abbrev proof_with : Status → Proof
proof_with status = record { completion = 1; revision = 1; status = status }

abbrev evidence : Evidence
evidence = record {
  state = ok;
  session = some 3;
  generation = 2;
  found =
      (riga.uuid, (state_with alive 80, proof_with alive))
      ∷ (oslo.uuid, (state_with rejected 0, proof_with rejected))
      ∷ (oslo_twin.uuid, (state_with alive 20, proof_with alive))
      ∷ [];
}

abbrev ref : BestRef
ref = record { subscription = []; group = [] }

abbrev copies : List Server
copies = riga ∷ oslo ∷ oslo_twin ∷ []

-- the faster of the two alive ones, and nothing of the rejected one
faster_first : order_best kinds key ref evidence true copies ≡ oslo_twin ∷ riga ∷ []
unfolding order_best servers_of sort_ranked insert_ranked ranks_before rank_each ranked tier_of
    is_left_out is_alive_server known_state state_of is_status_alive is_status_rejected latency_of
    find_key text_eq same_status
faster_first = refl

order_best-sorted_example :
    Perm
      (not_rejected kinds key ref evidence true copies)
      (order_best kinds key ref evidence true copies)
    × (is_in_order kinds key ref evidence true (order_best kinds key ref evidence true copies)
        ≡ true)
    × (keep_if
          (λ c. is_level kinds key ref evidence true c riga)
          (order_best kinds key ref evidence true copies)
        ≡ keep_if
            (λ c. is_level kinds key ref evidence true c riga)
            (not_rejected kinds key ref evidence true copies))
order_best-sorted_example = order_best-sorted kinds key ref evidence true copies riga
