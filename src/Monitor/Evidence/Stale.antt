-- ===== src/Monitor/Evidence/Stale.antt =====
-- Evidence of an epoch that is over.
use vpn_director.Prelude.{ℕ, ◌+◌, ◌^◌, ◌%◌, ◌≤◌, ◌⊎◌, Bool, false, ◌≡◌}
use vpn_director.Monitor.State.{Monitor}
use vpn_director.Monitor.Evidence.{Evidence}

-- The generation at the end of operations, so many steps after the one that it had.
Stepped : Bool → ℕ → ℕ → ℕ → Type 0
Stepped ended most before after =
    (d : ℕ) × (d ≤ most) × ((1 ≤ d) ⊎ (ended ≡ false)) × (after ≡ (before + d) % 2 ^ 64)
