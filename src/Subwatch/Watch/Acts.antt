-- ===== src/Subwatch/Watch/Acts.antt =====
-- What the watch does in its life with a failover: ticks up to their wave, their probe or the
-- keeper, deaths of the outbound, and the restores of a walk that has picked a server, in any order.
use vpn_director.Prelude.{ℕ, Bool, List, [], ◌∷◌}
use vpn_director.VpnConfig.Config.{Config}
use vpn_director.Subwatch.Watch.Methods.{pure, ◌>>=◌}
use vpn_director.Subwatch.Watch.{World, Env, M}
use vpn_director.Subwatch.Watch.Outbound.{fail_outbound}
use vpn_director.Subwatch.Watch.Commit.{Guard, commit_restore}
use vpn_director.Subwatch.Watch.Tick.{tick}

pub data Act : Type 0 where
  ticks : ℕ → Act
  dies : Bool → Config → Act
  picks : Config → Guard → Act

unfoldable pub perform : Env → Act → M Unit
perform env (ticks subs) = do next ← tick env subs; pure tt
perform env (dies guarded cfg) = do next ← fail_outbound env guarded cfg; pure tt
perform env (picks cfg guard) = do r ← commit_restore env cfg guard; pure tt

-- the world after the acts, one behind the other
unfoldable pub live : Env → List Act → World → World
live env [] w = w
live env (act ∷ acts) w = live env acts (perform env act w).1
