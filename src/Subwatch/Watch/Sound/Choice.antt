-- ===== src/Subwatch/Watch/Sound/Choice.antt =====
-- The choice of the user through the watch's steps.
use vpn_director.Prelude.{ℕ, Text, ◌≡◌, refl, List, [], ◌∷◌, arith, inl, inr}
use vpn_director.VpnConfig.Config.{Config}
use vpn_director.VpnConfig.Moves.{
  stage_xray_clients_to_tunnel, commit_xray_failover, extend_xray_failover, extend_on,
  restore_xray_clients_from_failover, ensure_failover_staged, apply_failover_snapshot,
  apply_snapshot_on,
}
use vpn_director.VpnConfig.Moves.Stage.{stage_cases}
use vpn_director.VpnConfig.Moves.Routes.{extend_cases}
use vpn_director.VpnConfig.Pending.{begin_xray_restore, begin_restore_of}
use vpn_director.Subwatch.Watch.{Effect, applied, wrote, sent, World, Env}
use vpn_director.Subwatch.Watch.Outbound.{retarget, stage_death}
use vpn_director.Subwatch.Watch.Restore.{forget_restore}
use vpn_director.Subwatch.Watch.Moves.{
  Move, stage, commit, extend, switch, ensure, begin, finish, reinstate,
}
use vpn_director.Subwatch.Watch.Acts.{Act, live}
use vpn_director.Subwatch.Watch.Sound.{Moves}
use vpn_director.Subwatch.Watch.Sound.Ticks.{live-Moves}

-- the running server, the preferred one, the pauses and the bypassed addresses are as they were
pub record IsChosen (cfg next : Config) : Type 0 where
  pub active : next.xray.active_server ≡ cfg.xray.active_server
  pub preferred : next.xray.preferred_server ≡ cfg.xray.preferred_server
  pub servers : next.xray.servers ≡ cfg.xray.servers
  pub paused : next.paused_clients ≡ cfg.paused_clients

stage-IsChosen : (cfg : Config) (id : Text) → IsChosen cfg (stage_xray_clients_to_tunnel cfg id)
stage-IsChosen cfg id = elim (stage_cases cfg id) [
  | inl e ↦ rw e (record { active = refl; preferred = refl; servers = refl; paused = refl })
  | inr (tun, g, f, e) ↦
      rw e (record { active = refl; preferred = refl; servers = refl; paused = refl })
]

extend-IsChosen : (cfg : Config) → IsChosen cfg (extend_xray_failover cfg).0
unfolding extend_on
extend-IsChosen cfg = elim (extend_cases cfg) [
  | inl e ↦ rw e (record { active = refl; preferred = refl; servers = refl; paused = refl })
  | inr (fo, tun, ips, f, g, e) ↦
      rw e (record { active = refl; preferred = refl; servers = refl; paused = refl })
]

restore-IsChosen : (cfg : Config) → IsChosen cfg (restore_xray_clients_from_failover cfg).0
unfolding restore_xray_clients_from_failover
restore-IsChosen cfg = ground arith

retarget-IsChosen : (cfg : Config) (id : Text) → IsChosen cfg (retarget id cfg)
unfolding retarget
retarget-IsChosen cfg id =
    ground
      (arith, restore-IsChosen cfg, stage-IsChosen (restore_xray_clients_from_failover cfg).0 id)

pub Move-IsChosen : (cfg next : Config) → Move cfg next → IsChosen cfg next
unfolding stage_death forget_restore commit_xray_failover ensure_failover_staged begin_xray_restore
    begin_restore_of apply_failover_snapshot apply_snapshot_on
Move-IsChosen cfg next (stage id e) = ground (arith, stage-IsChosen cfg id)
Move-IsChosen cfg next (commit e) = ground arith
Move-IsChosen cfg next (extend e) = ground (arith, extend-IsChosen cfg)
Move-IsChosen cfg next (switch id e) = ground (arith, retarget-IsChosen cfg id)
Move-IsChosen cfg next (ensure e) = ground arith
Move-IsChosen cfg next (begin p e) = ground (arith, restore-IsChosen cfg)
Move-IsChosen cfg next (finish e) = ground arith
Move-IsChosen cfg next (reinstate p fo f h s e) = ground arith

-- no write among the effects changes the choice
abbrev pub Chosen : List (ℕ × Effect) → Type 0
Chosen [] = Unit
Chosen ((n, applied cfg) ∷ es) = Chosen es
Chosen ((n, wrote cfg next) ∷ es) = IsChosen cfg next × Chosen es
Chosen ((n, sent kind) ∷ es) = Chosen es

Moves-Chosen : (es : List (ℕ × Effect)) → Moves es → Chosen es
Moves-Chosen [] m = tt
Moves-Chosen ((n, applied cfg) ∷ es) m = Moves-Chosen es m
Moves-Chosen ((n, wrote cfg next) ∷ es) (m, ms) = (Move-IsChosen cfg next m, Moves-Chosen es ms)
Moves-Chosen ((n, sent kind) ∷ es) m = Moves-Chosen es m

-- Whatever ticks up to their wave, their probe or the keeper, deaths and restores the watch lives
-- through, no write that it makes changes which server runs, which one the user prefers, who is
-- paused or which addresses of servers go round the tunnels.
pub live-Chosen :
    (env : Env) (acts : List Act) (w : World) → w.effects ≡ [] → Chosen (live env acts w).effects
live-Chosen env acts w e = Moves-Chosen (live env acts w).effects (live-Moves env acts w e)
