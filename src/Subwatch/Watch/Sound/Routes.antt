-- ===== src/Subwatch/Watch/Sound/Routes.antt =====
-- No address loses its last route to the watch's steps.
use vpn_director.Prelude.{
  ℕ, Text, ◌≡◌, ◌⊎◌, List, [], arith, text_eq, Bool-cases, Option-cases, inl, inr,
}
use vpn_director.VpnConfig.Config.{Config}
use vpn_director.VpnConfig.Moves.{restore_xray_clients_from_failover}
use vpn_director.VpnConfig.Moves.Routes.{
  IsRouted, IsTidy, stage-IsRouted, commit-IsRouted, extend-IsRouted, restore-IsRouted,
  ensure-IsRouted, reinstate-IsRouted,
}
use vpn_director.VpnConfig.Moves.Tidy.{
  stage-IsTidy, commit-IsTidy, extend-IsTidy, restore-IsTidy, ensure-IsTidy, reinstate-IsTidy,
  failover_snapshot-Clean,
}
use vpn_director.VpnConfig.Pending.{begin_xray_restore, begin_restore_of}
use vpn_director.Subwatch.Watch.{World, Env}
use vpn_director.Subwatch.Watch.Outbound.{retarget, stage_death}
use vpn_director.Subwatch.Watch.Restore.{forget_restore}
use vpn_director.Subwatch.Watch.Moves.{
  Move, stage, commit, extend, switch, ensure, begin, finish, reinstate,
}
use vpn_director.Subwatch.Watch.Acts.{Act, live}
use vpn_director.Subwatch.Watch.Sound.{Trace, here, by_watch, by_others}
use vpn_director.Subwatch.Watch.Sound.Ticks.{live-Trace}

-- the address has a route, and the failover added no address but its clients
abbrev pub IsKept : Text → Config → Type 0
IsKept ip cfg = IsTidy cfg.xray.failover × IsRouted cfg ip

retarget-IsKept : (ip id : Text) (cfg : Config) → IsKept ip cfg → IsKept ip (retarget id cfg)
unfolding retarget
retarget-IsKept ip id cfg (t, r) =
    let restored = (restore_xray_clients_from_failover cfg).0 in
    let tr : IsTidy restored.xray.failover = restore-IsTidy cfg in
    let rr : IsRouted restored ip = restore-IsRouted cfg ip t r in
    elim (Bool-cases (text_eq id [])) [
      | inl e ↦ rw e (tr, rr)
      | inr e ↦ rw e (stage-IsTidy restored id tr, stage-IsRouted restored id ip rr)
    ]

begin_cases :
    (cfg : Config)
    → ((begin_xray_restore cfg).0 ≡ cfg)
      ⊎ (((begin_xray_restore cfg).0.tunnels ≡ (restore_xray_clients_from_failover cfg).0.tunnels)
          × ((begin_xray_restore cfg).0.xray.clients
              ≡ (restore_xray_clients_from_failover cfg).0.xray.clients)
          × ((begin_xray_restore cfg).0.xray.failover
              ≡ (restore_xray_clients_from_failover cfg).0.xray.failover))
unfolding begin_xray_restore begin_restore_of
begin_cases cfg = elim (Option-cases cfg.xray.failover) [
  | inl n ↦ inl (ground arith)
  | inr (fo, f) ↦ elim (Option-cases cfg.xray.pending_restore) [
    | inr (p, h) ↦ inl (ground arith)
    | inl h ↦ inr (ground arith, ground arith, ground arith)
  ]
]

begin-IsKept : (ip : Text) (cfg : Config) → IsKept ip cfg → IsKept ip (begin_xray_restore cfg).0
begin-IsKept ip cfg (t, r) = elim (begin_cases cfg) [
  | inl e ↦ rw e (t, r)
  | inr (tunnels, clients, failover) ↦
      (rw failover (restore-IsTidy cfg), rw (tunnels, clients) (restore-IsRouted cfg ip t r))
]

Move-IsKept : (ip : Text) (cfg next : Config) → Move cfg next → IsKept ip cfg → IsKept ip next
unfolding stage_death forget_restore
Move-IsKept ip cfg next (stage id e) (t, r) =
    rw e (stage-IsTidy cfg id t, stage-IsRouted cfg id ip r)
Move-IsKept ip cfg next (commit e) (t, r) = rw e (commit-IsTidy cfg t, commit-IsRouted cfg ip r)
Move-IsKept ip cfg next (extend e) (t, r) = rw e (extend-IsTidy cfg t, extend-IsRouted cfg ip r)
Move-IsKept ip cfg next (switch id e) k = rw e (retarget-IsKept ip id cfg k)
Move-IsKept ip cfg next (ensure e) (t, r) = rw e (ensure-IsTidy cfg t, ensure-IsRouted cfg ip r)
Move-IsKept ip cfg next (begin p e) k = rw e (begin-IsKept ip cfg k)
Move-IsKept ip cfg next (finish e) (t, r) = rw e (t, r)
Move-IsKept ip cfg next (reinstate p fo f h s e) (t, r) =
    rw e (
      reinstate-IsTidy cfg fo (failover_snapshot-Clean p cfg fo s) t,
      reinstate-IsRouted cfg fo ip r,
    )

Trace-IsKept :
    (env : Env) (ip : Text) (start last : Config)
    → ((n : ℕ) (cfg : Config) → IsKept ip cfg → IsKept ip (env.others n cfg))
    → Trace env start last
    → IsKept ip start
    → IsKept ip last
Trace-IsKept env ip start last others here k = k
Trace-IsKept env ip start last others (by_watch {c = c} tr m) k =
    Move-IsKept ip c last m (Trace-IsKept env ip start c others tr k)
Trace-IsKept env ip start last others (by_others {c = c} n tr e) k =
    rw e (others n c (Trace-IsKept env ip start c others tr k))

-- Let an address be on Xray or on a tunnel, let the failover have added no address to its tunnel but
-- clients of its own, and let every other process keep both. Then, whatever ticks up to their
-- wave, their probe or the keeper, deaths and restores the watch lives through, and however its
-- calls end, both still hold.
pub live-IsKept :
    (env : Env) (acts : List Act) (w : World) (ip : Text)
    → w.effects ≡ []
    → ((n : ℕ) (cfg : Config) → IsKept ip cfg → IsKept ip (env.others n cfg))
    → IsKept ip w.config
    → IsKept ip (live env acts w).config
live-IsKept env acts w ip e others k =
    Trace-IsKept env ip w.config (live env acts w).config others (live-Trace env acts w e) k
