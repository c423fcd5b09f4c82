-- ===== src/Subwatch/Watch/Sound/Ticks.antt =====
-- The ticks of a failover and of a restore that is still pending, whatever happens between the calls
-- that they make.
use vpn_director.Prelude.{ℕ, Bool, true, List, [], ◌∷◌, ◌≡◌, refl, all}
use vpn_director.VpnConfig.Config.{Config}
use vpn_director.Subwatch.Watch.{World, Env}
use vpn_director.Subwatch.Watch.Restore.{Restored}
use vpn_director.Subwatch.Watch.Tick.{
  probe_ok, announce_restored, restore_clients, begin_failing, announce_moved, see_fallback,
  after_apply, keep_fallback, tick_failover, resume_pending, retry_apply, tick_outbound, tick_armed,
  tick_loaded, keeps, tick_role, tick_body, tick,
}
use vpn_director.Subwatch.Watch.Acts.{Act, ticks, dies, picks, perform, live}
use vpn_director.Subwatch.Watch.Sound.{IsSound, StopsAt, Moves, Trace, here, is_timely}
use vpn_director.Subwatch.Watch.Sound.Methods.{
  sound_rules, Sound, Sound-apply_failover, Sound-extend_failover,
}
use vpn_director.Subwatch.Watch.Sound.Outbounds.{
  Sound-watch_fallback, Sound-retry_or_switch_fallback, Sound-fail_outbound,
}
use vpn_director.Subwatch.Watch.Sound.Restores.{Sound-reconcile_restore, Sound-commit_restore}

module _ (env : Env) (stop : ℕ) (start : Config) where
  Sound-probe_ok : Sound env stop start (probe_ok env)
  unfolding probe_ok
  Sound-probe_ok = search sound_rules depth 9

  Sound-announce_restored : (r : Restored) → Sound env stop start (announce_restored env r)
  unfolding announce_restored
  Sound-announce_restored (end, committed, e) = search sound_rules

  Sound-restore_clients : (cfg : Config) → Sound env stop start (restore_clients env cfg)
  unfolding restore_clients
  Sound-restore_clients cfg =
      search (sound_rules, Sound-commit_restore, Sound-announce_restored) depth 9

  Sound-begin_failing : (cfg : Config) → Sound env stop start (begin_failing env cfg)
  unfolding begin_failing
  Sound-begin_failing cfg = search sound_rules depth 9

  Sound-announce_moved :
      (pending : Bool) (cfg : Config) → Sound env stop start (announce_moved env pending cfg)
  unfolding announce_moved
  Sound-announce_moved pending cfg = search sound_rules

  Sound-see_fallback :
      (staged carried : Bool) (cfg : Config)
      → Sound env stop start (see_fallback env staged carried cfg)
  unfolding see_fallback
  Sound-see_fallback staged carried cfg =
      search (sound_rules, Sound-watch_fallback, Sound-retry_or_switch_fallback) depth 9

  Sound-after_apply :
      (pending staged : Bool) (cfg : Config) (carried : Bool)
      → Sound env stop start (after_apply env pending staged cfg carried)
  unfolding after_apply
  Sound-after_apply pending staged cfg carried =
      search (sound_rules, Sound-announce_moved, Sound-see_fallback) depth 12

  Sound-keep_fallback : (cfg : Config) → Sound env stop start (keep_fallback env cfg)
  unfolding keep_fallback
  Sound-keep_fallback cfg =
      search
        (
          sound_rules, Sound-begin_failing, Sound-extend_failover, Sound-apply_failover,
          Sound-after_apply,
        )
        depth 9

  Sound-tick_failover : (cfg : Config) → Sound env stop start (tick_failover env cfg)
  unfolding tick_failover
  Sound-tick_failover cfg =
      search (sound_rules, Sound-probe_ok, Sound-restore_clients, Sound-keep_fallback) depth 9

  Sound-resume_pending : (cfg : Config) → Sound env stop start (resume_pending env cfg)
  unfolding resume_pending
  Sound-resume_pending cfg = search (sound_rules, Sound-reconcile_restore) depth 12

  Sound-retry_apply : (cfg : Config) → Sound env stop start (retry_apply env cfg)
  unfolding retry_apply
  Sound-retry_apply cfg = search sound_rules depth 9

  Sound-tick_outbound :
      (subs : ℕ) (cfg : Config) → Sound env stop start (tick_outbound env subs cfg)
  unfolding tick_outbound
  Sound-tick_outbound subs cfg = search (sound_rules, Sound-retry_apply) depth 9

  Sound-tick_armed : (subs : ℕ) (cfg : Config) → Sound env stop start (tick_armed env subs cfg)
  unfolding tick_armed
  Sound-tick_armed subs cfg =
      search (sound_rules, Sound-resume_pending, Sound-tick_outbound, Sound-tick_failover) depth 9

  Sound-keeps : (subs : ℕ) (cfg : Config) → Sound env stop start (keeps env subs cfg)
  unfolding keeps
  Sound-keeps subs cfg = search sound_rules depth 9

  Sound-tick_role :
      (subs : ℕ) (cfg : Config) (is_armed : Bool)
      → Sound env stop start (tick_role env subs cfg is_armed)
  unfolding tick_role
  Sound-tick_role subs cfg is_armed = search (sound_rules, Sound-keeps, Sound-tick_armed) depth 12

  Sound-tick_loaded : (subs : ℕ) (cfg : Config) → Sound env stop start (tick_loaded env subs cfg)
  unfolding tick_loaded
  Sound-tick_loaded subs cfg = search (sound_rules, Sound-tick_role) depth 9

  Sound-tick_body : (subs : ℕ) → Sound env stop start (tick_body env subs)
  unfolding tick_body
  Sound-tick_body subs = search (sound_rules, Sound-tick_loaded) depth 12

  Sound-tick : (subs : ℕ) → Sound env stop start (tick env subs)
  unfolding tick
  Sound-tick subs = search (sound_rules, Sound-tick_body) depth 9

  Sound-perform : (act : Act) → Sound env stop start (perform env act)
  unfolding perform
  Sound-perform (ticks subs) = search (sound_rules, Sound-tick)
  Sound-perform (dies guarded cfg) = search (sound_rules, Sound-fail_outbound)
  Sound-perform (picks cfg guard) = search (sound_rules, Sound-commit_restore)

  live-IsSound :
      (acts : List Act) (w : World)
      → IsSound env stop start w
      → IsSound env stop start (live env acts w)
  unfolding live
  live-IsSound [] w s = s
  live-IsSound (act ∷ acts) w s =
      live-IsSound acts (perform env act w).1 ((Sound-perform act).kept w s)

unlogged-IsSound : (env : Env) (stop : ℕ) (w : World) → w.effects ≡ [] → IsSound env stop w.config w
unfolding is_timely all
unlogged-IsSound env stop w e = record { file = here; timely = λ stops. rw e refl; moves = rw e tt }

-- Whatever ticks up to their wave, their probe or the keeper, deaths and restores the watch lives
-- through, and whatever the world answers to its calls, the configuration file goes only through
-- steps of the abstract machine and through writes of other processes.
pub live-Trace :
    (env : Env) (acts : List Act) (w : World)
    → w.effects ≡ []
    → Trace env w.config (live env acts w).config
live-Trace env acts w e = (live-IsSound env 0 w.config acts w (unlogged-IsSound env 0 w e)).file

-- If VPN Director is stopped, or the watch incompatible, at every call from some number on, then
-- whatever ticks up to their wave, their probe or the keeper, deaths and restores the watch lives
-- through, it makes no write, no apply and no message behind the fourth call after that.
pub live_timely :
    (env : Env) (stop : ℕ) (acts : List Act) (w : World)
    → StopsAt env stop
    → w.effects ≡ []
    → is_timely stop (live env acts w).effects ≡ true
live_timely env stop acts w stops e =
    (live-IsSound env stop w.config acts w (unlogged-IsSound env stop w e)).timely stops

-- each write that the watch makes is a step of the abstract machine
pub live-Moves :
    (env : Env) (acts : List Act) (w : World) → w.effects ≡ [] → Moves (live env acts w).effects
live-Moves env acts w e = (live-IsSound env 0 w.config acts w (unlogged-IsSound env 0 w e)).moves
