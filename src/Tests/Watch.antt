-- ===== src/Tests/Watch.antt =====
-- Lives of the watch on the sample router.
use vpn_director.Prelude.{
  ℕ, ◌+◌, Bool, true, false, ◌≡◌, ◌⊎◌, ◌≤◌, ◌<◌, refl, none, some, List, [], ◌∷◌, arith, inl,
  contains, all, leb, if◌then◌else◌,
}
use vpn_director.VpnConfig.Exits.{PlatformTunnel}
use vpn_director.VpnConfig.Moves.Tidy.{none-IsTidy}
use vpn_director.Subwatch.Watch.{WatchState, World, Env, note_none, stopped}
use vpn_director.Subwatch.Watch.Deaths.{alive, dead_reason, see, see_all, passes, misses}
use vpn_director.Subwatch.Watch.Deaths.Confirmed.{
  time_of, alive_after_pass, misses_of, looks_of, verdict, dead_reason-verdict,
}
use vpn_director.Subwatch.Watch.Acts.{Act, ticks, dies, live}
use vpn_director.Subwatch.Watch.Run.{run_watch}
use vpn_director.Subwatch.Watch.Sound.{StopsAt, Trace, is_timely}
use vpn_director.Subwatch.Watch.Sound.Ticks.{live-Trace, live_timely}
use vpn_director.Subwatch.Watch.Sound.Routes.{IsKept, live-IsKept}
use vpn_director.Subwatch.Watch.Sound.Choice.{Chosen, live-Chosen}
use vpn_director.VpnConfig.Config.{Config}
use vpn_director.VpnConfig.Failover.{failover_staged}
use vpn_director.VpnConfig.Moves.{stage_xray_clients_to_tunnel, commit_xray_failover}
use vpn_director.Subwatch.Watch.Fallback.{failover_tunnel, pay_apply, apply_failover}
use vpn_director.Subwatch.Watch.Commit.{commit_restore}
use vpn_director.Subwatch.Watch.Sound.Commits.{writes}
use vpn_director.Subwatch.Watch.Sound.Ready.{apply_failover-ready, commit_restore-ready}
use vpn_director.Tests.Sample.{phone, laptop, outsider, wg, router}

abbrev fresh : WatchState
fresh = record {
  fail_since = none;
  fail_seq = 0;
  own_seq = 0;
  failed_probes = 0;
  down_checks = some 0;
  last_import = none;
  import_retry = 0;
  last_route_kind = note_none;
  last_import_kind = note_none;
  pending_apply = false;
  pending_restore = none;
  last_no_tunnel_check = none;
  last_tproxy_fail = none;
  last_fallback_fail = none;
  fallback_tried = [];
  fallback_hold = 0;
  fallback_hold_until = none;
  last_fallback_check = none;
  fallback_down_since = none;
  return_not_before = none;
  return_retry = 0;
  return_fails = 0;
  last_return = none;
  return_seq = 0;
  return_death = none;
  selected_seq = 0;
  reconciled = false;
  mutation_failed = false;
  guarded = false;
  outbound_refused = none;
}

abbrev world : World
world = record { config = router; calls = 0; locked = false; watch = fresh; effects = [] }

abbrev up_tunnel : PlatformTunnel
up_tunnel = record { id = wg; iface = wg; kind = []; connected = true; description = [] }

-- everything works, and VPN Director is stopped at the twelfth call if at all
abbrev sunny : Bool → Env
sunny stops = record {
  refused = λ n. if stops then (if leb 12 n then some stopped else none) else none;
  others = λ n cfg. cfg;
  now = λ n. 1000 + n;
  locks = λ n. true;
  saves = λ n. true;
  loads = λ n. true;
  applies = λ n. true;
  probes = λ n. true;
  platform = λ n. some (record { merlin = true; tunnels = up_tunnel ∷ [] });
  fallback_ready = λ n id. true;
  tproxy_ready = λ n. true;
  has_xray = λ n. true;
  outbound_guard = λ n cfg. none;
}

abbrev death_and_return : List Act
death_and_return = dies false router ∷ ticks 1 ∷ []

-- a death moves the phone onto the tunnel
moved :
    (live (sunny false) (dies false router ∷ []) world).config.xray.clients ≡ laptop ∷ outsider ∷ []
unfolding run_watch
moved = refl

-- and the first tick whose probe passes brings it back
returned : (live (sunny false) death_and_return world).config.tunnels ≡ router.tunnels
unfolding run_watch
returned = refl

live-Trace_example : Trace (sunny false) router (live (sunny false) death_and_return world).config
live-Trace_example = live-Trace (sunny false) death_and_return world refl

live-Chosen_example : Chosen (live (sunny false) death_and_return world).effects
live-Chosen_example = live-Chosen (sunny false) death_and_return world refl

sunny_stops : StopsAt (sunny true) 12
sunny_stops n h = (stopped, ground arith)

live_timely_example : is_timely 12 (live (sunny true) death_and_return world).effects ≡ true
live_timely_example = live_timely (sunny true) 12 death_and_return world sunny_stops refl

phone-IsKept : IsKept phone router
unfolding contains run_watch
phone-IsKept = (none-IsTidy, inl refl)

live-IsKept_example : IsKept phone (live (sunny false) death_and_return world).config
live-IsKept_example =
    live-IsKept (sunny false) death_and_return world phone refl (λ n cfg k. k) phone-IsKept

alive_after_pass_example :
    dead_reason 150 (
      see (misses 150 router true) (see_all (misses 130 router true ∷ []) (see (passes 100) fresh)))
    ≡ alive
alive_after_pass_example =
    alive_after_pass (misses 130 router true ∷ []) fresh 100 150 150 router true
      (unfold all time_of in refl) (omega arith) (omega arith)

dead_reason-verdict_example :
    dead_reason 100 (see_all (misses_of router ((10, true) ∷ (40, true) ∷ [])) fresh)
    ≡ verdict 90 (looks_of ((10, true) ∷ (40, true) ∷ []))
dead_reason-verdict_example =
    dead_reason-verdict router fresh 10 100 true ((40, true) ∷ []) refl refl (unfold all in refl)

-- the router once the phone is staged onto the tunnel
abbrev staged : World
staged = record world { config = stage_xray_clients_to_tunnel router wg }

apply_failover-ready_example :
    (writes (apply_failover (sunny false) staged.config staged).1.effects ≡ writes [])
    ⊎ (c : Config) × ((pay_apply (sunny false) staged.config staged).0 ≡ some c)
      × ((c ≡ staged.config) ⊎ (staged.watch.pending_apply ≡ true))
      × (failover_staged c ≡ true)
      × ((failover_tunnel c ≡ [])
          ⊎ (n : ℕ) × (0 ≤ n)
            × (n < (apply_failover (sunny false) staged.config staged).1.calls)
            × ((sunny false).fallback_ready n (failover_tunnel c) ≡ true))
      × (d : Config) × (writes (apply_failover (sunny false) staged.config staged).1.effects
          ≡ (d, commit_xray_failover d) ∷ writes [])
apply_failover-ready_example = apply_failover-ready (sunny false) staged.config staged

commit_restore-ready_example :
    (writes (commit_restore (sunny false) staged.config (λ c. none) staged).1.effects ≡ writes [])
    ⊎ (n : ℕ) × (0 ≤ n)
      × (n < (commit_restore (sunny false) staged.config (λ c. none) staged).1.calls)
      × ((sunny false).tproxy_ready n ≡ true)
commit_restore-ready_example = commit_restore-ready (sunny false) staged.config (λ c. none) staged
