-- ===== src/Subwatch/Watch/Sound/Outbounds.antt =====
-- A dead outbound and the changes of its tunnel keep every write a step.
use vpn_director.Prelude.{ℕ, Text, Bool, Option, arith}
use vpn_director.VpnConfig.Config.{Config}
use vpn_director.Subwatch.Watch.Methods.{pure}
use vpn_director.Subwatch.Watch.{ok, PlatformInfo, Env, update}
use vpn_director.Subwatch.Watch.Moves.{stage}
use vpn_director.Subwatch.Watch.Outbound.{
  retarget, apply_anyway, announce_left, after_leaving, leave_fallback, fallback_gone,
  judge_fallback, watch_fallback, switch_to, switch_fallback, switch_unless_held, still_unready,
  retry_or_switch_fallback, stage_guarded, begin_episode, explain_unready, finish_move, move_to,
  no_tunnel, settle_returns, declare_dead, fail_guarded, fail_outbound,
}
use vpn_director.Subwatch.Watch.Sound.{IsWrite}
use vpn_director.Subwatch.Watch.Sound.Effects.{Sound-update}
use vpn_director.Subwatch.Watch.Sound.Methods.{
  plain-IsWrite, retarget-IsWrite, sound_rules, Sound, Sound-reload, Sound-fallback_ready,
  Sound-apply_or_owe, Sound-apply_failover, Sound-fallback_carries,
}

stage_guarded-IsWrite : (env : Env) (cfg : Config) (id : Text) → IsWrite (stage_guarded env cfg id)
unfolding stage_guarded
stage_guarded-IsWrite env cfg id = plain-IsWrite _ (λ current next a e. stage id (ground arith))

module _ (env : Env) (stop : ℕ) (start : Config) where
  Sound-retarget :
      (id : Text)
      → Sound env stop start (update env (λ current. pure (ok (retarget id current, tt))))
  Sound-retarget id = Sound-update env stop start _ (retarget-IsWrite id)

  Sound-stage :
      (cfg : Config) (id : Text) → Sound env stop start (update env (stage_guarded env cfg id))
  Sound-stage cfg id = Sound-update env stop start _ (stage_guarded-IsWrite env cfg id)

  Sound-apply_anyway : Sound env stop start (apply_anyway env)
  unfolding apply_anyway
  Sound-apply_anyway = search (sound_rules, Sound-apply_or_owe)

  Sound-announce_left : (next : Text) → Sound env stop start (announce_left env next)
  unfolding announce_left
  Sound-announce_left next = search sound_rules

  Sound-after_leaving :
      (next : Text) (cfg : Config) → Sound env stop start (after_leaving env next cfg)
  unfolding after_leaving
  Sound-after_leaving next cfg =
      search (sound_rules, Sound-announce_left, Sound-apply_anyway, Sound-reload) depth 9

  Sound-leave_fallback :
      (next : Text) (cfg : Config) → Sound env stop start (leave_fallback env next cfg)
  unfolding leave_fallback
  Sound-leave_fallback next cfg = search (sound_rules, Sound-retarget, Sound-after_leaving) depth 9

  Sound-fallback_gone :
      (now : ℕ) (cfg : Config) (plat : PlatformInfo)
      → Sound env stop start (fallback_gone env now cfg plat)
  unfolding fallback_gone
  Sound-fallback_gone now cfg plat = search (sound_rules, Sound-leave_fallback) depth 9

  Sound-judge_fallback :
      (now : ℕ) (cfg : Config) (plat : PlatformInfo)
      → Sound env stop start (judge_fallback env now cfg plat)
  unfolding judge_fallback
  Sound-judge_fallback now cfg plat =
      search (sound_rules, Sound-fallback_gone, Sound-fallback_carries) depth 9

  pub Sound-watch_fallback : (cfg : Config) → Sound env stop start (watch_fallback env cfg)
  unfolding watch_fallback
  Sound-watch_fallback cfg = search (sound_rules, Sound-judge_fallback) depth 12

  Sound-switch_to : (next : Text) (cfg : Config) → Sound env stop start (switch_to env next cfg)
  unfolding switch_to
  Sound-switch_to next cfg =
      search (sound_rules, Sound-retarget, Sound-apply_anyway, Sound-reload) depth 9

  Sound-switch_fallback :
      (now : ℕ) (cfg : Config) → Sound env stop start (switch_fallback env now cfg)
  unfolding switch_fallback
  Sound-switch_fallback now cfg = search (sound_rules, Sound-switch_to) depth 12

  Sound-switch_unless_held :
      (now : ℕ) (cfg : Config) → Sound env stop start (switch_unless_held env now cfg)
  unfolding switch_unless_held
  Sound-switch_unless_held now cfg = search (sound_rules, Sound-switch_fallback) depth 9

  Sound-still_unready : (cfg : Config) → Sound env stop start (still_unready env cfg)
  unfolding still_unready
  Sound-still_unready cfg = search (sound_rules, Sound-fallback_ready) depth 9

  pub Sound-retry_or_switch_fallback :
      (cfg : Config) → Sound env stop start (retry_or_switch_fallback env cfg)
  unfolding retry_or_switch_fallback
  Sound-retry_or_switch_fallback cfg =
      search (sound_rules, Sound-switch_unless_held, Sound-still_unready) depth 12

  Sound-begin_episode : Sound env stop start (begin_episode env)
  unfolding begin_episode
  Sound-begin_episode = search sound_rules

  Sound-explain_unready : (cfg : Config) → Sound env stop start (explain_unready env cfg)
  unfolding explain_unready
  Sound-explain_unready cfg = search (sound_rules, Sound-retry_or_switch_fallback) depth 9

  Sound-finish_move : (cfg : Config) → Sound env stop start (finish_move env cfg)
  unfolding finish_move
  Sound-finish_move cfg =
      search (sound_rules, Sound-reload, Sound-apply_failover, Sound-explain_unready) depth 12

  Sound-move_to : (id : Text) (cfg : Config) → Sound env stop start (move_to env id cfg)
  unfolding move_to
  Sound-move_to id cfg =
      search
        (
          sound_rules, Sound-stage, Sound-begin_episode, Sound-apply_or_owe, Sound-finish_move,
          Sound-reload,
        )
        depth 12

  Sound-no_tunnel :
      (now : ℕ) (answer : Option PlatformInfo) (cfg : Config)
      → Sound env stop start (no_tunnel env now answer cfg)
  unfolding no_tunnel
  Sound-no_tunnel now answer cfg = search sound_rules depth 9

  Sound-settle_returns : Sound env stop start (settle_returns env)
  unfolding settle_returns
  Sound-settle_returns = search sound_rules depth 9

  Sound-declare_dead : (now : ℕ) (cfg : Config) → Sound env stop start (declare_dead env now cfg)
  unfolding declare_dead
  Sound-declare_dead now cfg =
      search (sound_rules, Sound-settle_returns, Sound-no_tunnel, Sound-move_to) depth 12

  Sound-fail_guarded : (cfg : Config) → Sound env stop start (fail_guarded env cfg)
  unfolding fail_guarded
  Sound-fail_guarded cfg = search (sound_rules, Sound-declare_dead) depth 12

  pub Sound-fail_outbound :
      (guarded : Bool) (cfg : Config) → Sound env stop start (fail_outbound env guarded cfg)
  unfolding fail_outbound
  Sound-fail_outbound guarded cfg = search (sound_rules, Sound-fail_guarded) depth 12
