-- ===== src/Subwatch/Watch.antt =====
-- server/internal/subwatch/watch.go and recovery.go: the failover that the watch carries Xray's
-- clients through while Xray is down, and the restore that brings them back.
--
-- Each answer of the world outside, such as whether a script succeeded or whether VPN Director is
-- stopped, is asked for by one call, and the answers are functions of the number of the call. So
-- they may change between any two calls, and other processes may write the configuration before any
-- call that the watch does not make under the config lock.
pub mod Methods
pub mod Notes
pub mod Deaths
pub mod Guards
pub mod Fallback
pub mod Outbound
pub mod Restore
pub mod Commit
pub mod Tick
pub mod Moves
pub mod Sound
pub mod Acts
pub mod Run
use vpn_director.Prelude.{
  ℕ, ◌+◌, ◌-◌, Text, Bool, true, false, ◌&&◌, ◌||◌, not, Option, none, some, List, [], ◌∷◌,
  if◌then◌else◌, ◌==◌, ltb,
}
use vpn_director.VpnConfig.Config.{Config, XrayPendingRestore}
use vpn_director.VpnConfig.Exits.{PlatformTunnel}
use vpn_director.Subwatch.Watch.Methods.{Method, match_option, pure, gets, modify, ◌>>=◌, ◌>>◌}

-- why the watch may not act: `errStopped`, `ErrIncompatible` or the end of the tick's context
pub data Refusal : Type 0 where
  stopped : Refusal
  incompatible : Refusal
  canceled : Refusal

-- `superseded`, `needs_apply` and `restore_apply` are errSuperseded, errRestoreNeedsApply and
-- errRestoreApply; `failed` is any error of an operation itself
pub data WatchError : Type 0 where
  interrupted : Refusal → WatchError
  superseded : WatchError
  needs_apply : WatchError
  restore_apply : WatchError
  failed : WatchError

pub data Outcome {ℓ} (A : Type ℓ) : Type ℓ where
  ok : A → Outcome A
  err : WatchError → Outcome A

unfoldable pub match_outcome {ℓ} :
    {A : Type ℓ} {B : Type ℓ} → Outcome A → (WatchError → B) → (A → B) → B
match_outcome (ok a) f g = g a
match_outcome (err e) f g = f e

pub data NoteKind : Type 0 where
  note_none : NoteKind
  note_moved : NoteKind
  note_no_tunnel : NoteKind
  note_fallback_not_ready : NoteKind
  note_refresh_failed : NoteKind
  note_no_live : NoteKind
  note_restored : NoteKind
  note_returned : NoteKind

-- `PlatformInfo`: whether it is Merlin, and its tunnels
pub record PlatformInfo : Type 0 where
  pub merlin : Bool
  pub tunnels : List PlatformTunnel

-- The fields of `Watch` that the failover and the restore use. A zero time is none, and the
-- `down_checks` of -1 are none.
pub record WatchState : Type 0 where
  pub fail_since : Option ℕ
  pub fail_seq : ℕ
  pub own_seq : ℕ
  pub failed_probes : ℕ
  pub down_checks : Option ℕ
  pub last_import : Option ℕ
  pub import_retry : ℕ
  pub last_route_kind : NoteKind
  pub last_import_kind : NoteKind
  pub pending_apply : Bool
  pub pending_restore : Option XrayPendingRestore
  pub last_no_tunnel_check : Option ℕ
  pub last_tproxy_fail : Option ℕ
  pub last_fallback_fail : Option ℕ
  pub fallback_tried : List Text
  pub fallback_hold : ℕ
  pub fallback_hold_until : Option ℕ
  pub last_fallback_check : Option ℕ
  pub fallback_down_since : Option ℕ
  pub return_not_before : Option ℕ
  pub return_retry : ℕ
  pub return_fails : ℕ
  pub last_return : Option ℕ
  pub return_seq : ℕ
  pub return_death : Option ℕ
  pub selected_seq : ℕ
  pub reconciled : Bool
  pub mutation_failed : Bool
  pub guarded : Bool
  pub outbound_refused : Option WatchError

-- what the watch does to the world: an apply of a configuration, a write from one configuration to
-- another, and a message
pub data Effect : Type 0 where
  applied : Config → Effect
  wrote : Config → Config → Effect
  sent : NoteKind → Effect

pub record World : Type 0 where
  pub config : Config
  pub calls : ℕ
  pub locked : Bool
  pub watch : WatchState
  pub effects : List (ℕ × Effect)

-- `refused` is what mutationRefused and the tick's context say; `locks` whether the config could be
-- locked and read, `saves` whether it could be written; `outbound_guard` the guard that a fast check
-- hands to failOutbound; `has_xray` whether the monitor's evidence, if there is a monitor, says
-- anything but that Xray is not installed. Times are in seconds.
pub record Env : Type 0 where
  pub refused : ℕ → Option Refusal
  pub others : ℕ → Config → Config
  pub now : ℕ → ℕ
  pub locks : ℕ → Bool
  pub saves : ℕ → Bool
  pub loads : ℕ → Bool
  pub applies : ℕ → Bool
  pub probes : ℕ → Bool
  pub platform : ℕ → Option PlatformInfo
  pub fallback_ready : ℕ → Text → Bool
  pub tproxy_ready : ℕ → Bool
  pub has_xray : ℕ → Bool
  pub outbound_guard : ℕ → Config → Option WatchError

abbrev pub M : Type 0 → Type 0
M A = Method World A

unfoldable pub change : (WatchState → WatchState) → M Unit
unfolding modify
change f = modify (λ w. record w { watch = f w.watch })

unfoldable pub field : {A : Type 0} → (WatchState → A) → M A
unfolding gets
field f = gets (λ w. f w.watch)

unfoldable pub log : Effect → M Unit
unfolding modify
log e = modify (λ w. record w { effects = (w.calls, e) ∷ w.effects })

unfoldable pub set_locked : Bool → M Unit
unfolding modify
set_locked b = modify (λ w. record w { locked = b })

unfoldable pub set_config : Config → M Unit
unfolding modify
set_config cfg = modify (λ w. record w { config = cfg })

module _ (env : Env) where
  -- one call of the world outside
  unfoldable pub ask : {A : Type 0} → (ℕ → A) → M A
  ask answer w = (
    answer w.calls,
    record w {
      calls = w.calls + 1;
      config = if w.locked then w.config else env.others w.calls w.config;
    },
  )

  unfoldable pub mutation_allowed : M (Option WatchError)
  unfolding ask
  mutation_allowed = do
    r ← ask env.refused
    match_option r (pure none)
        (λ why. do change (λ s. record s { mutation_failed = true }); pure (some (interrupted why)))

  -- `LoadVPN`; none is an error
  unfoldable pub load_vpn : M (Option Config)
  load_vpn = do
    readable ← ask env.loads
    cfg ← gets (λ w. w.config)
    pure (if readable then some cfg else none)

  -- `fastGuardNow` with the guard that failOutbound was handed
  unfoldable pub fast_guard_now : M (Option WatchError)
  unfolding ask
  fast_guard_now = do
    early ← mutation_allowed
    match_option early
        (do
          loaded ← load_vpn
          late ← mutation_allowed
          match_option late
              (match_option loaded (pure (some failed))
                (λ cfg. ask (λ n. env.outbound_guard n cfg)))
              (λ e. pure (some e)))
        (λ e. pure (some e))

  unfoldable pub refuse_outbound : Option WatchError → M (Option WatchError)
  refuse_outbound none = pure none
  refuse_outbound (some e) = do change (λ s. record s { outbound_refused = some e }); pure (some e)

  -- `outboundAllowedNow`
  unfoldable pub outbound_allowed_now : M (Option WatchError)
  outbound_allowed_now = do
    s ← field (λ s. s)
    if not s.guarded
        then pure none
        else match_option s.outbound_refused (fast_guard_now >>= refuse_outbound)
            (λ e. pure (some e))

  -- `w.mutationAllowed() != nil || w.outboundAllowedNow() != nil`
  unfoldable pub is_refused : M (Option WatchError)
  is_refused = do r ← mutation_allowed; match_option r (outbound_allowed_now) (λ e. pure (some e))

  unfoldable pub apply : M (Option WatchError)
  unfolding ask
  apply = do
    early ← is_refused
    match_option early
        (do
          cfg ← gets (λ w. w.config)
          log (applied cfg)
          done ← ask env.applies
          late ← is_refused
          match_option late (pure (if done then none else some failed)) (λ e. pure (some e)))
        (λ e. pure (some e))

  -- the guard of an update, under the config lock
  unfoldable pub outbound_refuses : Config → M (Option WatchError)
  unfolding ask
  outbound_refuses cfg = do
    s ← field (λ s. s)
    if not s.guarded
        then pure none
        else match_option s.outbound_refused
            (ask (λ n. env.outbound_guard n cfg) >>= refuse_outbound) (λ e. pure (some e))

  -- what an update writes, unless the lock is left with an error
  unfoldable pub save : {A : Type 0} → Config → Outcome (Config × A) → M (Outcome A)
  unfolding ask
  save cfg (err e) = pure (err e)
  save cfg (ok (next, a)) = do
    written ← ask env.saves
    if written then (do log (wrote cfg next); set_config next; pure (ok a)) else pure (err failed)

  unfoldable pub update_locked : {A : Type 0} → (Config → M (Outcome (Config × A))) → M (Outcome A)
  update_locked f = do
    cfg ← gets (λ w. w.config)
    r ← mutation_allowed
    match_option r
        (do g ← outbound_refuses cfg; match_option g (f cfg >>= save cfg) (λ e. pure (err e)))
        (λ e. pure (err e))

  -- `update`
  unfoldable pub update : {A : Type 0} → (Config → M (Outcome (Config × A))) → M (Outcome A)
  unfolding ask
  update f = do
    locks ← ask env.locks
    if not locks
        then pure (err failed)
        else (do set_locked true; r ← update_locked f; set_locked false; pure r)
