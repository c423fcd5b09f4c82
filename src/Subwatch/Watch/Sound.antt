-- ===== src/Subwatch/Watch/Sound.antt =====
-- What every method of the watch keeps: each of its writes is a step of the abstract machine, and
-- nothing is done once VPN Director has stopped for good, but for what was under way.
pub mod Effects
pub mod Methods
pub mod Outbounds
pub mod Restores
pub mod Ticks
pub mod Routes
pub mod Choice
pub mod Calm
pub mod Later
pub mod Commits
pub mod Ready
use vpn_director.Prelude.{
  ℕ, ◌+◌, ◌≤◌, ◌<◌, Bool, true, false, not, Option, none, some, List, [], ◌∷◌, ◌≡◌, refl, sym, ◌∙◌,
  arith, leb, ltb, ◌==◌, if◌then◌else◌, all, Option-cases, Bool-cases, inl, inr,
}
use vpn_director.VpnConfig.Config.{Config}
use vpn_director.Subwatch.Watch.Methods.{
  Method, match_option, Preserves, pure, gets, modify, ◌>>=◌, ◌>>◌, preserves_rules, Preserves-bind,
  Preserves-if, Preserves-pure,
}
use vpn_director.Subwatch.Watch.{
  Refusal, WatchState, WatchError, interrupted, Outcome, match_outcome, ok, err, NoteKind, Effect,
  applied, wrote, sent, failed, World, Env, M, change, field, log, set_locked, set_config, ask,
  mutation_allowed, load_vpn, fast_guard_now, refuse_outbound, outbound_allowed_now, is_refused,
  apply, outbound_refuses, save, update_locked, update,
}
use vpn_director.Subwatch.Watch.Notes.{send, notify, note_number, last_kind, keep_kind, begin_note}
use vpn_director.Subwatch.Watch.Moves.{Move}

-- every write is a step
abbrev pub Moves : List (ℕ × Effect) → Type 0
Moves [] = Unit
Moves ((n, applied cfg) ∷ es) = Moves es
Moves ((n, wrote cfg next) ∷ es) = Move cfg next × Moves es
Moves ((n, sent kind) ∷ es) = Moves es

-- no effect behind the fourth call after the stop
unfoldable pub is_timely : ℕ → List (ℕ × Effect) → Bool
is_timely stop es = all (λ e. leb e.0 (stop + 4)) es

-- from the call on the watch is refused
abbrev pub StopsAt : Env → ℕ → Type 0
StopsAt env stop = (n : ℕ) → stop ≤ n → (r : Refusal) × (env.refused n ≡ some r)

-- what the configuration file goes through: steps of the watch, and writes of other processes
pub data Trace (env : Env) (start : Config) : Config → Type 0 where
  here : Trace env start start
  by_watch : {c d : Config} → Trace env start c → Move c d → Trace env start d
  by_others : {c d : Config} (n : ℕ) → Trace env start c → d ≡ env.others n c → Trace env start d

pub record IsSound (env : Env) (stop : ℕ) (start : Config) (w : World) : Type 0 where
  pub file : Trace env start w.config
  pub timely : StopsAt env stop → is_timely stop w.effects ≡ true
  pub moves : Moves w.effects

module _ {A B : Type 0} {P : World → Type 0} where
  pub Preserves-outcome :
      (o : Outcome A) (f : WatchError → M B) (g : A → M B)
      → ((e : WatchError) → Preserves P (f e))
      → ((a : A) → Preserves P (g a))
      → Preserves P (match_outcome o f g)
  unfolding match_outcome
  Preserves-outcome (ok a) f g kf kg = kg a
  Preserves-outcome (err e) f g kf kg = kf e

pub ruleset watch_rules = (preserves_rules, Preserves-outcome)

-- what a closure of `update` does under the lock: little, and the write is a step
pub record IsWrite {A : Type 0} (f : Config → M (Outcome (Config × A))) : Type 0 where
  pub short : (cfg : Config) (w : World) → (f cfg w).1.calls ≤ w.calls + 2
  pub quiet : (cfg : Config) (w : World) → (f cfg w).1.effects ≡ w.effects
  pub held :
      (cfg : Config) (w : World)
      → w.locked ≡ true
      → ((f cfg w).1.locked ≡ true) × ((f cfg w).1.config ≡ w.config)
  pub steps :
      (cfg : Config) (w : World) (next : Config) (a : A)
      → (f cfg w).0 ≡ ok (next, a)
      → Move cfg next

module _ (env : Env) (stop : ℕ) (start : Config) where
  abbrev pub KeepsSound : {A : Type 0} → M A → Type 0
  KeepsSound = Preserves (IsSound env stop start)

  -- a method that has no effect
  pub silent :
      {A : Type 0} (m : M A)
      → ((w : World) → ((m w).1.effects ≡ w.effects) × ((m w).1.config ≡ w.config))
      → KeepsSound m
  silent m h = record {
    kept = λ w s. record {
      file = rw ((h w).1) s.file;
      timely = λ st. rw ((h w).0) (s.timely st);
      moves = rw ((h w).0) s.moves;
    };
  }

  pub Sound-ask : {A : Type 0} (answer : ℕ → A) → KeepsSound (ask env answer)
  unfolding ask
  Sound-ask answer = record {
    kept = λ w s. record {
      file = elim (Bool-cases w.locked) [
        | inl e ↦ rw e s.file
        | inr e ↦ rw e (by_others w.calls s.file refl)
      ];
      timely = s.timely;
      moves = s.moves;
    };
  }

  pub Sound-change : (f : WatchState → WatchState) → KeepsSound (change f)
  unfolding change
  Sound-change f = silent (change f) (λ w. (refl, refl))

  pub Sound-field : {A : Type 0} (f : WatchState → A) → KeepsSound (field f)
  unfolding field
  Sound-field f = silent (field f) (λ w. (refl, refl))

  -- an answer that lets the watch go on comes before the stop
  pub allowed-early :
      StopsAt env stop
      → (w : World) → (mutation_allowed env w).0 ≡ none
      → (mutation_allowed env w).1.calls ≤ stop
  unfolding mutation_allowed ◌>>=◌ pure change match_option
  allowed-early stops w h = elim (Option-cases (env.refused w.calls)) [
    | inl e ↦ elim (Bool-cases (ltb w.calls stop)) [
      | inl lt ↦ rw e (ground arith)
      | inr ge ↦ let (r, f) = stops w.calls (ground arith) in absurd (cc)
    ]
    | inr (r, e) ↦ absurd (let k : some (interrupted r) ≡ none = rw e at h in cc)
  ]

  pub ruleset basic_rules = (watch_rules, Sound-ask, Sound-change, Sound-field)

  pub Sound-mutation_allowed : KeepsSound (mutation_allowed env)
  unfolding mutation_allowed
  Sound-mutation_allowed = search basic_rules

  pub Sound-load_vpn : KeepsSound (load_vpn env)
  unfolding load_vpn
  Sound-load_vpn = search basic_rules

  pub Sound-refuse_outbound : (r : Option WatchError) → KeepsSound (refuse_outbound env r)
  unfolding refuse_outbound
  Sound-refuse_outbound none = search basic_rules
  Sound-refuse_outbound (some e) = search basic_rules

  Sound-fast_guard_now : KeepsSound (fast_guard_now env)
  unfolding fast_guard_now
  Sound-fast_guard_now = search (basic_rules, Sound-mutation_allowed, Sound-load_vpn) depth 12

  Sound-outbound_allowed_now : KeepsSound (outbound_allowed_now env)
  unfolding outbound_allowed_now
  Sound-outbound_allowed_now = search (basic_rules, Sound-fast_guard_now, Sound-refuse_outbound)

  pub Sound-is_refused : KeepsSound (is_refused env)
  unfolding is_refused
  Sound-is_refused = search (basic_rules, Sound-mutation_allowed, Sound-outbound_allowed_now)

  -- a method that lets the watch go on only soon after the stop
  abbrev pub IsPrompt : (World → Option WatchError × World) → Type 0
  IsPrompt m = StopsAt env stop → (w : World) → (m w).0 ≡ none → (m w).1.calls ≤ stop + 1

  fast_guard_now-IsPrompt : IsPrompt (fast_guard_now env)
  unfolding fast_guard_now ◌>>=◌ match_option pure ask
  fast_guard_now-IsPrompt stops w h =
      ground (arith, allowed-early stops (load_vpn env (mutation_allowed env w).1).1)

  outbound_allowed_now-IsPrompt :
      StopsAt env stop
      → (w : World) → w.calls ≤ stop
      → (outbound_allowed_now env w).0 ≡ none
      → (outbound_allowed_now env w).1.calls ≤ stop + 1
  unfolding outbound_allowed_now ◌>>=◌ match_option pure field gets refuse_outbound change modify
  outbound_allowed_now-IsPrompt stops w le h = ground (arith, fast_guard_now-IsPrompt stops w)

  pub is_refused-IsPrompt : IsPrompt (is_refused env)
  unfolding is_refused ◌>>=◌ match_option pure
  is_refused-IsPrompt stops w h = elim (Option-cases (mutation_allowed env w).0) [
    | inl e ↦ rw e (
        outbound_allowed_now-IsPrompt stops (mutation_allowed env w).1 (allowed-early stops w e)
          (rw e at h))
    | inr (why, e) ↦ absurd (let k : some why ≡ none = rw e at h in cc)
  ]
