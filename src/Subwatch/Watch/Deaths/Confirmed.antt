-- ===== src/Subwatch/Watch/Deaths/Confirmed.antt =====
-- What a death of the outbound rests on: the probes since the last one that passed, and the looks at
-- the server.
use vpn_director.Prelude.{
  ℕ, ◌+◌, ◌-◌, ◌≤◌, ◌<◌, Bool, true, false, ◌&&◌, Option, none, some, List, [], ◌∷◌, ◌≡◌, refl,
  arith, all, map, length, leb, ltb, if◌then◌else◌, Option-cases, inl, inr,
}
use vpn_director.VpnConfig.Config.{Config}
use vpn_director.VpnConfig.Servers.{active_seq}
use vpn_director.Subwatch.Watch.{WatchState}
use vpn_director.Subwatch.Watch.Deaths.{
  dead_after, fast_dead_after, reset_fail, missed, DeadReason, alive, unreachable, by_probe,
  dead_by, dead_reason, check_reach, Sight, passes, misses, is_young, look, see, see_all,
}

unfoldable pub time_of : Sight → ℕ
time_of (passes now) = now
time_of (misses now cfg down) = now

-- a failure counted since the time or later
unfoldable pub fails_since : ℕ → WatchState → Bool
fails_since time s = elim s.fail_since [ none ↦ true | some since ↦ leb time since ]

see-fails_since :
    (time : ℕ) (sight : Sight) (s : WatchState)
    → time ≤ time_of sight
    → fails_since time s ≡ true
    → fails_since time (see sight s) ≡ true
unfolding see time_of fails_since reset_fail missed look check_reach
see-fails_since time (passes now) s h f = refl
see-fails_since time (misses now cfg down) s h f = ground arith

see_all-fails_since :
    (time : ℕ) (sights : List Sight) (s : WatchState)
    → all (λ sight. leb time (time_of sight)) sights ≡ true
    → fails_since time s ≡ true
    → fails_since time (see_all sights s) ≡ true
unfolding see_all all
see_all-fails_since time [] s h f = f
see_all-fails_since time (sight ∷ sights) s h f =
    see_all-fails_since time sights (see sight s) (ground arith)
      (see-fails_since time sight s (ground arith) f)

-- after a miss the failure has begun
see_miss-since :
    (now : ℕ) (cfg : Config) (down : Bool) (s : WatchState)
    → (since : ℕ) × ((see (misses now cfg down) s).fail_since ≡ some since)
unfolding see look check_reach missed reset_fail
see_miss-since now cfg down s = elim (Option-cases (see (misses now cfg down) s).fail_since) [
  | inl n ↦ absurd (ground arith)
  | inr found ↦ found
]

-- Less than a minute after a probe has passed the outbound does not count as dead, whatever the
-- probes since, the last of which has missed, the looks and the selections were.
pub alive_after_pass :
    (sights : List Sight) (s : WatchState) (passed last now : ℕ) (cfg : Config) (down : Bool)
    → all (λ sight. leb passed (time_of sight)) sights ≡ true
    → passed ≤ last
    → now < passed + fast_dead_after
    → dead_reason now (see (misses last cfg down) (see_all sights (see (passes passed) s))) ≡ alive
unfolding dead_reason dead_by fails_since
alive_after_pass sights s passed last now cfg down h le young =
    let before = see_all sights (see (passes passed) s) in
    let (since, e) = see_miss-since last cfg down before in
    let f : fails_since passed (see (misses last cfg down) before) ≡ true =
      see-fails_since passed (misses last cfg down) before (unfold time_of in le) (
        see_all-fails_since passed sights (see (passes passed) s) h
          (unfold see reset_fail in refl)) in
    ground arith

-- what a death rests on, of how long the probes have missed and what the looks have found
unfoldable pub verdict : ℕ → List Bool → DeadReason
verdict failing looks =
    if leb fast_dead_after failing && all (λ down. down) looks && leb 2 (length looks)
    then unreachable
    else if leb dead_after failing
    then by_probe
    else alive

-- the misses of one record, each with its look
unfoldable pub misses_of : Config → List (ℕ × Bool) → List Sight
misses_of cfg [] = []
misses_of cfg ((now, down) ∷ rest) = misses now cfg down ∷ misses_of cfg rest

unfoldable pub count_down : Option ℕ → List Bool → Option ℕ
count_down none looks = none
count_down (some n) [] = some n
count_down (some n) (down ∷ looks) = count_down (if down then some (n + 1) else none) looks

count_down_lem :
    (n : ℕ) (looks : List Bool)
    → count_down (some n) looks
      ≡ (if all (λ down. down) looks then some (n + length looks) else none)
unfolding count_down all
count_down_lem n [] = ground arith
count_down_lem n (true ∷ looks) = ground (arith, count_down_lem (n + 1) looks)
count_down_lem n (false ∷ looks) = unfold count_down in refl

-- the looks that the misses bring
abbrev pub looks_of : List (ℕ × Bool) → List Bool
looks_of = map (λ m. m.1)

see_miss :
    (cfg : Config) (s : WatchState) (since now : ℕ) (down : Bool)
    → s.fail_since ≡ some since
    → s.fail_seq ≡ active_seq cfg.xray.active_server
    → now < since + dead_after
    → ((see (misses now cfg down) s).fail_since ≡ some since)
      × ((see (misses now cfg down) s).fail_seq ≡ active_seq cfg.xray.active_server)
      × ((see (misses now cfg down) s).down_checks ≡ count_down s.down_checks (down ∷ []))
unfolding see look is_young check_reach missed reset_fail count_down
see_miss cfg s since now down e q young = (ground arith, ground arith, ground arith)

count_down-cons :
    (o : Option ℕ) (down : Bool) (looks : List Bool)
    → count_down o (down ∷ looks) ≡ count_down (count_down o (down ∷ [])) looks
unfolding count_down
count_down-cons none down looks = refl
count_down-cons (some n) true looks = refl
count_down-cons (some n) false looks = refl

count_down_nil : (o : Option ℕ) → o ≡ count_down o []
unfolding count_down
count_down_nil none = refl
count_down_nil (some n) = refl

see_misses :
    (cfg : Config) (rest : List (ℕ × Bool)) (s : WatchState) (since : ℕ)
    → s.fail_since ≡ some since
    → s.fail_seq ≡ active_seq cfg.xray.active_server
    → all (λ m. ltb m.0 (since + dead_after)) rest ≡ true
    → ((see_all (misses_of cfg rest) s).fail_since ≡ some since)
      × ((see_all (misses_of cfg rest) s).down_checks ≡ count_down s.down_checks (looks_of rest))
unfolding see_all misses_of all
see_misses cfg [] s since e q young = (e, count_down_nil s.down_checks)
see_misses cfg ((now, down) ∷ rest) s since e q young =
    let (e', q', d') = see_miss cfg s since now down e q (ground arith) in
    let (f, d) = see_misses cfg rest (see (misses now cfg down) s) since e' q' (ground arith) in
    (f, ground (arith, d, d', count_down-cons s.down_checks down (looks_of rest)))

first_miss :
    (cfg : Config) (s : WatchState) (now : ℕ) (down : Bool)
    → s.fail_since ≡ none
    → s.down_checks ≡ some 0
    → ((see (misses now cfg down) s).fail_since ≡ some now)
      × ((see (misses now cfg down) s).fail_seq ≡ active_seq cfg.xray.active_server)
      × ((see (misses now cfg down) s).down_checks ≡ count_down (some 0) (down ∷ []))
unfolding see look is_young check_reach missed reset_fail count_down
first_miss cfg s now down e z = (ground arith, ground arith, ground arith)

-- When the probes of one record start to miss, and the misses so far come in less than three minutes,
-- the outbound counts as dead exactly if it has missed for a minute and at least two looks, and every
-- look there was, found the server down, or else if three minutes have passed.
pub dead_reason-verdict :
    (cfg : Config) (s : WatchState) (first now : ℕ) (down : Bool) (rest : List (ℕ × Bool))
    → s.fail_since ≡ none
    → s.down_checks ≡ some 0
    → all (λ m. ltb m.0 (first + dead_after)) rest ≡ true
    → dead_reason now (see_all (misses_of cfg ((first, down) ∷ rest)) s)
      ≡ verdict (now - first) (looks_of ((first, down) ∷ rest))
unfolding dead_reason dead_by verdict misses_of see_all
dead_reason-verdict cfg s first now down rest e z young =
    let (since, seq, checks) = first_miss cfg s first down e z in
    let (kept, counted) =
      see_misses cfg rest (see (misses first cfg down) s) first since seq young in
    ground (
      arith,
      kept,
      counted,
      count_down-cons (some 0) down (looks_of rest),
      count_down_lem 0 (looks_of ((first, down) ∷ rest)),
    )
