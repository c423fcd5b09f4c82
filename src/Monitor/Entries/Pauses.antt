-- ===== src/Monitor/Entries/Pauses.antt =====
-- The pauses of an endpoint that goes on failing.
use native.Mathlib.Nat.{pow-suc}
use vpn_director.Prelude.{
  ℕ, zero, suc, ◌*◌, ◌^◌, ◌<◌, ◌≡◌, ◌∙◌, refl, sym, ap, Option, Text, arith, ltb, if◌then◌else◌,
}
use vpn_director.Monitor.Settings.{MonitorConfig, Settings, settings_from}
use vpn_director.Monitor.Settings.Bounds.{settings_from-bounds}
use vpn_director.Monitor.Entries.{Entry, next_pause, fail}

unfoldable pub fail_times : ℕ → ℕ → Text → Settings → Entry → Entry
fail_times zero now reason s e = e
fail_times (suc n) now reason s e = fail now reason s (fail_times n now reason s e)

unfoldable pub capped : ℕ → ℕ → ℕ
capped cap n = if ltb cap n then cap else n

mul_double : (i y : ℕ) → i * (y * 2) ≡ 2 * (i * y)
mul_double i y = omega arith

pow_suc : (i n : ℕ) → i * 2 ^ suc n ≡ 2 * (i * 2 ^ n)
pow_suc i n = rw (pow-suc 2 n) (mul_double i (2 ^ n))

pow_pos : (i n : ℕ) → 0 < i → 0 < i * 2 ^ n
pow_pos i zero h = omega arith
pow_pos i (suc n) h = rw (pow_suc i n) (omega (arith, pow_pos i n h))

next_pause-capped :
    (s : Settings) (x : ℕ)
    → 0 < s.interval
    → 0 < s.dead_max
    → 0 < x
    → next_pause s (capped s.dead_max x) ≡ capped s.dead_max (2 * x)
unfolding next_pause capped
next_pause-capped s x i d h = ground arith

first_pause : (s : Settings) → 0 < s.interval → next_pause s 0 ≡ capped s.dead_max (2 * s.interval)
unfolding next_pause capped
first_pause s h = ground arith

pause-fail :
    (now : ℕ) (reason : Text) (s : Settings) (e : Entry)
    → (fail now reason s e).pause ≡ next_pause s e.pause
unfolding fail
pause-fail now reason s e = refl

pauses_doubled :
    (n now : ℕ) (reason : Text) (s : Settings) (e : Entry)
    → 0 < s.interval
    → 0 < s.dead_max
    → e.pause ≡ 0
    → (fail_times (suc n) now reason s e).pause ≡ capped s.dead_max (s.interval * 2 ^ suc n)
unfolding fail_times
pauses_doubled zero now reason s e i d h =
    pause-fail now reason s e
    ∙ ap (next_pause s) h
    ∙ first_pause s i
    ∙ ap (capped s.dead_max) (omega arith)
pauses_doubled (suc n) now reason s e i d h =
    pause-fail now reason s (fail_times (suc n) now reason s e)
    ∙ ap (next_pause s) (pauses_doubled n now reason s e i d h)
    ∙ next_pause-capped s (s.interval * 2 ^ suc n) i d (pow_pos s.interval (suc n) i)
    ∙ ap (capped s.dead_max) (sym (pow_suc s.interval (suc n)))

-- With the settings of any section, after one failed check or more in a row an endpoint that had no
-- pause waits the interval doubled once for each of them, or the cap of the pauses where that is
-- less.
pub pause-fail_times :
    (n now : ℕ) (reason : Text) (section : Option MonitorConfig) (e : Entry)
    → e.pause ≡ 0
    → (fail_times (suc n) now reason (settings_from section).0 e).pause
      ≡ capped (settings_from section).0.dead_max ((settings_from section).0.interval * 2 ^ suc n)
pause-fail_times n now reason section e h =
    let bounds = settings_from-bounds section in
    pauses_doubled n now reason (settings_from section).0 e (omega arith) (omega arith) h
