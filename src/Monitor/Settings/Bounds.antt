-- ===== src/Monitor/Settings/Bounds.antt =====
-- The bounds of the resolved settings.
use vpn_director.Prelude.{ℕ, ◌*◌, ◌≤◌, Option, none, some, arith}
use vpn_director.Monitor.Settings.{
  MonitorConfig, Setting, absent, written, interval_from, dead_max_from, concurrency_from, longer,
  settings_from, min_interval, max_interval, max_concurrency,
}

interval_bounds :
    (text : Setting)
    → (min_interval ≤ (interval_from text).0) × ((interval_from text).0 ≤ max_interval)
unfolding interval_from
interval_bounds absent = omega arith
interval_bounds (written none) = omega arith
interval_bounds (written (some d)) = ground arith

dead_max_bounds : (interval : ℕ) (text : Setting) → 2 * interval ≤ (dead_max_from interval text).0
unfolding dead_max_from longer
dead_max_bounds interval absent = ground arith
dead_max_bounds interval (written none) = ground arith
dead_max_bounds interval (written (some d)) = ground arith

concurrency_bounds :
    (value : Option ℕ)
    → (1 ≤ (concurrency_from value).0) × ((concurrency_from value).0 ≤ max_concurrency)
unfolding concurrency_from
concurrency_bounds none = omega arith
concurrency_bounds (some n) = ground arith

-- Whatever the section holds, the interval lies between ten seconds and half the largest duration,
-- the cap of the pauses is at least twice the interval, and from 1 to 32 checks run at a time.
pub settings_from-bounds :
    (section : Option MonitorConfig)
    → (min_interval ≤ (settings_from section).0.interval)
      × ((settings_from section).0.interval ≤ max_interval)
      × (2 * (settings_from section).0.interval ≤ (settings_from section).0.dead_max)
      × (1 ≤ (settings_from section).0.concurrency)
      × ((settings_from section).0.concurrency ≤ max_concurrency)
unfolding settings_from
settings_from-bounds none = omega arith
settings_from-bounds (some c) = omega (
  arith,
  interval_bounds c.interval,
  dead_max_bounds (interval_from c.interval).0 c.dead_interval_max,
  concurrency_bounds c.concurrency,
)
