-- ===== src/Monitor/Settings.antt =====
-- The settings of the monitor: server/internal/monitor/settings.go. A duration is a number of
-- nanoseconds. A text of the section is what Go's time.ParseDuration makes of it: `none` if it
-- does not parse or is negative.
pub mod Bounds
use vpn_director.Prelude.{
  ℕ, ◌+◌, ◌*◌, ◌^◌, Bool, true, false, ◌&&◌, ◌||◌, not, Option, none, some, List, [], ◌∷◌, ◌++◌,
  if◌then◌else◌, ◌==◌, ltb, leb,
}

abbrev pub second : ℕ
second = 1_000_000_000

abbrev pub minute : ℕ
minute = 60_000_000_000

abbrev pub default_interval : ℕ
default_interval = minute

abbrev pub default_dead_max : ℕ
default_dead_max = 1_800_000_000_000

abbrev pub default_concurrency : ℕ
default_concurrency = 8

abbrev pub min_interval : ℕ
min_interval = 10_000_000_000

abbrev pub max_concurrency : ℕ
max_concurrency = 32

-- the largest duration, and half of it
abbrev pub max_duration : ℕ
max_duration = 9_223_372_036_854_775_807

abbrev pub max_interval : ℕ
max_interval = 4_611_686_018_427_387_903

abbrev pub default_refresh : ℕ
default_refresh = 300_000_000_000

-- a text of the section, absent or with the duration that it gives
pub data Setting : Type 0 where
  absent : Setting
  written : Option ℕ → Setting

-- the section, with the concurrency if it is there; below zero counts as zero
pub record MonitorConfig : Type 0 where
  pub enabled : Option Bool
  pub interval : Setting
  pub dead_interval_max : Setting
  pub concurrency : Option ℕ
  pub subscription_refresh : Setting

pub record Settings : Type 0 where
  pub enabled : Bool
  pub interval : ℕ
  pub dead_max : ℕ
  pub concurrency : ℕ

pub data Warning : Type 0 where
  bad_interval bad_dead_max bad_concurrency bad_refresh : Warning

-- `SubscriptionRefreshFrom`, with whether it warns
unfoldable pub refresh_from : Setting → ℕ × Bool
refresh_from absent = (default_refresh, false)
refresh_from (written none) = (default_refresh, true)
refresh_from (written (some d)) =
    if d == 0 || leb minute d then (d, false) else (default_refresh, true)

unfoldable pub interval_from : Setting → ℕ × List Warning
interval_from absent = (default_interval, [])
interval_from (written none) = (default_interval, bad_interval ∷ [])
interval_from (written (some d)) =
    if ltb d min_interval || ltb max_interval d
    then (default_interval, bad_interval ∷ [])
    else (d, [])

unfoldable pub longer : ℕ → ℕ → ℕ
longer a b = if ltb a b then b else a

unfoldable pub dead_max_from : ℕ → Setting → ℕ × List Warning
dead_max_from interval absent = (longer default_dead_max (2 * interval), [])
dead_max_from interval (written none) = (longer default_dead_max (2 * interval), bad_dead_max ∷ [])
dead_max_from interval (written (some d)) =
    if ltb d (2 * interval)
    then (longer default_dead_max (2 * interval), bad_dead_max ∷ [])
    else (d, [])

unfoldable pub concurrency_from : Option ℕ → ℕ × List Warning
concurrency_from none = (default_concurrency, [])
concurrency_from (some n) =
    if ltb n 1 || ltb max_concurrency n
    then (default_concurrency, bad_concurrency ∷ [])
    else (n, [])

unfoldable pub enabled_from : Option Bool → Bool
enabled_from none = true
enabled_from (some b) = b

-- `SettingsFrom`
unfoldable pub settings_from : Option MonitorConfig → Settings × List Warning
settings_from none = (
  record {
    enabled = true;
    interval = default_interval;
    dead_max = default_dead_max;
    concurrency = default_concurrency;
  },
  [],
)
settings_from (some c) =
    let (interval, bad_intervals) = interval_from c.interval in
    let (dead_max, bad_maxima) = dead_max_from interval c.dead_interval_max in
    let (concurrency, bad_concurrencies) = concurrency_from c.concurrency in
    (
      record {
        enabled = enabled_from c.enabled;
        interval = interval;
        dead_max = dead_max;
        concurrency = concurrency;
      },
      bad_intervals
          ++ bad_maxima
          ++ bad_concurrencies
          ++ (if (refresh_from c.subscription_refresh).1 then bad_refresh ∷ [] else []),
    )
