-- ===== src/Native/Intervals.antt =====
-- native/src/api.rs: the clock of an engine, and the intervals of `Timing`, in nanoseconds.
use ethersync.Base.{
  ℕ, ◌-◌, min, Bool, false, ◌||◌, Option, none, some, List, [], ◌∷◌, ltb, leb, ◌==◌, if◌then◌else◌,
  Result, refuse,
}
use ethersync.Native.{NativeError}
use ethersync.Wire.Validate.{i64_max}

-- `MonotonicClock::ns_at` of a clock with the given origin: `None` before it or past the range.
unfoldable pub ns_at : ℕ → ℕ → Option ℕ
ns_at origin instant =
    if ltb instant origin
    then none
    else if leb (instant - origin) i64_max
    then some (instant - origin)
    else none

unfoldable pub now_ns : ℕ → ℕ → ℕ
now_ns origin instant = min (instant - origin) i64_max

pub record Timing : Type 0 where
  pub acquisition_probe : ℕ
  pub steady_probe : ℕ
  pub heartbeat : ℕ
  pub tracked_publish : ℕ
  pub source_timeout : ℕ
  pub connect_timeout : ℕ
  pub retry_min : ℕ
  pub retry_max : ℕ

unfoldable pub default_timing : Timing
default_timing = record {
  acquisition_probe = 50_000_000;
  steady_probe = 250_000_000;
  heartbeat = 1_000_000_000;
  tracked_publish = 100_000_000;
  source_timeout = 500_000_000;
  connect_timeout = 3_000_000_000;
  retry_min = 100_000_000;
  retry_max = 5_000_000_000;
}

abbrev pub hour : ℕ
hour = 3_600_000_000_000

-- `iter().any(|d| d.is_zero() || *d > Duration::from_secs(3600))`
abbrev pub any_bad : List ℕ → Bool
any_bad [] = false
any_bad (d ∷ ds) = ((d == 0) || ltb hour d) || any_bad ds

abbrev pub intervals : Timing → List ℕ
intervals t =
    t.acquisition_probe ∷ t.steady_probe ∷ t.heartbeat ∷ t.tracked_publish ∷ t.source_timeout
    ∷ t.connect_timeout ∷ t.retry_min ∷ t.retry_max ∷ []

unfoldable pub validate : Timing → Result NativeError (Unit {0})
validate t =
    refuse (any_bad (intervals t) || ltb t.retry_max t.retry_min)
      (NativeError.invalid "timing intervals must be in (0, 1 hour], retry_min <= retry_max")
