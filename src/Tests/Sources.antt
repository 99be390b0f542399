-- ===== src/Tests/Sources.antt =====
-- A tracked source at concrete inputs.
use ethersync.Base.{◌≤◌, ◌⊎◌, true, none, arith}
use ethersync.Base.Int.{ℤ, pos, negsuc, magnitude, quot, ◌-ℤ◌, ◌*ℤ◌}
use ethersync.Base.Float.{literal, clamp}
use ethersync.Timeline.Defs.{Timeline, SourceKind}
use ethersync.Tracking.{SourceSample, default_tracker, sample}
use ethersync.Tracking.Laws.{Rejected, Taken, sample_lem}
use ethersync.Tracking.Choices.{SpeedsFit, IsTracker}
use ethersync.Tests.Samples.{decimal_float, ones, frame_9, running}

abbrev tracked_timeline : Timeline
tracked_timeline = record (running ones 1) { source_kind = SourceKind.tracked }

abbrev jump_back : SourceSample
jump_back = record {
  timestamp_ns = 1_200_000_000;
  position = frame_9;
  rate_hint = none;
  discontinuity = true;
}

clamp_64 : (x : ℤ) → magnitude (clamp (decimal_float.neg (literal 64 0)) (literal 64 0) x) ≤ 640_000
unfolding ◌-ℤ◌
clamp_64 x = ground arith

whole_units :
    (z : ℤ)
    → magnitude z ≤ 640_000
    → magnitude (quot (quot (quot (z *ℤ pos 100_000_000) 10_000) 10_000 *ℤ pos 10_000) 10_000)
      ≤ 640_000
unfolding ◌*ℤ◌
whole_units (pos n) h = ground arith
whole_units (negsuc n) h = ground arith

decimal-SpeedsFit : SpeedsFit decimal_float
decimal-SpeedsFit x =
    whole_units (clamp (decimal_float.neg (literal 64 0)) (literal 64 0) x) (clamp_64 x)

none_yet-IsTracker : IsTracker (default_tracker {F = ℤ})
unfolding default_tracker
none_yet-IsTracker = record { jumps_few = omega arith; candidate_few = λ v n h. cc }

sample_lem_example :
    Rejected
      (default_tracker {F = ℤ})
      tracked_timeline
      jump_back
      1_300_000_000
      (sample default_tracker tracked_timeline jump_back 1_300_000_000)
    ⊎ Taken
        (default_tracker {F = ℤ})
        tracked_timeline
        jump_back
        1_300_000_000
        (sample default_tracker tracked_timeline jump_back 1_300_000_000)
sample_lem_example =
    sample_lem default_tracker tracked_timeline jump_back 1_300_000_000 decimal-SpeedsFit
      none_yet-IsTracker
