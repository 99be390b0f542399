-- ===== src/Tests/States.antt =====
-- Timelines and their messages at concrete inputs.
use ethersync.Base.{false, ◌≤◌, ◌≡◌, ◌⊎◌, ok, err, none, some, [], arith}
use ethersync.Base.Int.{pos}
use ethersync.Timecode.Defs.{Error}
use ethersync.Wire.Messages.{Snapshot}
use ethersync.Wire.Validate.{validate_snapshot}
use ethersync.Timeline.{segment_at, latch, wire, from_wire}
use ethersync.Timeline.Schedule.{segment_at_mono}
use ethersync.Timeline.Latch.{LatchedAt, Kept, latch-LatchedAt, latch-Kept}
use ethersync.Timeline.RoundTrip.{canonical, from_wire-wire}
use ethersync.Timeline.Decode.{Accepted, from_wire_lem}
use ethersync.Tests.Samples.{ones, running, running-ones-IsTimeline}

segment_at_mono_test :
    (segment_at (running ones 1) 1_500_000_000).discontinuity
    ≤ (segment_at (running ones 1) 2_500_000_000).discontinuity
segment_at_mono_test =
    segment_at_mono (running ones 1) 1_500_000_000 2_500_000_000 (running-ones-IsTimeline 1)
      (omega arith)

latch-LatchedAt_example :
    LatchedAt 2_500_000_000
      (running ones 1)
      (latch (segment_at (running ones 1) 2_500_000_000).discontinuity (running ones 1))
latch-LatchedAt_example = latch-LatchedAt (running ones 1) 2_500_000_000 (running-ones-IsTimeline 1)

latch-Kept_test : Kept 8 (running ones 1) (latch 8 (running ones 1))
latch-Kept_test = latch-Kept (running ones 1) 8 (running-ones-IsTimeline 1)

from_wire-wire_example : from_wire (wire (running ones 1)) ≡ ok (canonical (running ones 1))
from_wire-wire_example = from_wire-wire (running ones 1) (running-ones-IsTimeline 1) (omega arith)

-- A message whose anchor is missing.
abbrev no_anchor : Snapshot
no_anchor = record {
  version = 1;
  session = ones;
  revision = 1;
  discontinuity = 0;
  source_kind = pos 1;
  source_health = pos 1;
  format = some (record { numerator = 25; denominator = 1; drop_frame = false });
  anchor = none;
  scheduled = [];
  session_id = [];
}

from_wire_lem_example :
    Accepted no_anchor
    ⊎ ((e : Error) × (validate_snapshot no_anchor ≡ err e) × (from_wire no_anchor ≡ err e))
from_wire_lem_example = from_wire_lem no_anchor (record { anchor_in = tt; schedule_in = tt })
