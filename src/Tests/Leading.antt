-- ===== src/Tests/Leading.antt =====
-- The leader at concrete inputs.
use ethersync.Base.{ℕ, ◌≡◌, ◌⊎◌, refl, false, none, List, [], ◌∷◌, ok, arith}
use ethersync.Base.Int.{ℤ}
use ethersync.Timeline.Defs.{SourceKind, segment_at, latch}
use ethersync.Timeline.Convert.{wire, anchor_wire}
use ethersync.Tracking.{default_tracker}
use ethersync.Leader.Changes.{Change, change_timeline}
use ethersync.Leader.Controls.{Refused, Applied, change_timeline_lem}
use ethersync.Leader.Job.{pass}
use ethersync.Leader.State.{
  LeaderConfig, LeaderJob, Command, to_reader, to_change, to_session_id, CommandReads, PassReads,
  promote_due,
}
use ethersync.Leader.Promotion.{promote_due-latch}
use ethersync.Leader.Published.{IsPublished, PassOutcome, parse-wire, pass_lem}
use ethersync.Tests.Samples.{
  decimal_float, ones, twos, frame_9, frame_9-IsPosition, running, running-ones-IsTimeline,
}
use ethersync.Tests.Serial.{plain, plain-IsFaithful}

-- A seek half a second after the anchor.
change_timeline_lem_example :
    let t = running ones 1 in
    let r = change_timeline t (Change.seek frame_9) none 1_500_000_000 in
    Refused t 1_500_000_000 1_500_000_000 r
    ⊎ ((r.0 ≡ ok tt) × Applied t (Change.seek frame_9) 1_500_000_000 1_500_000_000 r.1)
change_timeline_lem_example =
    change_timeline_lem (running ones 1) (Change.seek frame_9) none 1_500_000_000
      (running-ones-IsTimeline 1) frame_9-IsPosition (omega arith) (omega arith)

promote_due-latch_example :
    (promote_due 2_500_000_000 (running ones 1)).1
    ≡ latch (segment_at (running ones 1) 2_500_000_000).discontinuity (running ones 1)
promote_due-latch_example =
    promote_due-latch (running ones 1) 2_500_000_000 (running-ones-IsTimeline 1)

abbrev pub settings : LeaderConfig
settings = record {
  source_kind = SourceKind.generated;
  heartbeat = 1_000_000_000;
  tracked_publish = 100_000_000;
  source_timeout = 500_000_000;
}

abbrev pub leading : LeaderJob ℤ
leading = record {
  timeline = running ones 1;
  readers = [];
  tracker = default_tracker;
  bytes = plain.encode_to_vec (wire (running ones 1));
  last_publish = 0;
  dirty = false;
  source_deadline = none;
  command_more = false;
}

pub leading-IsPublished : IsPublished plain 1_500_000_000 leading
unfolding wire anchor_wire
leading-IsPublished = record {
  led = record { valid = running-ones-IsTimeline 1; generated_source = refl; past = omega arith };
  counted = omega arith;
  agrees =
      parse-wire plain (running ones 1) plain-IsFaithful (running-ones-IsTimeline 1) (omega arith)
        refl;
}

abbrev pub reads_at : ℕ → CommandReads
reads_at now = record { handled_ns = now; deadline_ns = now; instant = now; shown_ns = now }

-- A new reader, a seek, and a new recording.
abbrev pub queue : List (Command × CommandReads)
queue =
    (to_reader, reads_at 1_600_000_000)
    ∷ (to_change (Change.seek frame_9) none, reads_at 1_600_000_000)
    ∷ (to_session_id twos, reads_at 1_700_000_000)
    ∷ []

abbrev pub pass_reads : PassReads
pass_reads = record {
  now_ns = 2_100_000_000;
  deadline_instant = 0;
  heartbeat_instant = 0;
  dirty_instant = 0;
  published_instant = 0;
}

pass_lem_example :
    PassOutcome plain 2_100_000_000 (running ones 1) (pass plain settings leading queue pass_reads)
pass_lem_example =
    pass_lem plain settings leading queue pass_reads 1_500_000_000 plain-IsFaithful refl
      leading-IsPublished
      (omega arith, tt, (omega arith, frame_9-IsPosition, (omega arith, refl, omega arith)))
      (omega arith) (omega arith)
