-- ===== src/Follower/View.antt =====
-- protocol/src/timeline.rs: `Status`, `Reading`, `View` and its evaluation.
use ethersync.Base.{
  ℕ, ◌+◌, ◌-◌, Bool, true, false, not, ◌&&◌, ◌||◌, Option, none, some, ltb, ◌==◌, if◌then◌else◌,
  Result, ok, err,
}
use ethersync.Base.Int.{pos, ◌+ℤ◌}
use ethersync.Base.Float.{Float, ◌⊕◌, ◌⊖◌, ◌⊗◌, ◌⊘◌, ◌≼◌, literal, of_ℕ, of_ℤ, abs}
use ethersync.Timecode.Defs.{Error, invalid, Position, FrameFormat, from_frames, default_format}
use ethersync.Timecode.Motion.{Rate, paused, fixed, from_fixed}
use ethersync.Wire.Messages.{Bytes}
use ethersync.Wire.Validate.{i64_max}
use ethersync.Timeline.{
  ConnectionState, SyncState, SourceKind, SourceHealth, Timeline, default_timeline, at,
}
use ethersync.Clock.{
  ClockMapping, OffsetEvidence, default_mapping, leader_time, uncertainty_at, offset_at,
  evidence_at, consistent, u64_max,
}

pub record Status (F : Type 0) : Type 0 where
  pub connection : ConnectionState
  pub synchronization : SyncState
  pub source_kind : SourceKind
  pub source_health : SourceHealth
  pub uncertainty_ns : F
  pub correction_frames : F
  pub offset_evidence : Option (OffsetEvidence F)
  pub sample_age_ns : ℕ
  pub rtt_ns : ℕ
  pub offset_ns : F
  pub drift_ppm : F
  pub lost_packets : ℕ
  pub accepted_observations : ℕ
  pub alignment_error_ns : F
  pub aligned : Bool
  pub resync_generation : ℕ

pub record Reading (F : Type 0) : Type 0 where
  pub session_id : Option Bytes
  pub position : Position
  pub format : FrameFormat
  pub rate : Rate
  pub discontinuity : ℕ
  pub status : Status F

pub record View (F : Type 0) : Type 0 where
  pub timeline : Timeline
  pub fallback_position : Position
  pub fallback_format : FrameFormat
  pub mapping : ClockMapping F
  pub connection : ConnectionState
  pub sync : SyncState
  pub rtt_ns : ℕ
  pub lost_packets : ℕ
  pub correction_frames : F
  pub correction_at : ℕ
  pub slew_frames_per_second : F
  pub correction_discontinuity : ℕ
  pub resync_generation : ℕ
  pub local_clock : Bool
  pub recovering : Bool

-- `==` of the derived `PartialEq`, on the states compared.
abbrev pub is_uninitialized : SyncState → Bool
is_uninitialized SyncState.uninitialized = true
is_uninitialized SyncState.acquiring = false
is_uninitialized SyncState.synchronized = false
is_uninitialized SyncState.holdover = false

abbrev pub is_synchronized : SyncState → Bool
is_synchronized SyncState.synchronized = true
is_synchronized SyncState.uninitialized = false
is_synchronized SyncState.acquiring = false
is_synchronized SyncState.holdover = false

abbrev pub is_connected : ConnectionState → Bool
is_connected ConnectionState.connected = true
is_connected ConnectionState.disconnected = false
is_connected ConnectionState.connecting = false
is_connected ConnectionState.shutdown = false

abbrev pub is_healthy : SourceHealth → Bool
is_healthy SourceHealth.healthy = true
is_healthy SourceHealth.degraded = false

unfoldable pub presentation_time : ℕ → ℕ → Result Error ℕ
presentation_time local delay =
    if ltb u64_max (local + delay) || ltb i64_max (local + delay)
    then err (invalid "presentation timestamp exceeds supported clock range")
    else ok (local + delay)

module _ {F : Type 0} ⦃fl : Float F⦄ where
  unfoldable pub default_view : View F
  default_view = record {
    timeline = default_timeline;
    fallback_position = from_frames (pos 0);
    fallback_format = default_format;
    mapping = default_mapping;
    connection = ConnectionState.disconnected;
    sync = SyncState.uninitialized;
    rtt_ns = 0;
    lost_packets = 0;
    correction_frames = literal 0 0;
    correction_at = 0;
    slew_frames_per_second = literal 3 2;
    correction_discontinuity = 0;
    resync_generation = 0;
    local_clock = false;
    recovering = false;
  }

  -- `FrameFormat::fps` and `Rate::as_f64`
  abbrev pub fps : FrameFormat → F
  fps f = of_ℕ f.numerator ⊘ of_ℕ f.denominator

  abbrev pub as_f64 : Rate → F
  as_f64 r = of_ℤ r.numerator ⊘ of_ℕ r.denominator

  -- The instant of the timeline that a view shows.
  unfoldable pub shown_time : View F → ℕ → ℕ
  shown_time v local =
      if is_uninitialized v.sync then v.timeline.anchor.time_ns else leader_time v.mapping local

  -- The correction that is left, towards 0 at the slew.
  unfoldable pub remaining : View F → ℕ → Rate → ℕ → F
  remaining v local rate discontinuity =
      let slew =
        fl.fmin v.slew_frames_per_second
          (fps v.timeline.format ⊗ abs (as_f64 rate) ⊗ literal 1 1) in
      if discontinuity == v.correction_discontinuity
      then fl.fmax
          (abs v.correction_frames
            ⊖ of_ℕ (local - v.correction_at) ⊘ literal 1_000_000_000 0 ⊗ slew)
          (literal 0 0)
        ⊗ fl.signum v.correction_frames
      else literal 0 0

  -- `mapping.evidence.is_none_or(|e| e.consistent())`
  abbrev pub all_consistent : Option (OffsetEvidence F) → Bool
  all_consistent none = true
  all_consistent (some e) = consistent e

  abbrev pub evidence_now : Option (OffsetEvidence F) → ℕ → Option (OffsetEvidence F)
  evidence_now none local = none
  evidence_now (some e) local = some (evidence_at e local)

  unfoldable pub evaluate : View F → ℕ → Reading F
  unfolding shown_time remaining
  evaluate v local =
      let (position, rate, discontinuity) = at v.timeline (shown_time v local) in
      let left = remaining v local rate discontinuity in
      let corrected = from_fixed (fixed position +ℤ fl.to_i128 (left ⊗ literal 4_294_967_296 0)) in
      let initialized = not (v.mapping.last_sample_ns == 0) in
      let uncertainty = if v.local_clock then literal 0 0 else uncertainty_at v.mapping local in
      let error =
        if initialized
        then uncertainty ⊗ abs (as_f64 rate)
          ⊕ abs left ⊘ fps v.timeline.format ⊗ literal 1_000_000_000 0
        else fl.infinity in
      record {
        session_id = v.timeline.session_id;
        position = if initialized then corrected else v.fallback_position;
        format = if initialized then v.timeline.format else v.fallback_format;
        rate = if initialized then rate else paused;
        discontinuity = discontinuity;
        status = record {
          connection = v.connection;
          synchronization = if initialized then v.sync else SyncState.uninitialized;
          source_kind = v.timeline.source_kind;
          source_health = v.timeline.source_health;
          uncertainty_ns = uncertainty;
          correction_frames = if initialized then left else literal 0 0;
          offset_evidence = evidence_now v.mapping.evidence local;
          sample_age_ns = local - v.mapping.last_sample_ns;
          rtt_ns = v.rtt_ns;
          offset_ns = offset_at v.mapping local;
          drift_ppm = v.mapping.drift ⊗ literal 1_000_000 0;
          lost_packets = v.lost_packets;
          accepted_observations = v.mapping.accepted_observations;
          alignment_error_ns = error;
          aligned =
              initialized
              && is_connected v.connection
              && is_synchronized v.sync
              && not v.recovering
              && is_healthy v.timeline.source_health
              && all_consistent v.mapping.evidence
              && (error ≼ literal 1_000_000 0);
          resync_generation = v.resync_generation;
        };
      }

  unfoldable pub evaluate_for_presentation : View F → ℕ → ℕ → Result Error (Reading F)
  unfolding presentation_time evaluate
  evaluate_for_presentation v local delay = elim (presentation_time local delay) [
    | ok time ↦ ok (evaluate v time)
    | err e ↦ err e
  ]
