-- ===== src/Timeline/Defs.antt =====
-- protocol/src/timeline.rs: states, anchors, the schedule, `Timeline::at` and `Timeline::latch`.
use ethersync.Base.{
  ℕ, zero, suc, ◌-◌, ◌^◌, ◌&&◌, Option, none, List, [], ◌∷◌, ◌++◌, ltb, leb, if◌then◌else◌, get_or,
  take, replicate,
}
use ethersync.Base.Int.{ℤ, pos, negsuc, ◌-ℤ◌, clamp_ℤ}
use ethersync.Timecode.Defs.{FrameFormat, default_format, Position, from_frames}
use ethersync.Timecode.Motion.{Rate, paused, advance}
use ethersync.Wire.Messages.{Bytes}

pub data ConnectionState : Type 0 where
  disconnected connecting connected shutdown : ConnectionState

pub data SyncState : Type 0 where
  uninitialized acquiring synchronized holdover : SyncState

pub data SourceKind : Type 0 where
  generated tracked : SourceKind

pub data SourceHealth : Type 0 where
  healthy degraded : SourceHealth

pub record Anchor : Type 0 where
  pub time_ns : ℕ
  pub position : Position
  pub rate : Rate

abbrev pub default_anchor : Anchor
default_anchor = record { time_ns = 0; position = from_frames (pos 0); rate = paused }

-- `clamp(i64::MIN as i128, i64::MAX as i128)`
abbrev pub clamp_i64 : ℤ → ℤ
clamp_i64 = clamp_ℤ (negsuc (2 ^ 63 - 1)) (pos (2 ^ 63 - 1))

-- `Anchor::at`
unfoldable pub anchor_at : Anchor → ℕ → FrameFormat → Position
anchor_at a time f = advance a.position (clamp_i64 (pos time -ℤ pos a.time_ns)) f a.rate

pub record Scheduled : Type 0 where
  pub discontinuity : ℕ
  pub anchor : Anchor

abbrev pub default_scheduled : Scheduled
default_scheduled = record { discontinuity = 0; anchor = default_anchor }

-- `session` and `session_id` are arrays of 16 bytes, `scheduled` is an array of 4.
pub record Timeline : Type 0 where
  pub session : Bytes
  pub session_id : Option Bytes
  pub revision : ℕ
  pub discontinuity : ℕ
  pub format : FrameFormat
  pub anchor : Anchor
  pub source_kind : SourceKind
  pub source_health : SourceHealth
  pub scheduled : List Scheduled
  pub scheduled_len : ℕ

abbrev pub default_timeline : Timeline
default_timeline = record {
  session = replicate 16 0;
  session_id = none;
  revision = 0;
  discontinuity = 0;
  format = default_format;
  anchor = default_anchor;
  source_kind = generated;
  source_health = healthy;
  scheduled = replicate 4 default_scheduled;
  scheduled_len = 0;
}

-- `&self.scheduled[..self.scheduled_len]`
abbrev pub pending : Timeline → List Scheduled
pending t = take t.scheduled_len t.scheduled

-- What a timeline plays at some time: a trajectory and its discontinuity.
pub record Segment : Type 0 where
  pub anchor : Anchor
  pub discontinuity : ℕ

abbrev pub played : Scheduled → Segment
played s = record { anchor = s.anchor; discontinuity = s.discontinuity }

-- The loop of `Timeline::at`, over its variables `a` and `d`.
unfoldable pub segment_from : ℕ → Segment → List Scheduled → Segment
segment_from time g [] = g
segment_from time g (s ∷ ss) =
    segment_from time (if leb s.anchor.time_ns time then played s else g) ss

abbrev pub base_segment : Timeline → Segment
base_segment t = record { anchor = t.anchor; discontinuity = t.discontinuity }

unfoldable pub segment_at : Timeline → ℕ → Segment
unfolding segment_from
segment_at t time = segment_from time (base_segment t) (pending t)

-- `Timeline::at` returns the position, the rate and the discontinuity.
unfoldable pub at : Timeline → ℕ → Position × Rate × ℕ
at t time =
    let g = segment_at t time in (anchor_at g.anchor time t.format, g.anchor.rate, g.discontinuity)

-- `rotate_left(1)`
abbrev pub rotate_left {ℓ} : {A : Type ℓ} → List A → List A
rotate_left [] = []
rotate_left (x ∷ xs) = xs ++ x ∷ []

abbrev pub first_scheduled : Timeline → Scheduled
first_scheduled t = get_or t.scheduled 0 default_scheduled

-- The body of the loops that take over the first scheduled change.
unfoldable pub promote : Timeline → Timeline
promote t = record t {
  anchor = (first_scheduled t).anchor;
  discontinuity = (first_scheduled t).discontinuity;
  scheduled = rotate_left t.scheduled;
  scheduled_len = t.scheduled_len - 1;
}

-- `while self.scheduled_len > 0 && …`: each round takes one scheduled change away, so as many
-- rounds as there are changes are enough.
unfoldable pub latch_rounds : ℕ → ℕ → Timeline → Timeline
latch_rounds zero discontinuity t = t
latch_rounds (suc n) discontinuity t =
    let rest = latch_rounds n discontinuity (promote t) in
    if ltb 0 t.scheduled_len && leb (first_scheduled t).discontinuity discontinuity then rest else t

unfoldable pub latch : ℕ → Timeline → Timeline
unfolding latch_rounds
latch discontinuity t = latch_rounds t.scheduled_len discontinuity t
