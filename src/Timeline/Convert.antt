-- ===== src/Timeline/Convert.antt =====
-- protocol/src/timeline.rs: timelines to wire messages and back.
use ethersync.Base.{
  Option, none, some, List, [], ◌∷◌, map, ◌==◌, if◌then◌else◌, length, Result, ok, ◌>>=◌, ◌>>◌,
  ok_or,
}
use ethersync.Base.Int.{ℤ, pos, eqb_ℤ}
use ethersync.Timecode.Defs.{Error, invalid, panicked, FrameFormat, new_format}
use ethersync.Timecode.Motion.{new_rate}
use ethersync.Wire.Messages.{Bytes, FormatMessage, AnchorMessage, ChangeMessage, Snapshot}
use ethersync.Wire.Validate.{validate_snapshot}
use ethersync.Timeline.Defs.{
  SourceKind, generated, tracked, SourceHealth, healthy, degraded, Anchor, Scheduled, Timeline,
  default_timeline, pending,
}

-- `Anchor::wire`
unfoldable pub anchor_wire : Anchor → AnchorMessage
anchor_wire a = record {
  time_ns = a.time_ns;
  position = some (record { frames = a.position.frames; subframe = a.position.subframe });
  rate = some (record { numerator = a.rate.numerator; denominator = a.rate.denominator });
}

-- `Anchor::from_wire`
unfoldable pub anchor_from_wire : AnchorMessage → Result Error Anchor
anchor_from_wire a = do
  p ← ok_or a.position (invalid "position")
  r ← ok_or a.rate (invalid "rate")
  rate ← new_rate r.numerator r.denominator
  ok (record {
    time_ns = a.time_ns;
    position = record { frames = p.frames; subframe = p.subframe };
    rate = rate;
  })

abbrev pub kind_wire : SourceKind → ℤ
kind_wire generated = pos 1
kind_wire tracked = pos 2

abbrev pub health_wire : SourceHealth → ℤ
health_wire healthy = pos 1
health_wire degraded = pos 2

abbrev pub id_wire : Option Bytes → Bytes
id_wire none = []
id_wire (some id) = id

abbrev pub change_wire : Scheduled → ChangeMessage
change_wire s = record { discontinuity = s.discontinuity; anchor = some (anchor_wire s.anchor) }

abbrev pub format_wire : FrameFormat → FormatMessage
format_wire f = record {
  numerator = f.numerator;
  denominator = f.denominator;
  drop_frame = f.drop_frame;
}

-- `Timeline::wire`
unfoldable pub wire : Timeline → Snapshot
wire t = record {
  version = 1;
  session = t.session;
  session_id = id_wire t.session_id;
  revision = t.revision;
  discontinuity = t.discontinuity;
  source_kind = kind_wire t.source_kind;
  source_health = health_wire t.source_health;
  format = some (format_wire t.format);
  anchor = some (anchor_wire t.anchor);
  scheduled = map change_wire (pending t);
}

-- `try_into` of a slice into an array of 16 bytes.
abbrev pub to_array_16 : Bytes → Option Bytes
to_array_16 bytes = if length bytes == 16 then some bytes else none

abbrev pub unwrap {ℓ} : {A : Type ℓ} → Option A → Result Error A
unwrap o = ok_or o panicked

-- The loop at the end: the slots of the array, zipped with the messages.
unfoldable pub fill_slots : List Scheduled → List ChangeMessage → Result Error (List Scheduled)
fill_slots [] cs = ok []
fill_slots (slot ∷ slots) [] = ok (slot ∷ slots)
fill_slots (slot ∷ slots) (c ∷ cs) = do
  message ← unwrap c.anchor
  anchor ← anchor_from_wire message
  rest ← fill_slots slots cs
  ok (record { discontinuity = c.discontinuity; anchor = anchor } ∷ rest)

-- `Timeline::from_wire`
unfoldable pub from_wire : Snapshot → Result Error Timeline
from_wire s = do
  validate_snapshot s
  f ← unwrap s.format
  session ← unwrap (to_array_16 s.session)
  format ← new_format f.numerator f.denominator f.drop_frame
  message ← unwrap s.anchor
  anchor ← anchor_from_wire message
  slots ← fill_slots default_timeline.scheduled s.scheduled
  ok (record {
    session = session;
    session_id = to_array_16 s.session_id;
    revision = s.revision;
    discontinuity = s.discontinuity;
    format = format;
    anchor = anchor;
    source_kind = if eqb_ℤ s.source_kind (pos 1) then generated else tracked;
    source_health = if eqb_ℤ s.source_health (pos 1) then healthy else degraded;
    scheduled = slots;
    scheduled_len = length s.scheduled;
  })
