-- ===== src/Timeline/Decode.antt =====
-- `from_wire` on any message: the timeline of a message that `validate_snapshot` passes, and
-- that check's error for every other.
use ethersync.Base.{
  ℕ, ◌≤◌, ◌<◌, ◌≡◌, refl, ap, ◌∙◌, ◌⊎◌, inl, inr, Bool, not, ◌&&◌, ◌||◌, Option, none, some, arith,
  ltb, ◌==◌, if◌then◌else◌, length, Result, ok, err, ◌>>=◌, ◌>>◌, refuse, ok_or, >>=-eq-ok,
  refuse-eq-ok, Bool-cases, ltb_false→le,
}
use ethersync.Base.Int.{pos, eqb_ℤ}
use ethersync.Timecode.Defs.{Error, invalid, version, FrameFormat, format, new_format}
use ethersync.Timecode.Labels.{IsFormat}
use ethersync.Wire.Messages.{Bytes, FormatMessage, AnchorMessage, Snapshot}
use ethersync.Wire.Validate.{
  protocol_version, max_scheduled, is_enum, validate_anchor, validate_schedule, validate_snapshot,
}
use ethersync.Timeline.Defs.{Timeline, generated, tracked, healthy, degraded}
use ethersync.Timeline.Convert.{from_wire, to_array_16}
use ethersync.Timeline.Schedule.{IsId, IsTimeline}
use ethersync.Timeline.Accept.{
  AnchorInRange, ScheduleInRange, Converts, convert_anchor, Fills, fill_schedule,
}

pub record SnapshotInRange (s : Snapshot) : Type 0 where
  pub anchor_in : AnchorInRange s.anchor
  pub schedule_in : ScheduleInRange s.scheduled

-- What the checks establish, one after the other.
record Passed (s : Snapshot) : Type 0 where
  session_16 : length s.session ≡ 16
  positive : 0 < s.revision
  id_0_or_16 : (length s.session_id ≡ 0) ⊎ (length s.session_id ≡ 16)
  f : FormatMessage
  has_format : s.format ≡ some f
  made : FrameFormat
  makes : new_format f.numerator f.denominator f.drop_frame ≡ ok made
  m : AnchorMessage
  has_anchor : s.anchor ≡ some m
  anchor_passes : validate_anchor m ≡ ok tt
  few : length s.scheduled ≤ 4
  schedule_passes : validate_schedule m.time_ns s.discontinuity s.scheduled ≡ ok tt

pub ok_or-eq-ok : {A : Type 0} (o : Option A) (e : Error) {a : A} → ok_or o e ≡ ok a → o ≡ some a
ok_or-eq-ok none e h = cc
ok_or-eq-ok (some a) e h = cc

abbrev after_anchor : Snapshot → AnchorMessage → Result Error (Unit {0})
after_anchor s a = do
  validate_anchor a
  refuse (ltb max_scheduled (length s.scheduled)) (invalid "schedule capacity")
  validate_schedule a.time_ns s.discontinuity s.scheduled

abbrev after_format : Snapshot → FormatMessage → Result Error (Unit {0})
after_format s f = do
  _ ← new_format f.numerator f.denominator f.drop_frame
  a ← ok_or s.anchor (invalid "anchor missing")
  after_anchor s a

abbrev after_enums : Snapshot → Result Error (Unit {0})
after_enums s = do f ← ok_or s.format (invalid "format missing"); after_format s f

abbrev wrong_version : Snapshot → Bool
wrong_version s = not (s.version == protocol_version)

abbrev bad_identity : Snapshot → Bool
bad_identity s = not (length s.session == 16) || (s.revision == 0)

abbrev bad_recording : Snapshot → Bool
bad_recording s = not (length s.session_id == 0) && not (length s.session_id == 16)

abbrev bad_enums : Snapshot → Bool
bad_enums s = not (is_enum s.source_kind) || not (is_enum s.source_health)

abbrev after_recording : Snapshot → Result Error (Unit {0})
after_recording s = refuse (bad_enums s) (invalid "source enum") >> after_enums s

abbrev after_identity : Snapshot → Result Error (Unit {0})
after_identity s = refuse (bad_recording s) (invalid "recording session ID") >> after_recording s

abbrev after_version : Snapshot → Result Error (Unit {0})
after_version s = refuse (bad_identity s) (invalid "identity/revision") >> after_identity s

validate_snapshot-Passed : (s : Snapshot) → validate_snapshot s ≡ ok tt → Passed s
unfolding validate_snapshot
validate_snapshot-Passed s h =
    let (_, h1) = refuse-eq-ok (wrong_version s) (version s.version) (after_version s) h in
    let (c2, h2) =
      refuse-eq-ok (bad_identity s) (invalid "identity/revision") (after_identity s) h1 in
    let (c3, h3) =
      refuse-eq-ok (bad_recording s) (invalid "recording session ID") (after_recording s) h2 in
    let (c4, h4) = refuse-eq-ok (bad_enums s) (invalid "source enum") (after_enums s) h3 in
    let (f, hf, h5) = >>=-eq-ok (ok_or s.format (invalid "format missing")) (after_format s) h4 in
    let (made, hm, h6) =
      >>=-eq-ok (new_format f.numerator f.denominator f.drop_frame)
        (λ _. ok_or s.anchor (invalid "anchor missing") >>= after_anchor s) h5 in
    let (a, ha, h7) = >>=-eq-ok (ok_or s.anchor (invalid "anchor missing")) (after_anchor s) h6 in
    let (_, hv, h8) =
      >>=-eq-ok (validate_anchor a)
        (λ _.
          refuse (ltb max_scheduled (length s.scheduled)) (invalid "schedule capacity")
          >> validate_schedule a.time_ns s.discontinuity s.scheduled)
        h7 in
    let (c9, h9) =
      refuse-eq-ok (ltb max_scheduled (length s.scheduled)) (invalid "schedule capacity")
        (validate_schedule a.time_ns s.discontinuity s.scheduled) h8 in
    record {
      session_16 = ground arith;
      positive = ground arith;
      id_0_or_16 = ground arith;
      f = f;
      has_format = ok_or-eq-ok s.format _ hf;
      made = made;
      makes = hm;
      m = a;
      has_anchor = ok_or-eq-ok s.anchor _ ha;
      anchor_passes = hv;
      few = ltb_false→le _ _ c9;
      schedule_passes = h9;
    }

new_format_lem :
    (n d : ℕ) (drop : Bool) (f : FrameFormat) → new_format n d drop ≡ ok f → f ≡ format n d drop
unfolding new_format
new_format_lem n d drop f h = ground arith

made-IsFormat : (n d : ℕ) (drop : Bool) (f : FrameFormat) → new_format n d drop ≡ ok f → IsFormat f
made-IsFormat n d drop f h =
    let e = new_format_lem n d drop f h in
    rw
      (
        ap (λ (g : FrameFormat). g.numerator) e,
        ap (λ (g : FrameFormat). g.denominator) e,
        ap (λ (g : FrameFormat). g.drop_frame) e,
      )
      (h ∙ ap ok e)

to_array_16-IsId : (bytes : Bytes) → IsId (to_array_16 bytes)
to_array_16-IsId bytes = elim (Bool-cases (length bytes == 16)) [
  | inl full ↦ rw full (let e : length bytes ≡ 16 = ground arith in e)
  | inr other ↦ rw other tt
]

-- The timeline that `from_wire` returns.
pub record Accepted (s : Snapshot) : Type 0 where
  pub passes : validate_snapshot s ≡ ok tt
  pub timeline : Timeline
  pub returns : from_wire s ≡ ok timeline
  pub valid : IsTimeline timeline
  pub revision_is : timeline.revision ≡ s.revision
  pub session_is : timeline.session ≡ s.session
  pub discontinuity_is : timeline.discontinuity ≡ s.discontinuity
  pub positive : 0 < s.revision
  pub all_scheduled : timeline.scheduled_len ≡ length s.scheduled

from_wire-passed : (s : Snapshot) → SnapshotInRange s → validate_snapshot s ≡ ok tt → Accepted s
from_wire-passed s range h =
    let p = validate_snapshot-Passed s h in
    let a : Converts p.m =
      convert_anchor p.m.time_ns p.m.position p.m.rate (rw p.has_anchor at range.anchor_in)
        p.anchor_passes in
    let x : Fills 4 p.m.time_ns s.discontinuity s.scheduled =
      fill_schedule 4 p.m.time_ns s.discontinuity s.scheduled range.schedule_in p.few
        p.schedule_passes in
    record {
      passes = h;
      timeline = record {
        session = s.session;
        session_id = to_array_16 s.session_id;
        revision = s.revision;
        discontinuity = s.discontinuity;
        format = p.made;
        anchor = a.anchor;
        source_kind = if eqb_ℤ s.source_kind (pos 1) then generated else tracked;
        source_health = if eqb_ℤ s.source_health (pos 1) then healthy else degraded;
        scheduled = x.slots;
        scheduled_len = length s.scheduled;
      };
      returns =
          unfold from_wire in
          rw (h, p.has_format, p.session_16, p.makes, p.has_anchor, a.converts, x.fills);
      valid = record {
        session_in = p.session_16;
        session_id_in = to_array_16-IsId s.session_id;
        format_in = made-IsFormat p.f.numerator p.f.denominator p.f.drop_frame p.made p.makes;
        anchor_in = a.valid;
        slots = x.all_there;
        len_in = p.few;
        ascending = rw a.same_time x.ascending;
      };
      revision_is = refl;
      session_is = refl;
      discontinuity_is = refl;
      positive = p.positive;
      all_scheduled = refl;
    }

-- For messages with numbers in the range of their fields, `from_wire` returns a valid timeline
-- for every message that `validate_snapshot` passes, and that check's error for every other: no
-- `unwrap` in it ever fails.
pub from_wire_lem :
    (s : Snapshot)
    → SnapshotInRange s
    → Accepted s ⊎ ((e : Error) × (validate_snapshot s ≡ err e) × (from_wire s ≡ err e))
from_wire_lem s range = go (validate_snapshot s) refl
  where
    go :
        (r : Result Error (Unit {0}))
        → validate_snapshot s ≡ r
        → Accepted s ⊎ ((e : Error) × (validate_snapshot s ≡ err e) × (from_wire s ≡ err e))
    go (ok _) h = inl (from_wire-passed s range h)
    go (err e) h = inr (e, h, unfold from_wire in rw h)
