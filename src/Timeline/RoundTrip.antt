-- ===== src/Timeline/RoundTrip.antt =====
-- A valid timeline survives the wire: `from_wire` undoes `wire`.
use ethersync.Base.{
  ℕ, zero, suc, ◌≤◌, ◌<◌, ◌≡◌, refl, ap, true, false, not, ◌&&◌, Option, none, some, List, [], ◌∷◌,
  map, arith, ◌==◌, if◌then◌else◌, length, replicate, length-take, ok, ltb-eq-false, leb-eq-false,
}
use ethersync.Base.Int.{pos, eqb_ℤ}
use ethersync.Timecode.Rates.{new_rate-of_IsRate}
use ethersync.Wire.Messages.{Bytes}
use ethersync.Wire.Validate.{
  i64_max, is_enum, validate_anchor, validate_schedule, validate_snapshot,
}
use ethersync.Timeline.Defs.{
  Anchor, Scheduled, Timeline, SourceKind, generated, tracked, SourceHealth, healthy, degraded,
  default_scheduled, pending,
}
use ethersync.Timeline.Convert.{
  anchor_wire, anchor_from_wire, change_wire, kind_wire, health_wire, id_wire, wire, to_array_16,
  fill_slots, from_wire,
}
use ethersync.Timeline.Schedule.{IsAnchor, Ascending, IsId, IsTimeline}

anchor_from_wire-wire : (a : Anchor) → IsAnchor a → anchor_from_wire (anchor_wire a) ≡ ok a
unfolding anchor_from_wire anchor_wire
anchor_from_wire-wire a v = rw (new_rate-of_IsRate a.rate v.rate_in)

validate_anchor-wire : (a : Anchor) → IsAnchor a → validate_anchor (anchor_wire a) ≡ ok tt
unfolding validate_anchor anchor_wire
validate_anchor-wire a v =
    rw (ltb-eq-false i64_max a.time_ns v.time_in, new_rate-of_IsRate a.rate v.rate_in)

anchor_wire_time : (a : Anchor) → (anchor_wire a).time_ns ≡ a.time_ns
unfolding anchor_wire
anchor_wire_time a = refl

validate_schedule-wire :
    (time disc : ℕ) (ss : List Scheduled)
    → Ascending time disc ss
    → validate_schedule time disc (map change_wire ss) ≡ ok tt
unfolding validate_schedule
validate_schedule-wire time disc [] h = refl
validate_schedule-wire time disc (s ∷ ss) (a, b, c, d) =
    rw
      (
        validate_anchor-wire s.anchor c,
        anchor_wire_time s.anchor,
        leb-eq-false s.anchor.time_ns time a,
        leb-eq-false s.discontinuity disc b,
      )
      (validate_schedule-wire s.anchor.time_ns s.discontinuity ss d)

-- The slots of the array after `from_wire`: the pending changes, then defaults.
abbrev pub padded : ℕ → List Scheduled → List Scheduled
padded zero ss = []
padded (suc n) [] = replicate (suc n) default_scheduled
padded (suc n) (s ∷ ss) = s ∷ padded n ss

fill_slots-wire :
    (n time disc : ℕ) (ss : List Scheduled)
    → Ascending time disc ss
    → fill_slots (replicate n default_scheduled) (map change_wire ss) ≡ ok (padded n ss)
unfolding fill_slots
fill_slots-wire zero time disc ss h = refl
fill_slots-wire (suc n) time disc [] h = refl
fill_slots-wire (suc n) time disc (s ∷ ss) (a, b, c, d) =
    rw (anchor_from_wire-wire s.anchor c, fill_slots-wire n s.anchor.time_ns s.discontinuity ss d)

id_wire-valid :
    (id : Option Bytes)
    → IsId id
    → (not (length (id_wire id) == 0) && not (length (id_wire id) == 16)) ≡ false
id_wire-valid none h = refl
id_wire-valid (some id) h = rw h refl

to_array_16-id_wire : (id : Option Bytes) → IsId id → to_array_16 (id_wire id) ≡ id
to_array_16-id_wire none h = refl
to_array_16-id_wire (some id) h = rw h refl

kind-enum : (k : SourceKind) → is_enum (kind_wire k) ≡ true
kind-enum generated = refl
kind-enum tracked = refl

health-enum : (h : SourceHealth) → is_enum (health_wire h) ≡ true
health-enum healthy = refl
health-enum degraded = refl

kind-wire : (k : SourceKind) → (if eqb_ℤ (kind_wire k) (pos 1) then generated else tracked) ≡ k
kind-wire generated = refl
kind-wire tracked = refl

health-wire : (h : SourceHealth) → (if eqb_ℤ (health_wire h) (pos 1) then healthy else degraded) ≡ h
health-wire healthy = refl
health-wire degraded = refl

length-map : {A B : Type 0} (f : A → B) (xs : List A) → length (map f xs) ≡ length xs
length-map f [] = refl
length-map f (x ∷ xs) = ap suc (length-map f xs)

length-pending : (t : Timeline) → IsTimeline t → length (pending t) ≡ t.scheduled_len
length-pending t v = omega (arith, length-take t.scheduled_len t.scheduled, v.slots, v.len_in)

pub validate_snapshot-wire :
    (t : Timeline) → IsTimeline t → 0 < t.revision → validate_snapshot (wire t) ≡ ok tt
unfolding validate_snapshot wire
validate_snapshot-wire t v r =
    let few : length (map change_wire (pending t)) ≤ 4 =
      omega (arith, length-map change_wire (pending t), length-pending t v, v.len_in) in
    let counted : (t.revision == 0) ≡ false = ground arith in
    rw
      (
        v.session_in,
        counted,
        id_wire-valid t.session_id v.session_id_in,
        kind-enum t.source_kind,
        health-enum t.source_health,
        v.format_in,
        validate_anchor-wire t.anchor v.anchor_in,
        ltb-eq-false 4 (length (map change_wire (pending t))) few,
        anchor_wire_time t.anchor,
      )
      (validate_schedule-wire t.anchor.time_ns t.discontinuity (pending t) v.ascending)

-- The timeline with the unused slots of its schedule reset, which nothing reads.
abbrev pub canonical : Timeline → Timeline
canonical t = record t { scheduled = padded 4 (pending t) }

-- A valid timeline with a positive revision comes back from its own wire message unchanged, but
-- for the unused slots of the schedule array.
pub from_wire-wire :
    (t : Timeline) → IsTimeline t → 0 < t.revision → from_wire (wire t) ≡ ok (canonical t)
unfolding from_wire
from_wire-wire t v r = rw (validate_snapshot-wire t v r) (
    unfold wire in
    rw (
      v.session_in,
      v.format_in,
      anchor_from_wire-wire t.anchor v.anchor_in,
      fill_slots-wire 4 t.anchor.time_ns t.discontinuity (pending t) v.ascending,
      to_array_16-id_wire t.session_id v.session_id_in,
      kind-wire t.source_kind,
      health-wire t.source_health,
      length-map change_wire (pending t),
      length-pending t v,
    ))
