-- ===== src/Tracking.antt =====
-- protocol/src/tracking.rs: an external source that drives the anchor of a timeline. A call returns
-- its result with the new tracker and the new timeline.
pub mod Choices
pub mod Laws
use ethersync.Base.{
  ℕ, ◌+◌, ◌-◌, ◌%◌, ◌^◌, ◌*◌, Bool, true, false, not, ◌&&◌, ◌||◌, Option, none, some, ltb, leb,
  ◌==◌, if◌then◌else◌, Result, ok, err,
}
use ethersync.Base.Int.{ℤ, pos, negsuc, ◌+ℤ◌, ◌-ℤ◌, eqb_ℤ}
use ethersync.Base.Float.{Float, ◌⊕◌, ◌⊖◌, ◌⊗◌, ◌⊘◌, ◌≼◌, ◌≺◌, literal, of_ℕ, of_ℤ, abs, clamp}
use ethersync.Timecode.Defs.{Error, invalid, Position}
use ethersync.Timecode.Motion.{Rate, fixed, from_fixed, new_rate}
use ethersync.Timeline.Defs.{Timeline, Anchor, anchor_at, SourceKind, SourceHealth}
use ethersync.Follower.View.{fps, as_f64}

pub record SourceSample : Type 0 where
  pub timestamp_ns : ℕ
  pub position : Position
  pub rate_hint : Option Rate
  pub discontinuity : Bool

pub record Tracker (F : Type 0) : Type 0 where
  pub last : Option SourceSample
  pub candidate : Option (F × ℕ)
  pub jumps : ℕ
  pub jumps_sign : ℤ

unfoldable pub is_tracked : SourceKind → Bool
is_tracked SourceKind.tracked = true
is_tracked SourceKind.generated = false

unfoldable pub eq_rate : Rate → Rate → Bool
eq_rate a b = eqb_ℤ a.numerator b.numerator && (a.denominator == b.denominator)

-- `self.last.is_some_and(|p| s.timestamp_ns <= p.timestamp_ns)`
abbrev pub not_after : Option SourceSample → ℕ → Bool
not_after none time = false
not_after (some p) time = leb time p.timestamp_ns

-- `previous.is_none()`
abbrev pub is_first : Option SourceSample → Bool
is_first none = true
is_first (some p) = false

-- The addition of the discontinuity, which wraps at 64 bits.
abbrev pub next_u64 : ℕ → ℕ
next_u64 n = (n + 1) % 2 ^ 64

-- The hint, where it differs from the rate.
unfoldable pub hinted : Option Rate → Rate → Option Rate
hinted none rate = none
hinted (some hint) rate = if eq_rate hint rate then none else some hint

module _ {F : Type 0} ⦃fl : Float F⦄ where
  unfoldable pub default_tracker : Tracker F
  default_tracker = record { last = none; candidate = none; jumps = 0; jumps_sign = pos 0 }

  -- The speed between two samples at least a millisecond apart.
  unfoldable pub inferred : Option SourceSample → SourceSample → Timeline → Option F
  inferred none s t = none
  inferred (some p) s t =
      let elapsed = of_ℕ (s.timestamp_ns - p.timestamp_ns) ⊘ literal 1_000_000_000 0 in
      if literal 1 3 ≼ elapsed
      then some (
          of_ℤ (fixed s.position -ℤ fixed p.position)
          ⊘ literal 4_294_967_296 0
          ⊘ (elapsed ⊗ fps t.format))
      else none

  -- `s.rate_hint.map(..).or(inferred).unwrap_or(..)`
  unfoldable pub raw_speed : Option Rate → Option F → Timeline → F
  raw_speed (some hint) inferred t = as_f64 hint
  raw_speed none (some speed) t = speed
  raw_speed none none t = as_f64 t.anchor.rate

  unfoldable pub source_speed : Option SourceSample → SourceSample → Timeline → F
  unfolding inferred raw_speed
  source_speed last s t =
      clamp (fl.neg (literal 64 0)) (literal 64 0) (raw_speed s.rate_hint (inferred last s t) t)

  -- How far the sample is from what the timeline's anchor says, in frames.
  unfoldable pub source_error : SourceSample → Timeline → F
  source_error s t =
      of_ℤ (fixed s.position -ℤ fixed (anchor_at t.anchor s.timestamp_ns t.format))
      ⊘ literal 4_294_967_296 0

  -- The count of jumps in one direction, and the direction.
  unfoldable pub count_jumps : Tracker F → F → ℕ × ℤ
  count_jumps r error =
      let sign = if literal 0 0 ≺ error then pos 1 else negsuc 0 in
      if literal 1 0 ≺ abs error
      then ((if eqb_ℤ sign r.jumps_sign then r.jumps else 0) + 1, sign)
      else (0, r.jumps_sign)

  -- How often the speed was seen, this time included.
  unfoldable pub count_speed : Option (F × ℕ) → F → ℕ
  count_speed none speed = 1
  count_speed (some (v, n)) speed = if abs (v ⊖ speed) ≺ literal 5 2 then n + 1 else 1

  -- What the rate becomes: the rate, whether it changed, and the candidate that is kept. An error
  -- of `Rate::new` leaves the candidate that led to it.
  unfoldable pub settle_rate :
      Result Error Rate → F → ℕ → Result Error (Rate × Bool) × Option (F × ℕ)
  settle_rate (ok rate) speed count = (ok (rate, true), none)
  settle_rate (err e) speed count = (err e, some (speed, count))

  unfoldable pub choose_rate :
      Option Rate → Option (F × ℕ) → Rate → F → Result Error (Rate × Bool) × Option (F × ℕ)
  unfolding count_speed settle_rate
  choose_rate (some hint) candidate rate speed = (ok (hint, true), candidate)
  choose_rate none candidate rate speed =
      let count = count_speed candidate speed in
      let made = new_rate (fl.to_i32 (fl.round (speed ⊗ literal 10_000 0))) 10_000 in
      if literal 2 2 ≺ abs (speed ⊖ as_f64 rate)
      then (if leb 3 count
          then settle_rate made speed count
          else (ok (rate, false), some (speed, count)))
      else (ok (rate, false), none)

  -- The new position: the sample's, or the old trajectory drawn towards it.
  unfoldable pub drawn : SourceSample → Timeline → F → Position
  drawn s t error = from_fixed (
      fixed (anchor_at t.anchor s.timestamp_ns t.format)
      +ℤ fl.to_i128 (
          clamp (fl.neg (literal 1 1)) (literal 1 1) error ⊗ literal 2 1 ⊗ literal 4_294_967_296 0))

  -- The timeline with its new anchor, and what a change resets.
  unfoldable pub moved : SourceSample → Timeline → F → Rate → Bool → Timeline
  unfolding drawn
  moved s t error rate changed = record t {
    anchor = record {
      time_ns = s.timestamp_ns;
      position = if changed then s.position else drawn s t error;
      rate = rate;
    };
    source_health = SourceHealth.healthy;
    discontinuity = if changed then next_u64 t.discontinuity else t.discontinuity;
    scheduled_len = if changed then 0 else t.scheduled_len;
  }

  unfoldable pub settled : Tracker F → SourceSample → Bool → Tracker F
  settled r s changed = record {
    last = some s;
    candidate = if changed then none else r.candidate;
    jumps = if changed then 0 else r.jumps;
    jumps_sign = if changed then pos 0 else r.jumps_sign;
  }

  -- The end of `sample`, with what the checks before the rate made of `changed`.
  unfoldable pub outcome :
      Result Error (Rate × Bool)
      → Tracker F
      → Timeline
      → SourceSample
      → F
      → Bool
      → Result Error Bool × Tracker F × Timeline
  unfolding moved settled
  outcome (err e) r t s error changed = (err e, r, t)
  outcome (ok (rate, turned)) r t s error changed = (
    ok (changed || turned),
    settled r s (changed || turned),
    moved s t error rate (changed || turned),
  )

  -- `sample` from the guards on.
  unfoldable pub follow :
      Tracker F → Timeline → SourceSample → Result Error Bool × Tracker F × Timeline
  unfolding source_speed source_error count_jumps hinted choose_rate outcome
  follow r t s =
      let speed = source_speed r.last s t in
      let error = source_error s t in
      let (jumps, sign) = count_jumps r error in
      let jumped = leb 3 jumps in
      let (choice, candidate) =
        choose_rate (hinted s.rate_hint t.anchor.rate) r.candidate t.anchor.rate speed in
      let counted = record r {
        candidate = candidate;
        jumps = if jumped then 0 else jumps;
        jumps_sign = sign;
      } in
      outcome choice counted t s error (s.discontinuity || is_first r.last || jumped)

  unfoldable pub sample :
      Tracker F → Timeline → SourceSample → ℕ → Result Error Bool × Tracker F × Timeline
  unfolding is_tracked follow
  sample r t s now =
      if not (is_tracked t.source_kind)
      then (err (invalid "source is not tracked"), r, t)
      else if ltb now s.timestamp_ns || not_after r.last s.timestamp_ns
      then (err (invalid "source timestamps must increase and not be in the future"), r, t)
      else follow r t s

  unfoldable pub health : Tracker F → ℕ → ℕ → SourceHealth
  health r now timeout = elim r.last [
    | none ↦ SourceHealth.degraded
    | some s ↦
        if ltb timeout (now - s.timestamp_ns) then SourceHealth.degraded else SourceHealth.healthy
  ]
