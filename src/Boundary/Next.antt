-- ===== src/Boundary/Next.antt =====
-- protocol/src/boundary.rs: `View::next_boundary`.
use ethersync.Base.{
  ℕ, ◌+◌, ◌-◌, Bool, true, false, not, ◌&&◌, ◌||◌, Option, none, some, List, [], ◌∷◌, ltb, leb,
  ◌==◌, if◌then◌else◌,
}
use ethersync.Base.Int.{ℤ, pos, ◌+ℤ◌, ◌-ℤ◌, ◌*ℤ◌, ltb_ℤ, leb_ℤ, eqb_ℤ, div_euclid, rem_euclid}
use ethersync.Base.Float.{Float, ◌⊕◌, ◌⊖◌, ◌⊘◌, literal}
use ethersync.Timecode.Defs.{Position}
use ethersync.Timecode.Motion.{unit, fixed, from_fixed}
use ethersync.Timeline.Defs.{Scheduled, pending}
use ethersync.Wire.Validate.{i64_max}
use ethersync.Clock.Defs.{leader_time, uncertainty_at}
use ethersync.Follower.View.{View, Reading, evaluate, is_uninitialized}
use ethersync.Boundary.{first}

pub data BoundaryKind : Type 0 where
  frame scheduled_change : BoundaryKind

pub record Boundary (F : Type 0) : Type 0 where
  pub local_deadline_ns : ℕ
  pub position : Position
  pub discontinuity : ℕ
  pub kind : BoundaryKind
  pub uncertainty_ns : F

-- `.find(|s| s.anchor.time_ns > leader_now)`
unfoldable pub upcoming : List Scheduled → ℕ → Option Scheduled
upcoming [] leader_now = none
upcoming (s ∷ ss) leader_now =
    let rest = upcoming ss leader_now in if ltb leader_now s.anchor.time_ns then some s else rest

-- The next whole position strictly ahead, in the direction of motion.
unfoldable pub next_whole : ℤ → Bool → ℤ
next_whole at true = (div_euclid at unit +ℤ pos 1) *ℤ pos unit
next_whole at false =
    (div_euclid at unit -ℤ (if rem_euclid at unit == 0 then pos 1 else pos 0)) *ℤ pos unit

abbrev pub is_frame : BoundaryKind → Bool
is_frame BoundaryKind.frame = true
is_frame BoundaryKind.scheduled_change = false

-- `scheduled.map_or(end, |t| t - 1)`
abbrev pub frame_end : Option ℕ → ℕ
frame_end none = i64_max
frame_end (some t) = t - 1

module _ {F : Type 0} ⦃fl : Float F⦄ where
  -- The predicates of the two searches.
  unfoldable pub is_due : View F → Scheduled → ℕ → Bool
  is_due v s t = leb s.anchor.time_ns (leader_time v.mapping t)

  unfoldable pub has_crossed : View F → Bool → ℤ → ℕ → Bool
  has_crossed v forward target t =
      let at = fixed (evaluate v t).position in if forward then leb_ℤ target at else leb_ℤ at target

  -- When the next scheduled change takes effect.
  unfoldable pub change_time : View F → Option Scheduled → ℕ → Option ℕ
  change_time v none start = none
  change_time v (some s) start = first start i64_max (is_due v s)

  abbrev pub forward : Reading F → Bool
  forward r = ltb_ℤ (pos 0) r.rate.numerator

  abbrev pub target_of : Reading F → ℤ
  target_of r = next_whole (fixed r.position) (forward r)

  unfoldable pub frame_time : View F → Reading F → ℕ → Option ℕ → Option ℕ
  frame_time v r start change =
      if eqb_ℤ r.rate.numerator (pos 0)
      then none
      else first start (frame_end change) (has_crossed v (forward r) (target_of r))

  -- The boundary at a deadline.
  unfoldable pub boundary_at : View F → Reading F → ℕ → BoundaryKind → Position → Boundary F
  boundary_at v r deadline kind position =
      let slewing = is_frame kind && not (fl.eq r.status.correction_frames (literal 0 0)) in
      record {
        local_deadline_ns = deadline;
        position = position;
        discontinuity = (evaluate v deadline).discontinuity;
        kind = kind;
        uncertainty_ns =
            (if v.local_clock then literal 0 0 else uncertainty_at v.mapping deadline)
            ⊘ (literal 1 0 ⊕ v.mapping.drift ⊖ (if slewing then literal 1 1 else literal 0 0));
      }

  -- A frame boundary, or else the scheduled change.
  unfoldable pub choose_boundary : View F → Reading F → Option ℕ → Option ℕ → Option (Boundary F)
  unfolding boundary_at
  choose_boundary v r (some t) change =
      some (boundary_at v r t BoundaryKind.frame (from_fixed (target_of r)))
  choose_boundary v r none (some t) =
      some (boundary_at v r t BoundaryKind.scheduled_change (evaluate v t).position)
  choose_boundary v r none none = none

  -- A local time of 2^64 - 1 ends at `checked_add`, as any that is past the clock's range.
  unfoldable pub next_boundary : View F → ℕ → Option (Boundary F)
  unfolding upcoming change_time frame_time choose_boundary
  next_boundary v local =
      let r = evaluate v local in
      let start = local + 1 in
      let change =
        change_time v (upcoming (pending v.timeline) (leader_time v.mapping local)) start in
      if ltb i64_max start || is_uninitialized r.status.synchronization
      then none
      else choose_boundary v r (frame_time v r start change) change
