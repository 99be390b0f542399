-- ===== src/Leader/Anchors.antt =====
-- The anchor and the discontinuity of a change in native/src/network.rs.
use ethersync.Base.{ℕ, ◌+◌, ◌^◌, ◌≤◌, ◌<◌, max, ◌≡◌, refl, arith}
use ethersync.Timecode.Defs.{Position}
use ethersync.Timecode.Motion.{Rate, advance}
use ethersync.Timecode.Rates.{IsRate}
use ethersync.Timecode.Positions.{IsPosition, from_fixed-IsPosition}
use ethersync.Wire.Validate.{i64_max}
use ethersync.Timeline.Defs.{Timeline, pending, base_segment, segment_at, anchor_at, at}
use ethersync.Timeline.Schedule.{IsAnchor, IsTimeline}
use ethersync.Leader.Changes.{Change, last_reserved, controlled, next_discontinuity, new_anchor}
use ethersync.Leader.Appends.{last_disc-le, segment_from-in, segment_from-le}

-- The position and the rate that a change gives are in range.
abbrev pub IsChange : Change → Type 0
IsChange (Change.rate r) = IsRate r
IsChange (Change.seek p) = IsPosition p
IsChange (Change.set p r) = IsPosition p × IsRate r

controlled-in :
    (change : Change) (p : Position) (r : Rate)
    → IsChange change
    → IsPosition p
    → IsRate r
    → IsPosition (controlled change p r).0 × IsRate (controlled change p r).1
unfolding controlled
controlled-in (Change.rate q) p r c a b = (a, c)
controlled-in (Change.seek q) p r c a b = (c, b)
controlled-in (Change.set q x) p r c a b = c

-- The highest discontinuity that a timeline uses or has reserved.
abbrev pub highest : Timeline → ℕ
highest t = max t.discontinuity (last_reserved (pending t))

pub segment_at-IsAnchor :
    (t : Timeline) (now : ℕ) → IsTimeline t → IsAnchor (segment_at t now).anchor
unfolding segment_at
segment_at-IsAnchor t now v =
    segment_from-in t.anchor.time_ns t.discontinuity now (base_segment t) (pending t) v.ascending
      v.anchor_in

pub segment_at-highest :
    (t : Timeline) (now : ℕ) → IsTimeline t → (segment_at t now).discontinuity ≤ highest t
unfolding segment_at
segment_at-highest t now v = omega (
  arith,
  segment_from-le t.anchor.time_ns t.discontinuity now (base_segment t) (pending t) v.ascending
      (omega arith),
  last_disc-le t.discontinuity (pending t),
)

at_disc : (t : Timeline) (time : ℕ) → (at t time).2 ≡ (segment_at t time).discontinuity
unfolding at
at_disc t time = refl

pub next_discontinuity-above :
    (t : Timeline) (time : ℕ)
    → IsTimeline t
    → highest t + 1 < 2 ^ 64
    → next_discontinuity t (at t time).2 ≡ highest t + 1
unfolding next_discontinuity
next_discontinuity-above t time v fits =
    let e = at_disc t time in let le = segment_at-highest t time v in omega (arith, e, le)

pub new_anchor-IsAnchor :
    (t : Timeline) (change : Change) (time : ℕ)
    → IsTimeline t
    → IsChange change
    → time ≤ i64_max
    → IsAnchor (new_anchor t change time)
unfolding new_anchor at anchor_at advance
new_anchor-IsAnchor t change time v c h = record {
  time_in = h;
  position_in =
      (controlled-in change (anchor_at (segment_at t time).anchor time t.format)
        (segment_at t time).anchor.rate c (from_fixed-IsPosition _)
        (segment_at-IsAnchor t time v).rate_in).0;
  rate_in =
      (controlled-in change (anchor_at (segment_at t time).anchor time t.format)
        (segment_at t time).anchor.rate c (from_fixed-IsPosition _)
        (segment_at-IsAnchor t time v).rate_in).1;
}

pub new_anchor_time :
    (t : Timeline) (change : Change) (time : ℕ) → (new_anchor t change time).time_ns ≡ time
unfolding new_anchor
new_anchor_time t change time = refl
