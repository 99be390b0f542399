-- ===== src/Timeline/Schedule.antt =====
-- The schedule of a timeline: its invariant, what is played when, and what `latch` keeps.
use native.Mathlib.Decide.{dec_le}
use ethersync.Base.{
  ℕ, ◌≤◌, ◌<◌, ◌≡◌, refl, ◌⊎◌, inl, inr, Option, none, some, List, [], ◌∷◌, arith, length, le→leb,
  leb-eq-false, ◌∙◌,
}
use ethersync.Wire.Messages.{Bytes}
use ethersync.Wire.Validate.{i64_max}
use ethersync.Timecode.Labels.{IsFormat}
use ethersync.Timecode.Positions.{IsPosition}
use ethersync.Timecode.Rates.{IsRate}
use ethersync.Timeline.Defs.{
  Anchor, Scheduled, Timeline, Segment, played, pending, segment_from, base_segment, segment_at,
}

pub record IsAnchor (a : Anchor) : Type 0 where
  pub time_in : a.time_ns ≤ i64_max
  pub position_in : IsPosition a.position
  pub rate_in : IsRate a.rate

-- Times and discontinuities rise along the schedule, from above those given.
abbrev pub Ascending : ℕ → ℕ → List Scheduled → Type 0
Ascending time disc [] = Unit
Ascending time disc (s ∷ ss) =
    (time < s.anchor.time_ns)
    × (disc < s.discontinuity)
    × IsAnchor s.anchor
    × Ascending s.anchor.time_ns s.discontinuity ss

abbrev pub IsId : Option Bytes → Type 0
IsId none = Unit
IsId (some id) = length id ≡ 16

pub record IsTimeline (t : Timeline) : Type 0 where
  pub session_in : length t.session ≡ 16
  pub session_id_in : IsId t.session_id
  pub format_in : IsFormat t.format
  pub anchor_in : IsAnchor t.anchor
  pub slots : length t.scheduled ≡ 4
  pub len_in : t.scheduled_len ≤ 4
  pub ascending : Ascending t.anchor.time_ns t.discontinuity (pending t)

pub segment_from-due :
    (now : ℕ) (g : Segment) (s : Scheduled) (ss : List Scheduled)
    → s.anchor.time_ns ≤ now
    → segment_from now g (s ∷ ss) ≡ segment_from now (played s) ss
unfolding segment_from
segment_from-due now g s ss h = rw (le→leb s.anchor.time_ns now h)

pub segment_from-later :
    (now : ℕ) (g : Segment) (s : Scheduled) (ss : List Scheduled)
    → now < s.anchor.time_ns
    → segment_from now g (s ∷ ss) ≡ segment_from now g ss
unfolding segment_from
segment_from-later now g s ss h = rw (leb-eq-false s.anchor.time_ns now h)

pub segment_from-nil : (now : ℕ) (g : Segment) → segment_from now g [] ≡ g
unfolding segment_from
segment_from-nil now g = refl

-- Before its first change a schedule changes nothing.
pub segment_from-early :
    (time disc now : ℕ) (g : Segment) (ss : List Scheduled)
    → Ascending time disc ss
    → now ≤ time
    → segment_from now g ss ≡ g
segment_from-early time disc now g [] h le = segment_from-nil now g
segment_from-early time disc now g (s ∷ ss) (a, b, c, d) le =
    segment_from-later now g s ss (omega arith)
    ∙ segment_from-early s.anchor.time_ns s.discontinuity now g ss d (omega arith)

-- One round of the loop on an ascending schedule: the first change is due, or nothing is.
abbrev Round : ℕ → Segment → Scheduled → List Scheduled → Type 0
Round now g s ss =
    ((s.anchor.time_ns ≤ now) × (segment_from now g (s ∷ ss) ≡ segment_from now (played s) ss))
    ⊎ ((now < s.anchor.time_ns) × (segment_from now g (s ∷ ss) ≡ g))

round :
    (time disc now : ℕ) (g : Segment) (s : Scheduled) (ss : List Scheduled)
    → Ascending time disc (s ∷ ss)
    → Round now g s ss
round time disc now g s ss (a, b, c, d) = elim (dec_le s.anchor.time_ns now) [
  | yes due ↦ inl (due, segment_from-due now g s ss due)
  | no not_due ↦
      let later : now < s.anchor.time_ns = omega arith in
      inr (
        later,
        segment_from-later now g s ss later
            ∙ segment_from-early s.anchor.time_ns s.discontinuity now g ss d (omega arith),
      )
]

-- The discontinuity that is played is never below the one before the schedule.
segment_from-ge :
    (time disc now : ℕ) (g : Segment) (ss : List Scheduled)
    → Ascending time disc ss
    → g.discontinuity ≤ disc
    → g.discontinuity ≤ (segment_from now g ss).discontinuity
segment_from-ge time disc now g [] h le = rw (segment_from-nil now g) (omega arith)
segment_from-ge time disc now g (s ∷ ss) (a, b, c, d) le =
    elim (round time disc now g s ss (a, b, c, d)) [
      | inl (due, e) ↦ rw e (
          omega (
            arith,
            segment_from-ge s.anchor.time_ns s.discontinuity now (played s) ss d (omega arith),
          ))
      | inr (later, e) ↦ rw e (omega arith)
    ]

segment_from_mono :
    (time disc now now' : ℕ) (g : Segment) (ss : List Scheduled)
    → Ascending time disc ss
    → g.discontinuity ≤ disc
    → now ≤ now'
    → (segment_from now g ss).discontinuity ≤ (segment_from now' g ss).discontinuity
segment_from_mono time disc now now' g [] h le on =
    rw (segment_from-nil now g, segment_from-nil now' g) (omega arith)
segment_from_mono time disc now now' g (s ∷ ss) (a, b, c, d) le on =
    elim (round time disc now g s ss (a, b, c, d)) [
      | inl (due, e) ↦
          rw (e, segment_from-due now' g s ss (omega arith))
            (segment_from_mono s.anchor.time_ns s.discontinuity now now' (played s) ss d
              (omega arith) on)
      | inr (later, e) ↦ rw e (segment_from-ge time disc now' g (s ∷ ss) (a, b, c, d) le)
    ]

-- On a valid timeline the discontinuity never goes back as time passes.
pub segment_at_mono :
    (t : Timeline) (now now' : ℕ)
    → IsTimeline t
    → now ≤ now'
    → (segment_at t now).discontinuity ≤ (segment_at t now').discontinuity
unfolding segment_at
segment_at_mono t now now' v on =
    segment_from_mono t.anchor.time_ns t.discontinuity now now' (base_segment t) (pending t)
      v.ascending (omega arith) on

pub discontinuity-le-segment_at :
    (t : Timeline) (now : ℕ) → IsTimeline t → t.discontinuity ≤ (segment_at t now).discontinuity
unfolding segment_at
discontinuity-le-segment_at t now v =
    segment_from-ge t.anchor.time_ns t.discontinuity now (base_segment t) (pending t) v.ascending
      (omega arith)
