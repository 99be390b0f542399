-- ===== src/Leader/Promotion.antt =====
-- The loop of `LeaderJob::progress` that takes over the scheduled changes that are due, against
-- `Timeline::latch`, by which a follower takes them over.
use native.Mathlib.Decide.{dec_le}
use ethersync.Base.{
  ℕ, zero, suc, ◌≤◌, ◌<◌, ◌≡◌, refl, ap, ◌∙◌, sym, false, ◌&&◌, ltb, leb, arith, lt→ltb, le→leb,
  leb-eq-false, inr, if_elim,
}
use ethersync.Timeline.Defs.{
  Timeline, Segment, first_scheduled, segment_at, promote, latch_rounds, latch,
}
use ethersync.Timeline.Schedule.{IsTimeline, discontinuity-le-segment_at}
use ethersync.Timeline.Promote.{
  promote-IsTimeline, promote-IsPromoted, segment_at-promote, segment_at-base, first-Ascending,
  promote_discontinuity,
}
use ethersync.Timeline.Latch.{LatchedAt, latch-LatchedAt}
use ethersync.Leader.State.{promote_rounds, promote_due}
use ethersync.Leader.Commands.{Keeps, IsLed}

-- A change is due exactly where its discontinuity is not above the one that is played.
due_iff_reached :
    (t : Timeline) (now : ℕ)
    → IsTimeline t
    → 0 < t.scheduled_len
    → leb (first_scheduled t).anchor.time_ns now
      ≡ leb (first_scheduled t).discontinuity (segment_at t now).discontinuity
due_iff_reached t now v left = elim (dec_le (first_scheduled t).anchor.time_ns now) [
  | yes due ↦
      let same = segment_at-promote t now v left due in
      let reached : (first_scheduled t).discontinuity ≤ (segment_at t now).discontinuity = omega (
        arith,
        promote_discontinuity t,
        discontinuity-le-segment_at (promote t) now (promote-IsTimeline t v left),
        ap (λ (g : Segment). g.discontinuity) same,
      ) in
      le→leb _ _ due ∙ sym (le→leb _ _ reached)
  | no not_due ↦
      let later : now < (first_scheduled t).anchor.time_ns = omega arith in
      let still = segment_at-base t now v (inr later) in
      let kept : (segment_at t now).discontinuity < (first_scheduled t).discontinuity =
        omega (arith, (first-Ascending t v left).1, ap (λ (g : Segment). g.discontinuity) still) in
      leb-eq-false _ _ later ∙ sym (leb-eq-false _ _ kept)
]

promote_rounds-latch_rounds :
    (n now : ℕ) (t : Timeline)
    → IsTimeline t
    → n ≡ t.scheduled_len
    → promote_rounds n now t ≡ latch_rounds n (segment_at t now).discontinuity t
unfolding promote_rounds latch_rounds
promote_rounds-latch_rounds zero now t v e = refl
promote_rounds-latch_rounds (suc n) now t v e =
    let left : 0 < t.scheduled_len = omega arith in
    let p = promote-IsPromoted t left (omega arith) in
    elim (dec_le (first_scheduled t).anchor.time_ns now) [
      | yes due ↦
          let here = le→leb (first_scheduled t).anchor.time_ns now due in
          rw (lt→ltb 0 t.scheduled_len left, here, sym (due_iff_reached t now v left) ∙ here)
            (promote_rounds-latch_rounds n now (promote t) (promote-IsTimeline t v left)
                (omega (arith, p.one_less))
              ∙ ap (λ (g : Segment). latch_rounds n g.discontinuity (promote t))
                  (segment_at-promote t now v left due))
      | no not_due ↦
          let here = leb-eq-false (first_scheduled t).anchor.time_ns now (omega arith) in
          rw (lt→ltb 0 t.scheduled_len left, here, sym (due_iff_reached t now v left) ∙ here) refl
    ]

-- On a valid timeline the leader's loop, which goes by time, takes over the same changes as a
-- follower that latches at the discontinuity played at that time.
pub promote_due-latch :
    (t : Timeline) (now : ℕ)
    → IsTimeline t
    → (promote_due now t).1 ≡ latch (segment_at t now).discontinuity t
unfolding promote_due latch
promote_due-latch t now v = promote_rounds-latch_rounds t.scheduled_len now t v refl

pub promote_due-LatchedAt :
    (t : Timeline) (now : ℕ) → IsTimeline t → LatchedAt now t (promote_due now t).1
promote_due-LatchedAt t now v = rw (promote_due-latch t now v) (latch-LatchedAt t now v)

promote_rounds_idle :
    (n now : ℕ) (t : Timeline)
    → (ltb 0 t.scheduled_len && leb (first_scheduled t).anchor.time_ns now) ≡ false
    → promote_rounds n now t ≡ t
unfolding promote_rounds
promote_rounds_idle zero now t h = refl
promote_rounds_idle (suc n) now t h = rw h refl

-- Where nothing is due the loop leaves the timeline as it is.
pub promote_due_idle :
    (t : Timeline) (now : ℕ) → (promote_due now t).0 ≡ false → (promote_due now t).1 ≡ t
unfolding promote_due
promote_due_idle t now h = promote_rounds_idle t.scheduled_len now t h

promote_rounds-Keeps : (n now : ℕ) (t : Timeline) → Keeps now t (promote_rounds n now t)
unfolding promote_rounds promote
promote_rounds-Keeps zero now t = record { kind_kept = refl; revision_kept = refl; past = λ h. h }
promote_rounds-Keeps (suc n) now t =
    if_elim (Keeps now t) (ltb 0 t.scheduled_len && leb (first_scheduled t).anchor.time_ns now)
      (λ due.
        let rest = promote_rounds-Keeps n now (promote t) in
        record {
          kind_kept = rest.kind_kept;
          revision_kept = rest.revision_kept;
          past = λ _. rest.past (ground arith);
        })
      (λ _. record { kind_kept = refl; revision_kept = refl; past = λ h. h })

pub promote_due-Keeps : (t : Timeline) (now : ℕ) → Keeps now t (promote_due now t).1
unfolding promote_due
promote_due-Keeps t now = promote_rounds-Keeps t.scheduled_len now t

-- The promotions of a pass, and whether they ask to publish.
pub promote_due-IsLed : (t : Timeline) (now : ℕ) → IsLed now t → IsLed now (promote_due now t).1
promote_due-IsLed t now l = record {
  valid = (promote_due-LatchedAt t now l.valid).valid;
  generated_source = (promote_due-Keeps t now).kind_kept ∙ l.generated_source;
  past = (promote_due-Keeps t now).past l.past;
}
