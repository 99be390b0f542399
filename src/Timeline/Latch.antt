-- ===== src/Timeline/Latch.antt =====
-- `Timeline::latch`: it keeps a timeline valid, and where it is given the discontinuity that is
-- being played it makes that the base and changes nothing that is played from then on.
use native.Mathlib.Decide.{dec_le}
use ethersync.Base.{
  ℕ, zero, suc, ◌≤◌, ◌<◌, ◌≡◌, refl, sym, ap, ◌∙◌, ◌⊎◌, inl, inr, arith, lt→ltb, le→leb,
  leb-eq-false,
}
use ethersync.Timeline.Defs.{
  Timeline, Segment, first_scheduled, base_segment, segment_at, promote, latch_rounds, latch,
}
use ethersync.Timeline.Schedule.{IsTimeline, discontinuity-le-segment_at}
use ethersync.Timeline.Promote.{
  promote-IsTimeline, promote-IsPromoted, segment_at-promote, segment_at-base, first-Ascending,
  promote_discontinuity,
}

-- `u` is `t` with the changes that are in effect at `now` taken over.
pub record LatchedAt (now : ℕ) (t u : Timeline) : Type 0 where
  pub valid : IsTimeline u
  pub base : base_segment u ≡ segment_at t now
  pub future : (later : ℕ) → now ≤ later → segment_at u later ≡ segment_at t later

latch_rounds-LatchedAt :
    (n now d : ℕ) (t : Timeline)
    → IsTimeline t
    → n ≡ t.scheduled_len
    → d ≡ (segment_at t now).discontinuity
    → LatchedAt now t (latch_rounds n d t)
unfolding latch_rounds
latch_rounds-LatchedAt zero now d t v e e' = record {
  valid = v;
  base = sym (segment_at-base t now v (inl (sym e)));
  future = λ later h. refl;
}
latch_rounds-LatchedAt (suc n) now d t v e e' =
    let left : 0 < t.scheduled_len = omega arith in
    let p = promote-IsPromoted t left (omega arith) in
    elim (dec_le (first_scheduled t).anchor.time_ns now) [
      | yes due ↦
          let same = segment_at-promote t now v left due in
          let rest =
            latch_rounds-LatchedAt n now d (promote t) (promote-IsTimeline t v left)
              (omega (arith, p.one_less)) (rw same e') in
          let taken : (first_scheduled t).discontinuity ≤ d = omega (
            arith,
            promote_discontinuity t,
            discontinuity-le-segment_at (promote t) now (promote-IsTimeline t v left),
            ap (λ (g : Segment). g.discontinuity) same,
          ) in
          rw (lt→ltb 0 t.scheduled_len left, le→leb (first_scheduled t).discontinuity d taken)
            (record {
              valid = rest.valid;
              base = rest.base ∙ same;
              future =
                  λ later h. rest.future later h ∙ segment_at-promote t later v left (omega arith);
            })
      | no not_due ↦
          let later : now < (first_scheduled t).anchor.time_ns = omega arith in
          let still = segment_at-base t now v (inr later) in
          let kept : d < (first_scheduled t).discontinuity =
            omega
              (arith, (first-Ascending t v left).1, ap (λ (g : Segment). g.discontinuity) still) in
          rw (lt→ltb 0 t.scheduled_len left, leb-eq-false (first_scheduled t).discontinuity d kept)
            (record { valid = v; base = sym still; future = λ later h. refl })
    ]

-- Latching a valid timeline at the discontinuity that it plays at `now` makes that segment the
-- base, keeps the timeline valid and changes nothing that is played at `now` or later.
pub latch-LatchedAt :
    (t : Timeline) (now : ℕ)
    → IsTimeline t
    → LatchedAt now t (latch (segment_at t now).discontinuity t)
unfolding latch
latch-LatchedAt t now v = latch_rounds-LatchedAt t.scheduled_len now _ t v refl refl

-- What `latch` leaves alone, and what bounds the discontinuity that it reaches.
pub record Kept (d : ℕ) (t u : Timeline) : Type 0 where
  pub valid : IsTimeline u
  pub session_kept : u.session ≡ t.session
  pub revision_kept : u.revision ≡ t.revision
  pub format_kept : u.format ≡ t.format
  pub not_back : t.discontinuity ≤ u.discontinuity
  pub at_most : (u.discontinuity ≤ d) ⊎ (u.discontinuity ≡ t.discontinuity)
  pub rest_later : (u.scheduled_len ≡ 0) ⊎ (d < (first_scheduled u).discontinuity)

latch_rounds-Kept :
    (n d : ℕ) (t : Timeline) → IsTimeline t → n ≡ t.scheduled_len → Kept d t (latch_rounds n d t)
unfolding latch_rounds
latch_rounds-Kept zero d t v e = record {
  valid = v;
  session_kept = refl;
  revision_kept = refl;
  format_kept = refl;
  not_back = omega arith;
  at_most = inr refl;
  rest_later = inl (sym e);
}
latch_rounds-Kept (suc n) d t v e =
    let left : 0 < t.scheduled_len = omega arith in
    let p = promote-IsPromoted t left (omega arith) in
    elim (dec_le (first_scheduled t).discontinuity d) [
      | yes taken ↦
          let rest =
            latch_rounds-Kept n d (promote t) (promote-IsTimeline t v left)
              (omega (arith, p.one_less)) in
          rw (lt→ltb 0 t.scheduled_len left, le→leb (first_scheduled t).discontinuity d taken)
            (record {
              valid = rest.valid;
              session_kept = rest.session_kept ∙ (unfold promote in refl);
              revision_kept = rest.revision_kept ∙ (unfold promote in refl);
              format_kept = rest.format_kept ∙ (unfold promote in refl);
              not_back =
                  omega
                    (arith, rest.not_back, promote_discontinuity t, (first-Ascending t v left).1);
              at_most = omega (arith, rest.at_most, promote_discontinuity t);
              rest_later = rest.rest_later;
            })
      | no not_taken ↦
          let kept : d < (first_scheduled t).discontinuity = omega arith in
          rw (lt→ltb 0 t.scheduled_len left, leb-eq-false (first_scheduled t).discontinuity d kept)
            (record {
              valid = v;
              session_kept = refl;
              revision_kept = refl;
              format_kept = refl;
              not_back = omega arith;
              at_most = inr refl;
              rest_later = inr kept;
            })
    ]

-- Latching a valid timeline at any discontinuity ends with no change at or below it left, never
-- goes back, never goes past that discontinuity by itself, and keeps the identity and the format.
pub latch-Kept : (t : Timeline) (d : ℕ) → IsTimeline t → Kept d t (latch d t)
unfolding latch
latch-Kept t d v = latch_rounds-Kept t.scheduled_len d t v refl
