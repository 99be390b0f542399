-- ===== src/Timeline/Promote.antt =====
-- Taking over the first scheduled change: `promote`, the body of the loop of `latch`.
use native.Mathlib.Decide.{dec_lt}
use ethersync.Base.{
  ℕ, zero, suc, ◌+◌, ◌-◌, ◌≤◌, ◌<◌, ◌≡◌, refl, sym, ap, ◌⊎◌, inl, inr, List, [], ◌∷◌, ◌++◌, arith,
  length, length-append, get_or, take, ◌∙◌,
}
use ethersync.Timeline.Schedule.{
  Ascending, IsTimeline, segment_from-due, segment_from-later, segment_from-early, segment_from-nil,
}
use ethersync.Timeline.Defs.{
  Scheduled, Timeline, played, default_scheduled, pending, base_segment, segment_at, rotate_left,
  first_scheduled, promote,
}

take-append : (n : ℕ) (xs ys : List Scheduled) → n ≤ length xs → take n (xs ++ ys) ≡ take n xs
take-append zero xs ys h = refl
take-append (suc n) [] ys h = absurd (omega arith)
take-append (suc n) (x ∷ xs) ys h = ap (◌∷◌ x) (take-append n xs ys (omega arith))

take_rotate :
    (n : ℕ) (xs : List Scheduled)
    → 0 < n
    → n ≤ length xs
    → take n xs ≡ get_or xs 0 default_scheduled ∷ take (n - 1) (rotate_left xs)
take_rotate zero xs h le = absurd (omega arith)
take_rotate (suc n) [] h le = absurd (omega arith)
take_rotate (suc n) (x ∷ xs) h le =
    let e : suc n - 1 ≡ n = omega arith in
    rw e (ap (◌∷◌ x) (sym (take-append n xs (x ∷ []) (omega arith))))

length-rotate_left : (xs : List Scheduled) → length (rotate_left xs) ≡ length xs
length-rotate_left [] = refl
length-rotate_left (x ∷ xs) = omega (arith, length-append xs (x ∷ []))

-- Promotion takes the first change off the schedule and makes it what is played from then on.
pub record IsPromoted (t u : Timeline) : Type 0 where
  pub taken : pending t ≡ first_scheduled t ∷ pending u
  pub slots_kept : length u.scheduled ≡ length t.scheduled
  pub one_less : u.scheduled_len + 1 ≡ t.scheduled_len
  pub now_base : base_segment u ≡ played (first_scheduled t)

pub promote-IsPromoted :
    (t : Timeline)
    → 0 < t.scheduled_len
    → t.scheduled_len ≤ length t.scheduled
    → IsPromoted t (promote t)
unfolding promote
promote-IsPromoted t h le = record {
  taken = take_rotate t.scheduled_len t.scheduled h le;
  slots_kept = length-rotate_left t.scheduled;
  one_less = omega arith;
  now_base = refl;
}

pub first-Ascending :
    (t : Timeline)
    → IsTimeline t
    → 0 < t.scheduled_len
    → Ascending t.anchor.time_ns t.discontinuity (first_scheduled t ∷ pending (promote t))
first-Ascending t v h = rw (promote-IsPromoted t h (omega arith)).taken at v.ascending

pub promote_anchor : (t : Timeline) → (promote t).anchor ≡ (first_scheduled t).anchor
unfolding promote
promote_anchor t = refl

pub promote_discontinuity :
    (t : Timeline) → (promote t).discontinuity ≡ (first_scheduled t).discontinuity
unfolding promote
promote_discontinuity t = refl

-- Promotion keeps a timeline valid.
pub promote-IsTimeline :
    (t : Timeline) → IsTimeline t → 0 < t.scheduled_len → IsTimeline (promote t)
promote-IsTimeline t v h = record {
  session_in = unfold promote in v.session_in;
  session_id_in = unfold promote in v.session_id_in;
  format_in = unfold promote in v.format_in;
  anchor_in = unfold promote in (first-Ascending t v h).2;
  slots = (promote-IsPromoted t h (omega arith)).slots_kept ∙ v.slots;
  len_in = omega (arith, (promote-IsPromoted t h (omega arith)).one_less);
  ascending = rw (promote_anchor t, promote_discontinuity t) (first-Ascending t v h).3;
}

pub segment_at-promote :
    (t : Timeline) (now : ℕ)
    → IsTimeline t
    → 0 < t.scheduled_len
    → (first_scheduled t).anchor.time_ns ≤ now
    → segment_at (promote t) now ≡ segment_at t now
unfolding segment_at
segment_at-promote t now v h due =
    let p = promote-IsPromoted t h (omega arith) in
    rw (p.taken, p.now_base)
      (sym (segment_from-due now (base_segment t) (first_scheduled t) (pending (promote t)) due))

-- Before the first change the base is played.
pub segment_at-base :
    (t : Timeline) (now : ℕ)
    → IsTimeline t
    → (t.scheduled_len ≡ 0) ⊎ (now < (first_scheduled t).anchor.time_ns)
    → segment_at t now ≡ base_segment t
unfolding segment_at
segment_at-base t now v (inl none_left) = rw none_left (segment_from-nil now (base_segment t))
segment_at-base t now v (inr later) = elim (dec_lt 0 t.scheduled_len) [
  | no none_left ↦
      (let z : t.scheduled_len ≡ 0 = omega arith in rw z (segment_from-nil now (base_segment t)))
  | yes h ↦
      let s = first_scheduled t in
      rw (promote-IsPromoted t h (omega arith)).taken (
        segment_from-later now (base_segment t) s (pending (promote t)) later
        ∙ segment_from-early s.anchor.time_ns s.discontinuity now (base_segment t)
            (pending (promote t)) (first-Ascending t v h).3 (omega arith))
]
