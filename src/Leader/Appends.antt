-- ===== src/Leader/Appends.antt =====
-- A schedule with one more change at its end.
use ethersync.Base.{
  ℕ, zero, suc, ◌+◌, ◌≤◌, ◌<◌, max, ◌≡◌, refl, ap, List, [], ◌∷◌, ◌++◌, arith, length, get_or, take,
  ◌∙◌, if_elim, leb, if◌then◌else◌,
}
use ethersync.Base.Lists
use ethersync.Timeline.Defs.{Scheduled, default_scheduled, Segment, played, segment_from}
use ethersync.Timeline.Schedule.{
  IsAnchor, Ascending, segment_from-due, segment_from-later, segment_from-nil,
}
use ethersync.Leader.Changes.{last_reserved}

-- The time and the discontinuity that a schedule ends with, from those before it.
abbrev pub last_time : ℕ → List Scheduled → ℕ
last_time time [] = time
last_time time (s ∷ ss) = last_time s.anchor.time_ns ss

abbrev pub last_disc : ℕ → List Scheduled → ℕ
last_disc disc [] = disc
last_disc disc (s ∷ ss) = last_disc s.discontinuity ss

pub take-set_end :
    (xs : List Scheduled) (n : ℕ) (s : Scheduled)
    → n < length xs
    → take (n + 1) (Lists.set xs n s) ≡ take n xs ++ s ∷ []
take-set_end [] n s h = absurd (omega arith)
take-set_end (x ∷ xs) zero s h = refl
take-set_end (x ∷ xs) (suc n) s h =
    let e : suc n + 1 ≡ suc (n + 1) = omega arith in
    rw e (ap (◌∷◌ x) (take-set_end xs n s (omega arith)))

pub last_time-take :
    (time : ℕ) (xs : List Scheduled) (n : ℕ)
    → n < length xs
    → last_time time (take (suc n) xs) ≡ (get_or xs n default_scheduled).anchor.time_ns
last_time-take time [] n h = absurd (omega arith)
last_time-take time (x ∷ xs) zero h = refl
last_time-take time (x ∷ xs) (suc n) h = last_time-take x.anchor.time_ns xs n (omega arith)

pub last_disc-le :
    (disc : ℕ) (ss : List Scheduled) → last_disc disc ss ≤ max disc (last_reserved ss)
last_disc-le disc [] = omega arith
last_disc-le disc (s ∷ []) = omega arith
last_disc-le disc (s ∷ r ∷ ss) = last_disc_reserved s r ss
  where
    last_disc_reserved :
        (s r : Scheduled) (ss : List Scheduled)
        → last_disc s.discontinuity (r ∷ ss) ≤ max disc (last_reserved (r ∷ ss))
    last_disc_reserved s r [] = omega arith
    last_disc_reserved s r (q ∷ ss) = last_disc_reserved r q ss

pub last_reserved-append :
    (ss : List Scheduled) (s : Scheduled) → last_reserved (ss ++ s ∷ []) ≡ s.discontinuity
last_reserved-append [] s = refl
last_reserved-append (r ∷ []) s = refl
last_reserved-append (r ∷ q ∷ ss) s = last_reserved-append (q ∷ ss) s

pub Ascending-append :
    (time disc : ℕ) (ss : List Scheduled) (s : Scheduled)
    → Ascending time disc ss
    → last_time time ss < s.anchor.time_ns
    → last_disc disc ss < s.discontinuity
    → IsAnchor s.anchor
    → Ascending time disc (ss ++ s ∷ [])
Ascending-append time disc [] s h later above a = (later, above, a, tt)
Ascending-append time disc (r ∷ ss) s (b, c, d, e) later above a =
    (b, c, d, Ascending-append r.anchor.time_ns r.discontinuity ss s e later above a)

-- What is played before the last change, and from it on.
pub segment_from_before :
    (now : ℕ) (ss : List Scheduled) (s : Scheduled) (g : Segment)
    → now < s.anchor.time_ns
    → segment_from now g (ss ++ s ∷ []) ≡ segment_from now g ss
unfolding segment_from
segment_from_before now [] s g h = segment_from-later now g s [] h
segment_from_before now (r ∷ ss) s g h =
    segment_from_before now ss s (if leb r.anchor.time_ns now then played r else g) h

pub segment_from_after :
    (now : ℕ) (ss : List Scheduled) (s : Scheduled) (g : Segment)
    → s.anchor.time_ns ≤ now
    → segment_from now g (ss ++ s ∷ []) ≡ played s
unfolding segment_from
segment_from_after now [] s g h = segment_from-due now g s [] h ∙ segment_from-nil now (played s)
segment_from_after now (r ∷ ss) s g h =
    segment_from_after now ss s (if leb r.anchor.time_ns now then played r else g) h

-- Whatever holds of the base and of every change of a schedule holds of what is played.
pub segment_from-in :
    (time disc now : ℕ) (g : Segment) (ss : List Scheduled)
    → Ascending time disc ss
    → IsAnchor g.anchor
    → IsAnchor (segment_from now g ss).anchor
unfolding segment_from
segment_from-in time disc now g [] h a = a
segment_from-in time disc now g (s ∷ ss) (b, c, d, e) a =
    segment_from-in s.anchor.time_ns s.discontinuity now _ ss e
      (if_elim (λ (x : Segment). IsAnchor x.anchor) (leb s.anchor.time_ns now) (λ _. d) (λ _. a))

pub segment_from-le :
    (time disc now : ℕ) (g : Segment) (ss : List Scheduled)
    → Ascending time disc ss
    → g.discontinuity ≤ disc
    → (segment_from now g ss).discontinuity ≤ last_disc disc ss
unfolding segment_from
segment_from-le time disc now g [] h le = le
segment_from-le time disc now g (s ∷ ss) (b, c, d, e) le =
    segment_from-le s.anchor.time_ns s.discontinuity now _ ss e (
      if_elim (λ (x : Segment). x.discontinuity ≤ s.discontinuity) (leb s.anchor.time_ns now)
        (λ _. omega arith) (λ _. omega arith))
