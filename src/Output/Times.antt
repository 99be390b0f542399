-- ===== src/Output/Times.antt =====
-- The times that protocol/src/output.rs computes.
use native.Mathlib.Nat.{lt-div-mul-add, div-mul-le_self}
use ethersync.Base.{
  ℕ, ◌+◌, ◌-◌, ◌*◌, ◌/◌, ◌≤◌, ◌<◌, ◌≡◌, ◌⊎◌, refl, ap, inl, inr, ◌||◌, ltb, ◌==◌, if_elim, Result,
  ok, err, arith, ltb-eq-false,
}
use ethersync.Base.Int.{pos, ◌+ℤ◌, ◌-ℤ◌, ltb_ℤ}
use ethersync.Base.Float.{Float, ◌⊕◌, ◌⊘◌, literal, of_ℕ}
use ethersync.Timecode.Defs.{Error}
use ethersync.Wire.Validate.{i64_max}
use ethersync.Clock.Defs.{u64_max}
use ethersync.Follower.View.{presentation_time}
use ethersync.Output.{OutputTime, ClockBridge, new_bridge, convert, sample_time}

-- `t` is the time of a sample, in the clock's range: `t - origin` nanoseconds is the index over the
-- rate in seconds, rounded down.
pub record IsSampleTime (origin index rate t : ℕ) : Type 0 where
  pub in_range : t ≤ i64_max
  pub after_origin : origin ≤ t
  pub not_late : (t - origin) * rate ≤ index * 1_000_000_000
  pub not_early : index * 1_000_000_000 < (t - origin) * rate + rate

-- A sample time is the exact time of the sample since the origin rounded down to a nanosecond,
-- however large its index, and there is an error exactly where the rate is 0 or that time is past
-- the clock's range.
pub sample_time_lem :
    (origin index rate : ℕ)
    → ((t : ℕ) × (sample_time origin index rate ≡ ok t) × IsSampleTime origin index rate t)
      ⊎ ((e : Error) × (sample_time origin index rate ≡ err e)
          × ((rate ≡ 0) ⊎ (i64_max < origin + index * 1_000_000_000 / rate)))
unfolding sample_time presentation_time
sample_time_lem origin index rate =
    let d = index * 1_000_000_000 / rate in
    let P : Result Error ℕ → Type 0 = λ r.
      ((t : ℕ) × (r ≡ ok t) × IsSampleTime origin index rate t)
      ⊎ ((e : Error) × (r ≡ err e) × ((rate ≡ 0) ⊎ (i64_max < origin + d))) in
    if_elim P (rate == 0) (λ z. inr (_, refl, inl (ground arith)))
      (λ nz.
        if_elim P (ltb u64_max d) (λ big. inr (_, refl, inr (ground arith)))
          (λ small.
            if_elim P (ltb u64_max (origin + d) || ltb i64_max (origin + d))
              (λ out. inr (_, refl, inr (ground arith)))
              (λ fits.
                let some_rate : 0 < rate = ground arith in
                let since : origin + d - origin ≡ d = omega arith in
                inl (
                  origin + d,
                  refl,
                  record {
                    in_range = ground arith;
                    after_origin = omega arith;
                    not_late = omega (
                      arith,
                      div-mul-le_self (index * 1_000_000_000) rate,
                      ap (λ (t : ℕ). t * rate) since,
                    );
                    not_early = omega (
                      arith,
                      lt-div-mul-add {a = index * 1_000_000_000} {b = rate} some_rate,
                      ap (λ (t : ℕ). t * rate) since,
                    );
                  },
                ))))

-- An external time, moved by the offset of a bridge.
shifted : (mid external d : ℕ) → pos (external + d) +ℤ (pos mid -ℤ pos external) ≡ pos (mid + d)
unfolding ◌+ℤ◌ ◌-ℤ◌
shifted mid external d = ground arith

module _ {F : Type 0} ⦃fl : Float F⦄ where
  -- `o` is as near to the time `true_time` as a bracket of `span` nanoseconds allows.
  pub record IsNear (true_time span : ℕ) (o : OutputTime F) : Type 0 where
    pub not_late : o.local_ns * 2 ≤ true_time * 2 + span
    pub not_early : true_time * 2 ≤ o.local_ns * 2 + span + 1
    pub in_range : o.local_ns ≤ i64_max

  -- Where another clock of the same rate showed `external` at some time `x` of the bracket, the
  -- bridge converts what that clock shows `d` later to a time within half the bracket of `x + d`,
  -- or returns an error, and that only where `after + d` is past the clock's range.
  pub convert-new_bridge :
      (before x after external d : ℕ)
      → before ≤ x
      → x ≤ after
      → after ≤ i64_max
      → (b : ClockBridge F) × (new_bridge before external after ≡ ok b)
        × (((o : OutputTime F) × (convert b (external + d) ≡ ok o)
              × IsNear (x + d) (after - before) o)
            ⊎ ((e : Error) × (convert b (external + d) ≡ err e) × (i64_max < after + d)))
  unfolding new_bridge convert
  convert-new_bridge before x after external d h1 h2 h3 =
      let mid = before + (after - before) / 2 in
      let P : Result Error (OutputTime F) → Type 0 = λ r.
        ((o : OutputTime F) × (r ≡ ok o) × IsNear (x + d) (after - before) o)
        ⊎ ((e : Error) × (r ≡ err e) × (i64_max < after + d)) in
      let span = after - before in
      let b : ClockBridge F = record {
        offset_ns = pos mid -ℤ pos external;
        uncertainty_ns = of_ℕ span ⊘ literal 2 0 ⊕ literal 1 0;
      } in
      (
        b,
        rw (ltb-eq-false after before (omega arith), ltb-eq-false i64_max after h3) refl,
        rw (shifted mid external d) (
            if_elim P (ltb_ℤ (pos (mid + d)) (pos 0) || ltb_ℤ (pos i64_max) (pos (mid + d)))
              (λ out. inr (_, refl, ground arith))
              (λ fits. inl (
                _,
                refl,
                record { not_late = omega arith; not_early = omega arith; in_range = ground arith },
              ))),
      )
