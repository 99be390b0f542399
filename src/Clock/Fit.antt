-- ===== src/Clock/Fit.antt =====
-- protocol/src/clock.rs, `observe_inner` from the selection of samples on: the regression over the
-- samples of low delay, and the evidence over all of them.
use Prim.Native.Nat.{Ordering}
use mathlib.Core.List.{foldl}
use ethersync.Base.{
  ℕ, ◌/◌, min, max, ◌&&◌, some, List, [], ◌∷◌, map, leb, if◌then◌else◌, length, take,
}
use ethersync.Base.Float.{Float, ◌⊕◌, ◌⊖◌, ◌⊗◌, ◌⊘◌, ◌≼◌, ◌≺◌, literal, of_ℕ, abs, clamp}
use ethersync.Clock.Defs.{Sample, OffsetEvidence, ClockMapping, holdover_growth}

module _ {F : Type 0} ⦃fl : Float F⦄ where
  -- The closure of `sort_by`: by delay, and among equal delays the later sample first.
  unfoldable pub compare_samples : Sample F → Sample F → Ordering
  compare_samples a b = elim (fl.total_cmp a.delay b.delay) [
    | Ordering.eq ↦ fl.total_cmp b.local a.local
    | Ordering.lt ↦ Ordering.lt
    | Ordering.gt ↦ Ordering.gt
  ]

  -- `sort_by` is a stable sort: a new element goes behind those that are not greater.
  unfoldable pub insert_sample : Sample F → List (Sample F) → List (Sample F)
  unfolding compare_samples
  insert_sample s [] = s ∷ []
  insert_sample s (x ∷ xs) = elim (compare_samples x s) [
    | Ordering.gt ↦ s ∷ x ∷ xs
    | Ordering.lt ↦ x ∷ insert_sample s xs
    | Ordering.eq ↦ x ∷ insert_sample s xs
  ]

  unfoldable pub sort_samples : List (Sample F) → List (Sample F) → List (Sample F)
  unfolding insert_sample
  sort_samples sorted [] = sorted
  sort_samples sorted (x ∷ xs) = sort_samples (insert_sample x sorted) xs

  unfoldable pub select : List (Sample F) → List (Sample F)
  unfolding sort_samples
  select samples =
      take (min (max (length samples / 2) 4) (length samples)) (sort_samples [] samples)

  abbrev pub sum : (Sample F → F) → List (Sample F) → F
  sum f xs = foldl ◌⊕◌ fl.sum_start (map f xs)

  abbrev pub fold_min : (Sample F → F) → List (Sample F) → F
  fold_min f xs = foldl fl.fmin fl.infinity (map f xs)

  -- The first and the last element, with a value for an empty list, where `unwrap` would panic.
  abbrev pub front_or : Sample F → List (Sample F) → Sample F
  front_or d [] = d
  front_or d (x ∷ xs) = x

  abbrev pub back_or : Sample F → List (Sample F) → Sample F
  back_or d [] = d
  back_or d (x ∷ xs) = back_or x xs

  -- The drift of the fit, or the old one where the selection spans too little.
  unfoldable pub fit_drift : F → F → List (Sample F) → F → F
  fit_drift old local selected y =
      let count = of_ℕ (length selected) in
      let x = sum (λ s. s.local ⊖ local) selected ⊘ count in
      let xx = sum (λ s. fl.powi (s.local ⊖ local ⊖ x) 2) selected in
      let xy = sum (λ s. (s.local ⊖ local ⊖ x) ⊗ (s.offset ⊖ y)) selected in
      let support_start = fold_min (λ s. s.local) selected in
      let support_end = foldl fl.fmax fl.neg_infinity (map (λ s. s.local) selected) in
      if leb 8 (length selected)
        && (literal 2_000_000_000 0 ≼ support_end ⊖ support_start)
        && (literal 0 0 ≺ xx)
      then clamp (fl.neg (literal 5 4)) (literal 5 4) (xy ⊘ xx)
      else old

  -- The interval of each sample, propagated to the receipt `t4`.
  unfoldable pub radius : ℕ → Sample F → F
  radius t4 s =
      s.delay ⊘ literal 2 0
      ⊕ literal 5 4 ⊗ (abs (of_ℕ t4 ⊖ s.local) ⊕ s.duration ⊘ literal 2 0)
      ⊕ literal 100_000 0

  unfoldable pub gather : ℕ → List (Sample F) → OffsetEvidence F
  unfolding radius
  gather t4 samples = record {
    reference_ns = t4;
    lower_ns = foldl fl.fmax fl.neg_infinity (map (λ s. s.offset ⊖ radius t4 s) samples);
    upper_ns = foldl fl.fmin fl.infinity (map (λ s. s.offset ⊕ radius t4 s) samples);
    samples = length samples;
  }

  -- The new mapping from the retained samples, the newest among them, at its epoch and receipt.
  unfoldable pub fit : F → F → ℕ → ℕ → Sample F → List (Sample F) → ClockMapping F
  unfolding select fit_drift gather
  fit old local t4 accepted newest samples =
      let selected = select samples in
      let count = of_ℕ (length selected) in
      let x = sum (λ s. s.local ⊖ local) selected ⊘ count in
      let y = sum (λ s. s.offset) selected ⊘ count in
      let span = (back_or newest samples).local ⊖ (front_or newest samples).local in
      let drift = fit_drift old local selected y in
      let offset = y ⊖ drift ⊗ x in
      let residual =
        foldl fl.fmax (literal 0 0)
          (map (λ s. abs (s.offset ⊖ (offset ⊕ drift ⊗ (s.local ⊖ local)))) selected) in
      let bound =
        fold_min
          (λ s. s.delay ⊘ literal 2 0 ⊕ fl.fmax (of_ℕ t4 ⊖ s.local) (literal 0 0) ⊗ holdover_growth)
          selected in
      record {
        reference_ns = fl.to_u64 local;
        offset_ns = offset;
        drift = drift;
        uncertainty_ns = bound ⊕ residual ⊕ literal 100_000 0;
        last_sample_ns = t4;
        converged = leb 12 (length samples) && (literal 500_000_000 0 ≼ span);
        accepted_observations = accepted;
        evidence = some (gather t4 samples);
      }
