-- ===== src/Clock/Admission/Line.antt =====
-- protocol/src/clock.rs: the offset and the drift of the fit, as those of a least-squares line.
use mathlib.Core.List.{foldl}
use ethersync.Base.{ℕ, ◌≡◌, refl, Bool, ◌&&◌, List, map, leb, if◌then◌else◌, length}
use ethersync.Base.Float.{Float, ◌⊖◌, ◌⊗◌, ◌⊘◌, ◌≼◌, ◌≺◌, literal, of_ℕ, clamp}
use ethersync.Clock.Defs.{Sample, ClockMapping}
use ethersync.Clock.Fit.{fit, sum, fold_min, select, fit_drift}

module _ {F : Type 0} ⦃fl : Float F⦄ where
  abbrev pub mean : (Sample F → F) → List (Sample F) → F
  mean f xs = sum f xs ⊘ of_ℕ (length xs)

  -- The time of a sample about the mean, over samples about an epoch.
  abbrev pub centred : F → List (Sample F) → Sample F → F
  centred epoch xs s = s.local ⊖ epoch ⊖ mean (λ r. r.local ⊖ epoch) xs

  abbrev pub variance : F → List (Sample F) → F
  variance epoch xs = sum (λ s. fl.powi (centred epoch xs s) 2) xs

  abbrev pub covariance : F → List (Sample F) → F
  covariance epoch xs = sum (λ s. centred epoch xs s ⊗ (s.offset ⊖ mean (λ r. r.offset) xs)) xs

  -- From the first to the last time of a sample.
  abbrev pub span : List (Sample F) → F
  span xs = foldl fl.fmax fl.neg_infinity (map (λ s. s.local) xs) ⊖ fold_min (λ s. s.local) xs

  -- Whether a slope is taken from the samples: eight, over two seconds, at different times.
  abbrev pub supports : F → List (Sample F) → Bool
  supports epoch xs =
      leb 8 (length xs) && (literal 2_000_000_000 0 ≼ span xs) && (literal 0 0 ≺ variance epoch xs)

  -- The line through some samples, about an epoch.
  pub record Regression (old epoch : F) (xs : List (Sample F)) (m : ClockMapping F) : Type 0 where
    pub reference : m.reference_ns ≡ fl.to_u64 epoch
    pub level : m.offset_ns ≡ mean (λ s. s.offset) xs ⊖ m.drift ⊗ mean (λ s. s.local ⊖ epoch) xs
    pub slope : m.drift ≡ (
        if supports epoch xs
        then clamp (fl.neg (literal 5 4)) (literal 5 4) (covariance epoch xs ⊘ variance epoch xs)
        else old)

  pub fit-Regression :
      (old epoch : F) (t4 n : ℕ) (newest : Sample F) (xs : List (Sample F))
      → Regression old epoch (select xs) (fit old epoch t4 n newest xs)
  unfolding fit fit_drift
  fit-Regression old epoch t4 n newest xs = record { reference = refl; level = refl; slope = refl }
