-- ===== src/Timecode/Bounds.antt =====
-- `Position::advance` stays inside `i128`.
use native.Mathlib.Nat.{mul-le-mul, le_refl, mod-lt, div-le_of_le-mul}
use ethersync.Base.{◌*◌, ◌/◌, ◌^◌, ◌<◌, ◌≤◌, ◌≡◌, arith}
use ethersync.Base.Int.{ℤ, pos, negsuc, ◌+ℤ◌, ◌*ℤ◌, quot, rem, magnitude, InSigned}
use ethersync.Base.Int.Products.{quot_split, magnitude-*ℤ, magnitude-quot, magnitude-rem}
use ethersync.Timecode.Defs.{FrameFormat, new_format}
use ethersync.Timecode.Labels.{IsFormat}
use ethersync.Timecode.Motion.{unit, Rate, travel, scale}
use ethersync.Timecode.Rates.{IsRate}

-- An elapsed time in `i64`, an accepted format, a reduced rate.
pub record IsMove (elapsed : ℤ) (f : FrameFormat) (r : Rate) : Type 0 where
  pub elapsed_in : InSigned 63 elapsed
  pub format_in : IsFormat f
  pub rate_in : IsRate r

format_bounds :
    (f : FrameFormat)
    → IsFormat f
    → (f.numerator ≤ 60_000) × (1 ≤ f.denominator) × (f.denominator ≤ 1001)
unfolding new_format
format_bounds f h = ground arith

magnitude-le : (z : ℤ) → InSigned 63 z → magnitude z ≤ 2 ^ 63
magnitude-le (pos n) h = omega arith
magnitude-le (negsuc n) h = omega arith

module _ (elapsed : ℤ) (f : FrameFormat) (r : Rate) (v : IsMove elapsed f r) where
  scale-pos : 0 < scale f r
  scale-pos = omega (arith, mul-le-mul (format_bounds f v.format_in).1 v.rate_in.den_pos)

  times_format : magnitude elapsed * f.numerator ≤ 2 ^ 63 * 60_000
  times_format = mul-le-mul (magnitude-le elapsed v.elapsed_in) (format_bounds f v.format_in).0

  travel_lem :
      magnitude (travel elapsed f r) ≡ magnitude elapsed * f.numerator * magnitude r.numerator
  travel_lem = rw (
    magnitude-*ℤ (elapsed *ℤ pos f.numerator) r.numerator,
    magnitude-*ℤ elapsed (pos f.numerator),
  )

  travel-le : magnitude (travel elapsed f r) ≤ 2 ^ 63 * 60_000 * 1_000_000
  travel-le = omega (arith, travel_lem, mul-le-mul times_format v.rate_in.num_le)

  travel-le-scale : magnitude (travel elapsed f r) ≤ 2 ^ 63 * scale f r
  travel-le-scale = omega (
    arith,
    travel_lem,
    mul-le-mul times_format v.rate_in.at_most_64,
    mul-le-mul (format_bounds f v.format_in).1 (le_refl r.denominator),
  )

  scale-le : scale f r ≤ 1_000_000_000 * 1001 * 1_000_000
  scale-le = omega (arith, mul-le-mul (format_bounds f v.format_in).2 v.rate_in.den_le)

  whole-le : magnitude (quot (travel elapsed f r) (scale f r)) ≤ 2 ^ 63
  whole-le =
      rw (magnitude-quot (travel elapsed f r) (scale f r))
        (div-le_of_le-mul (scale f r) (omega (arith, travel-le-scale)))

  rest-lt : magnitude (rem (travel elapsed f r) (scale f r)) < scale f r
  rest-lt = rw (magnitude-rem (travel elapsed f r) (scale f r)) (mod-lt _ scale-pos)

  steps-le : magnitude (travel elapsed f r *ℤ pos unit) / scale f r ≤ 2 ^ 63 * unit
  steps-le =
      rw (magnitude-*ℤ (travel elapsed f r) (pos unit))
        (div-le_of_le-mul (scale f r) (omega (arith, travel-le-scale)))

-- Every intermediate value of `advance` fits `i128`.
pub record FitsI128 (elapsed : ℤ) (f : FrameFormat) (r : Rate) : Type 0 where
  pub first_product : InSigned 127 (elapsed *ℤ pos f.numerator)
  pub both_products : InSigned 127 (travel elapsed f r)
  pub divisor : scale f r < 2 ^ 127
  pub whole : InSigned 127 (quot (travel elapsed f r) (scale f r) *ℤ pos unit)
  pub rest : InSigned 127 (rem (travel elapsed f r) (scale f r) *ℤ pos unit)
  pub delta : InSigned 127 (
      quot (travel elapsed f r) (scale f r) *ℤ pos unit
      +ℤ quot (rem (travel elapsed f r) (scale f r) *ℤ pos unit) (scale f r))

InSigned-of_magnitude : (z : ℤ) → magnitude z < 2 ^ 127 → InSigned 127 z
InSigned-of_magnitude (pos n) h = omega arith
InSigned-of_magnitude (negsuc n) h = omega arith

-- For an elapsed time in `i64`, an accepted format and a reduced rate, no product, sum or cast of
-- `advance` overflows.
pub advance_fits :
    (elapsed : ℤ) (f : FrameFormat) (r : Rate) → IsMove elapsed f r → FitsI128 elapsed f r
advance_fits elapsed f r v = record {
  first_product =
      InSigned-of_magnitude _
        (rw (magnitude-*ℤ elapsed (pos f.numerator)) (omega (arith, times_format elapsed f r v)));
  both_products = InSigned-of_magnitude _ (omega (arith, travel-le elapsed f r v));
  divisor = omega (arith, scale-le elapsed f r v);
  whole = InSigned-of_magnitude _ (
      rw (magnitude-*ℤ (quot (travel elapsed f r) (scale f r)) (pos unit))
        (omega (arith, whole-le elapsed f r v)));
  rest = InSigned-of_magnitude _ (
      rw (magnitude-*ℤ (rem (travel elapsed f r) (scale f r)) (pos unit))
        (omega (arith, rest-lt elapsed f r v, scale-le elapsed f r v)));
  delta = rw (quot_split (travel elapsed f r) (scale f r) unit (scale-pos elapsed f r v)) (
      InSigned-of_magnitude _ (
        rw (magnitude-quot (travel elapsed f r *ℤ pos unit) (scale f r))
          (omega (arith, steps-le elapsed f r v))));
}
