-- ===== src/Timecode/Motion.antt =====
-- protocol/src/timecode.rs: Q32 positions, rational rates and `Position::advance`.
use mathlib.Core.WellFounded.{Acc}
use ethersync.Base.{
  ℕ, zero, suc, ◌+◌, ◌-◌, ◌*◌, ◌/◌, ◌%◌, ◌^◌, ◌<◌, Bool, ◌||◌, arith, ltb, ◌==◌, if◌then◌else◌,
  Result, ok, err,
}
use ethersync.Base.Order.{acc}
use ethersync.Base.Int.{
  ℤ, pos, negsuc, ◌+ℤ◌, ◌*ℤ◌, clamp_ℤ, quot, rem, div_euclid, rem_euclid, magnitude,
}
use ethersync.Timecode.Defs.{Error, invalid, FrameFormat, Position}

-- Units of a frame in the fixed-point representation.
abbrev pub unit : ℕ
unit = 2 ^ 32

unfoldable pub fixed : Position → ℤ
fixed p = p.frames *ℤ pos unit +ℤ pos p.subframe

-- `(i64::MIN as i128) << 32` and `((i64::MAX as i128) << 32) + u32::MAX as i128`.
abbrev pub fixed_min : ℤ
fixed_min = negsuc (2 ^ 63 * unit - 1)

abbrev pub fixed_max : ℤ
fixed_max = pos ((2 ^ 63 - 1) * unit + (2 ^ 32 - 1))

-- The casts of the clamped value to `i64` and `u32` lose only what they are meant to: the shift
-- is in range, and the fraction is the low half.
unfoldable pub from_fixed : ℤ → Position
from_fixed value =
    let v = clamp_ℤ fixed_min fixed_max value in
    record { frames = div_euclid v unit; subframe = rem_euclid v unit }

-- `i128::saturating_add`
unfoldable pub saturating_add_i128 : ℤ → ℤ → ℤ
saturating_add_i128 a b = clamp_ℤ (negsuc (2 ^ 127 - 1)) (pos (2 ^ 127 - 1)) (a +ℤ b)

pub record Rate : Type 0 where
  pub numerator : ℤ
  pub denominator : ℕ

abbrev pub paused : Rate
paused = record { numerator = pos 0; denominator = 1 }

abbrev pub normal : Rate
normal = record { numerator = pos 1; denominator = 1 }

-- The loop of `Rate::new`: Euclid's algorithm, which ends as `b` falls.
pub mod-lt-suc : (a b : ℕ) → a % suc b < suc b
mod-lt-suc a b = omega arith

unfoldable pub gcd_loop : (a b : ℕ) → Acc ◌<◌ b → ℕ
gcd_loop a zero w = a
gcd_loop a (suc b) (Acc.intro _ smaller) =
    gcd_loop (suc b) (a % suc b) (smaller (a % suc b) (mod-lt-suc a b))

unfoldable pub gcd : ℕ → ℕ → ℕ
unfolding gcd_loop acc
gcd a b = gcd_loop a b (acc b)

unfoldable pub bad_rate : ℤ → ℕ → Bool
bad_rate n d =
    (d == 0) || ltb 1_000_000 d || ltb 1_000_000 (magnitude n) || ltb (d * 64) (magnitude n)

-- `Rate::new`
unfoldable pub new_rate : ℤ → ℕ → Result Error Rate
unfolding bad_rate
new_rate n d =
    let a = gcd (magnitude n) d in
    if bad_rate n d
    then err (invalid "rate (maximum magnitude 64)")
    else ok (record { numerator = quot n a; denominator = d / a })

-- The two products of `advance`.
abbrev pub travel : ℤ → FrameFormat → Rate → ℤ
travel elapsed f r = elapsed *ℤ pos f.numerator *ℤ r.numerator

abbrev pub scale : FrameFormat → Rate → ℕ
scale f r = 1_000_000_000 * f.denominator * r.denominator

unfoldable pub advance : Position → ℤ → FrameFormat → Rate → Position
advance p elapsed f r =
    let num = travel elapsed f r in
    let den = scale f r in
    let delta = quot num den *ℤ pos unit +ℤ quot (rem num den *ℤ pos unit) den in
    from_fixed (saturating_add_i128 (fixed p) delta)
