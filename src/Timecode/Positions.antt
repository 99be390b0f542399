-- ===== src/Timecode/Positions.antt =====
-- The fixed-point view of positions, and motion along a timeline.
use native.Mathlib.Nat.{zero-div, zero-mod}
use ethersync.Base.{ℕ, ◌-◌, ◌^◌, ◌<◌, ◌≡◌, ◌∙◌, arith}
use ethersync.Base.Int.{ℤ, pos, negsuc, ◌+ℤ◌, ◌*ℤ◌, ◌≤ℤ◌, clamp_ℤ, quot, InSigned, int_laws}
use ethersync.Base.Int.Products.{quot_split, quot_mono, *ℤ-pos_mono, pos-*ℤ}
use ethersync.Timecode.Defs.{FrameFormat, Position}
use ethersync.Timecode.Motion.{
  unit, fixed, fixed_min, fixed_max, from_fixed, saturating_add_i128, Rate, travel, scale, advance,
}

-- The values of the two fields that their types hold.
pub record IsPosition (p : Position) : Type 0 where
  pub frames_in : InSigned 63 p.frames
  pub subframe_in : p.subframe < unit

-- The fixed-point number of any position in range gives the position back.
pub from_fixed-fixed : (p : Position) → IsPosition p → from_fixed (fixed p) ≡ p
unfolding from_fixed fixed ◌+ℤ◌ ◌*ℤ◌
from_fixed-fixed p v = ground arith

-- A fixed-point number becomes a position in range whose number is the nearest that fits.
pub fixed-from_fixed : (v : ℤ) → fixed (from_fixed v) ≡ clamp_ℤ fixed_min fixed_max v
unfolding from_fixed fixed ◌+ℤ◌ ◌*ℤ◌
fixed-from_fixed v = ground arith

pub from_fixed-IsPosition : (v : ℤ) → IsPosition (from_fixed v)
unfolding from_fixed
from_fixed-IsPosition v = ground arith

clamp_clamp :
    (v : ℤ)
    → clamp_ℤ fixed_min fixed_max (clamp_ℤ (negsuc (2 ^ 127 - 1)) (pos (2 ^ 127 - 1)) v)
      ≡ clamp_ℤ fixed_min fixed_max v
clamp_clamp v = ground arith

-- The position in fixed point that exact rational motion, truncated once, would reach.
abbrev pub target : Position → ℤ → FrameFormat → Rate → ℤ
target p elapsed f r = fixed p +ℤ quot (travel elapsed f r *ℤ pos unit) (scale f r)

-- For a positive scale, `advance` moves by the exact rational distance truncated to 2^-32 frames,
-- and stops at the ends of the range of positions. Its two divisions and its two saturations
-- lose nothing more.
pub fixed-advance :
    (p : Position) (elapsed : ℤ) (f : FrameFormat) (r : Rate)
    → 0 < scale f r
    → fixed (advance p elapsed f r) ≡ clamp_ℤ fixed_min fixed_max (target p elapsed f r)
unfolding advance saturating_add_i128
fixed-advance p elapsed f r h = rw (quot_split (travel elapsed f r) (scale f r) unit h) (
    fixed-from_fixed (clamp_ℤ (negsuc (2 ^ 127 - 1)) (pos (2 ^ 127 - 1)) (target p elapsed f r))
    ∙ clamp_clamp (target p elapsed f r))

clamp_mono : (a b : ℤ) → a ≤ℤ b → clamp_ℤ fixed_min fixed_max a ≤ℤ clamp_ℤ fixed_min fixed_max b
clamp_mono a b h = ground arith

+ℤ_mono_right : (c a b : ℤ) → a ≤ℤ b → c +ℤ a ≤ℤ c +ℤ b
+ℤ_mono_right c a b h = omega int_laws

-- Playback at a rate that is not negative never moves back as time passes.
pub advance_mono :
    (p : Position) (e e' : ℤ) (f : FrameFormat) (n d : ℕ)
    → 0 < scale f (record { numerator = pos n; denominator = d })
    → e ≤ℤ e'
    → fixed (advance p e f (record { numerator = pos n; denominator = d }))
      ≤ℤ fixed (advance p e' f (record { numerator = pos n; denominator = d }))
advance_mono p e e' f n d h le =
    let r : Rate = record { numerator = pos n; denominator = d } in
    let a = e *ℤ pos f.numerator in
    let a' = e' *ℤ pos f.numerator in
    let far =
      *ℤ-pos_mono (a *ℤ pos n) (a' *ℤ pos n) unit
        (*ℤ-pos_mono a a' n (*ℤ-pos_mono e e' f.numerator le)) in
    let moved = quot_mono (a *ℤ pos n *ℤ pos unit) (a' *ℤ pos n *ℤ pos unit) (scale f r) far in
    rw (fixed-advance p e f r h, fixed-advance p e' f r h)
      (clamp_mono (target p e f r) (target p e' f r) (
        +ℤ_mono_right (fixed p) (quot (travel e f r *ℤ pos unit) (scale f r))
          (quot (travel e' f r *ℤ pos unit) (scale f r)) moved))

*ℤ-zero : (z : ℤ) → z *ℤ pos 0 ≡ pos 0
unfolding ◌*ℤ◌
*ℤ-zero z = ground arith

saturating_add-zero :
    (p : Position) → IsPosition p → saturating_add_i128 (fixed p) (pos 0 +ℤ pos 0) ≡ fixed p
unfolding saturating_add_i128 fixed ◌+ℤ◌ ◌*ℤ◌
saturating_add-zero p v = ground arith

-- A paused rate keeps any position in range where it is.
pub advance-paused :
    (p : Position) (elapsed : ℤ) (f : FrameFormat) (d : ℕ)
    → IsPosition p
    → advance p elapsed f (record { numerator = pos 0; denominator = d }) ≡ p
unfolding advance
advance-paused p elapsed f d v =
    rw
      (
        *ℤ-zero (elapsed *ℤ pos f.numerator),
        zero-div (scale f (record { numerator = pos 0; denominator = d })),
        zero-mod (scale f (record { numerator = pos 0; denominator = d })),
        pos-*ℤ 0 unit,
        zero-div (scale f (record { numerator = pos 0; denominator = d })),
        saturating_add-zero p v,
      )
      (from_fixed-fixed p v)
