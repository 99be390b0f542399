-- ===== src/Tests/Frames.antt =====
-- Formats, labels, rates and motion at concrete inputs.
use ethersync.Base.{◌≡◌, refl, true, ok, arith}
use ethersync.Base.Int.{pos, negsuc, ◌-ℤ◌, ◌*ℤ◌, ◌≤ℤ◌, clamp_ℤ, rem_euclid}
use ethersync.Timecode.Defs.{
  from_frames, label, position, frames_per_day, nominal, undrop, split_label, no_label,
}
use ethersync.Timecode.Motion.{
  normal, fixed, fixed_min, fixed_max, from_fixed, advance, new_rate, bad_rate, gcd, gcd_loop,
}
use ethersync.Timecode.Labels.{position-label, label-position}
use ethersync.Timecode.Rates.{IsRate, new_rate-IsRate, new_rate-of_IsRate}
use ethersync.Timecode.Positions.{
  from_fixed-fixed, fixed-from_fixed, target, fixed-advance, advance_mono, advance-paused,
}
use ethersync.Timecode.Bounds.{FitsI128, advance_fits}
use ethersync.Tests.Samples.{ntsc, ntsc-IsFormat, frame_9, frame_9-IsPosition, normal-IsRate}

-- The first frame of the second minute is numbered 2, since 0 and 1 are dropped.
minute_1 :
    label ntsc (from_frames (pos 1800))
    ≡ record { hours = 0; minutes = 1; seconds = 0; frames = 2; drop_frame = true }
unfolding label split_label undrop frames_per_day nominal
minute_1 = refl

minute_1_reads : position ntsc 0 1 0 2 ≡ ok (from_frames (pos 1800))
unfolding position no_label frames_per_day nominal ◌-ℤ◌
minute_1_reads = refl

position-label_example :
    position ntsc
      (label ntsc (from_frames (negsuc 0))).hours
      (label ntsc (from_frames (negsuc 0))).minutes
      (label ntsc (from_frames (negsuc 0))).seconds
      (label ntsc (from_frames (negsuc 0))).frames
    ≡ ok (from_frames (pos (rem_euclid (negsuc 0) (frames_per_day ntsc))))
position-label_example = position-label ntsc (from_frames (negsuc 0)) ntsc-IsFormat

label-position_example :
    label ntsc (from_frames (pos 1800))
    ≡ record { hours = 0; minutes = 1; seconds = 0; frames = 2; drop_frame = true }
label-position_example =
    label-position ntsc 0 1 0 2 (from_frames (pos 1800)) ntsc-IsFormat minute_1_reads

half_speed : new_rate (pos 15) 30 ≡ ok (record { numerator = pos 1; denominator = 2 })
unfolding new_rate bad_rate gcd gcd_loop
half_speed = refl

half_reduced :
    IsRate (record { numerator = pos 1; denominator = 2 }) × (pos 1 *ℤ pos 30 ≡ pos 15 *ℤ pos 2)
half_reduced =
    new_rate-IsRate (pos 15) 30 (record { numerator = pos 1; denominator = 2 }) half_speed

new_rate-of_IsRate_test : new_rate (pos 1) 1 ≡ ok normal
new_rate-of_IsRate_test = new_rate-of_IsRate normal normal-IsRate

from_fixed-fixed_test : from_fixed (fixed frame_9) ≡ frame_9
from_fixed-fixed_test = from_fixed-fixed frame_9 frame_9-IsPosition

negative_frame_fixed :
    fixed (from_fixed (negsuc 4_294_967_296)) ≡ clamp_ℤ fixed_min fixed_max (negsuc 4_294_967_296)
negative_frame_fixed = fixed-from_fixed (negsuc 4_294_967_296)

fixed-advance_example :
    fixed (advance frame_9 (negsuc 999_999_999) ntsc normal)
    ≡ clamp_ℤ fixed_min fixed_max (target frame_9 (negsuc 999_999_999) ntsc normal)
fixed-advance_example = fixed-advance frame_9 (negsuc 999_999_999) ntsc normal (omega arith)

advance_mono_test :
    fixed (advance frame_9 (pos 0) ntsc normal)
    ≤ℤ fixed (advance frame_9 (pos 1_000_000_000) ntsc normal)
advance_mono_test =
    advance_mono frame_9 (pos 0) (pos 1_000_000_000) ntsc 1 1 (omega arith) (omega arith)

frame_9_stays :
    advance frame_9 (pos 1_000_000_000) ntsc (record { numerator = pos 0; denominator = 1 })
    ≡ frame_9
frame_9_stays = advance-paused frame_9 (pos 1_000_000_000) ntsc 1 frame_9-IsPosition

advance_fits_test : FitsI128 (negsuc 999_999_999) ntsc normal
advance_fits_test = advance_fits (negsuc 999_999_999) ntsc normal (record {
  elapsed_in = (omega arith, omega arith);
  format_in = ntsc-IsFormat;
  rate_in = normal-IsRate;
})
