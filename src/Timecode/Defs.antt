-- ===== src/Timecode/Defs.antt =====
-- protocol/src/timecode.rs: formats, labels, positions and rates, as the code computes them.
-- Values of `u8`, `u32` and `u64` are numbers, of `i32`, `i64` and `i128` integers; a cast to a
-- narrower type is written out.
use ethersync.Base.{
  ℕ, ◌+◌, ◌-◌, ◌*◌, ◌/◌, ◌%◌, String, Bool, false, not, ◌&&◌, ◌||◌, ltb, leb, ◌==◌, if◌then◌else◌,
  Result, ok, err,
}
use ethersync.Base.Int.{ℤ, pos, ◌-ℤ◌, rem_euclid}

-- `Error` of protocol/src/lib.rs. The cause inside `Decode` is the wire library's. `panicked` is
-- no value of the Rust type: it stands for an `unwrap` that fails.
pub data Error : Type 0 where
  invalid : String → Error
  version : ℕ → Error
  size : Error
  decode : Error
  panicked : Error

pub record FrameFormat : Type 0 where
  pub numerator : ℕ
  pub denominator : ℕ
  pub drop_frame : Bool

abbrev pub format : ℕ → ℕ → Bool → FrameFormat
format n d drop = record { numerator = n; denominator = d; drop_frame = drop }

abbrev pub is_ratio : ℕ → ℕ → ℕ → ℕ → Bool
is_ratio n d n' d' = (n == n') && (d == d')

-- The two tables of `FrameFormat::new`.
unfoldable pub is_supported : ℕ → ℕ → Bool
is_supported n d =
    is_ratio n d 24000 1001
    || is_ratio n d 24 1
    || is_ratio n d 25 1
    || is_ratio n d 30000 1001
    || is_ratio n d 30 1
    || is_ratio n d 48000 1001
    || is_ratio n d 48 1
    || is_ratio n d 50 1
    || is_ratio n d 60000 1001
    || is_ratio n d 60 1

unfoldable pub drops_frames : ℕ → ℕ → Bool
drops_frames n d = is_ratio n d 30000 1001 || is_ratio n d 60000 1001

unfoldable pub new_format : ℕ → ℕ → Bool → Result Error FrameFormat
unfolding is_supported drops_frames
new_format n d drop =
    if not (is_supported n d) || (drop && not (drops_frames n d))
    then err (invalid "frame format")
    else ok (format n d drop)

-- `FrameFormat::default`
abbrev pub default_format : FrameFormat
default_format = format 30 1 false

-- `u32::div_ceil`
unfoldable pub nominal : FrameFormat → ℕ
nominal f =
    if ltb 0 (f.numerator % f.denominator)
    then f.numerator / f.denominator + 1
    else f.numerator / f.denominator

-- The dropped part never exceeds the rest, so the difference of numbers is the one of `i64`.
unfoldable pub frames_per_day : FrameFormat → ℕ
unfolding nominal
frames_per_day f = 86400 * nominal f - (if f.drop_frame then nominal f / 15 * 1296 else 0)

pub record Label : Type 0 where
  pub hours : ℕ
  pub minutes : ℕ
  pub seconds : ℕ
  pub frames : ℕ
  pub drop_frame : Bool

-- The drop-frame branch of `label`: the frame number as if no label were skipped.
unfoldable pub undrop : ℕ → ℕ → ℕ
undrop n frame =
    let d = n / 15 in
    let ten = n * 600 - d * 9 in
    let rest = frame % ten in
    frame + (d * 9 * (frame / ten) + (if leb d rest then d * ((rest - d) / (n * 60 - d)) else 0))

-- The literal at the end of `label`, with its casts to `u8`.
unfoldable pub split_label : ℕ → Bool → ℕ → Label
split_label n drop frame = record {
  hours = frame / (n * 3600) % 256;
  minutes = frame / (n * 60) % 60 % 256;
  seconds = frame / n % 60 % 256;
  frames = frame % n % 256;
  drop_frame = drop;
}

-- Signed unwrapped frames (`i64`) with a `u32` fraction.
pub record Position : Type 0 where
  pub frames : ℤ
  pub subframe : ℕ

abbrev pub from_frames : ℤ → Position
from_frames z = record { frames = z; subframe = 0 }

unfoldable pub label : FrameFormat → Position → Label
unfolding frames_per_day undrop split_label
label f p =
    let n = nominal f in
    let frame = rem_euclid p.frames (frames_per_day f) in
    split_label n f.drop_frame (if f.drop_frame then undrop n frame else frame)

-- `position`; the refusals of labels that do not exist.
unfoldable pub no_label : ℕ → ℕ → ℕ → ℕ → ℕ → ℕ → Bool
no_label n d hours minutes seconds frames =
    leb 24 hours
    || leb 60 minutes
    || leb 60 seconds
    || leb n frames
    || (not (minutes % 10 == 0) && (seconds == 0) && ltb frames d)

unfoldable pub position : FrameFormat → ℕ → ℕ → ℕ → ℕ → Result Error Position
unfolding nominal no_label
position f hours minutes seconds frames =
    let n = nominal f in
    let d = if f.drop_frame then n / 15 else 0 in
    let mins = hours * 60 + minutes in
    if no_label n d hours minutes seconds frames
    then err (invalid "timecode label")
    else ok (from_frames (pos ((mins * 60 + seconds) * n + frames) -ℤ pos (d * (mins - mins / 10))))
