-- ===== src/Tests/Samples.antt =====
-- Concrete timelines, messages and numbers for the tests.
use Prim.Native.Nat.{compare}
use ethersync.Base.{
  ℕ, zero, suc, ◌+◌, ◌*◌, ◌/◌, ◌^◌, refl, true, none, ◌∷◌, if◌then◌else◌, replicate, arith,
}
use ethersync.Base.Int.{
  ℤ, pos, negsuc, pos_part, neg_part, magnitude, neg_ℕ, ◌+ℤ◌, ◌-ℤ◌, ◌*ℤ◌, quot, ltb_ℤ, leb_ℤ, eqb_ℤ,
}
use ethersync.Base.Float.{Float}
use ethersync.Timecode.Defs.{FrameFormat, format, new_format, is_supported, drops_frames, Position}
use ethersync.Timecode.Motion.{normal, gcd, gcd_loop}
use ethersync.Timecode.Labels.{IsFormat}
use ethersync.Timecode.Positions.{IsPosition}
use ethersync.Timecode.Rates.{IsRate}
use ethersync.Timeline.Defs.{
  Timeline, Anchor, Scheduled, default_scheduled, SourceKind, SourceHealth,
}
use ethersync.Timeline.Schedule.{IsTimeline, IsAnchor}
use ethersync.Wire.Messages.{Bytes}

-- 30000/1001 with dropped labels.
abbrev pub ntsc : FrameFormat
ntsc = format 30000 1001 true

pub ntsc-IsFormat : IsFormat ntsc
unfolding new_format is_supported drops_frames
ntsc-IsFormat = refl

pub normal-IsRate : IsRate normal
unfolding gcd gcd_loop
normal-IsRate = record {
  den_pos = omega arith;
  den_le = omega arith;
  num_le = omega arith;
  at_most_64 = omega arith;
  lowest = refl;
}

abbrev pub frame_9 : Position
frame_9 = record { frames = pos 9; subframe = 5 }

pub frame_9-IsPosition : IsPosition frame_9
frame_9-IsPosition = record { frames_in = (omega arith, omega arith); subframe_in = omega arith }

abbrev pub start : Anchor
start = record { time_ns = 1_000_000_000; position = frame_9; rate = normal }

abbrev pub jump : Scheduled
jump = record {
  discontinuity = 8;
  anchor = record { time_ns = 2_000_000_000; position = frame_9; rate = normal };
}

-- A running timeline with one change to come.
abbrev pub running : Bytes → ℕ → Timeline
running session revision = record {
  session = session;
  session_id = none;
  revision = revision;
  discontinuity = 7;
  format = ntsc;
  anchor = start;
  source_kind = SourceKind.generated;
  source_health = SourceHealth.healthy;
  scheduled = jump ∷ replicate 3 default_scheduled;
  scheduled_len = 1;
}

abbrev pub ones : Bytes
ones = replicate 16 1

abbrev pub twos : Bytes
twos = replicate 16 2

start-IsAnchor : IsAnchor start
start-IsAnchor = record {
  time_in = omega arith;
  position_in = frame_9-IsPosition;
  rate_in = normal-IsRate;
}

jump-IsAnchor : IsAnchor jump.anchor
jump-IsAnchor = record {
  time_in = omega arith;
  position_in = frame_9-IsPosition;
  rate_in = normal-IsRate;
}

pub running-ones-IsTimeline : (revision : ℕ) → IsTimeline (running ones revision)
running-ones-IsTimeline revision = record {
  session_in = refl;
  session_id_in = tt;
  format_in = ntsc-IsFormat;
  anchor_in = start-IsAnchor;
  slots = refl;
  len_in = omega arith;
  ascending = (omega arith, omega arith, jump-IsAnchor, tt);
}

-- Numbers of four decimals in place of `f64`.
abbrev pub decimal : ℕ → ℕ → ℤ
decimal m k = pos (m * 10_000 / 10 ^ k)

abbrev times : ℤ → ℤ → ℤ
times a b = quot (a *ℤ b) 10_000

abbrev signed_quot : ℤ → ℤ → ℤ
signed_quot a (pos b) = quot (a *ℤ pos 10_000) b
signed_quot a (negsuc b) = pos 0 -ℤ quot (a *ℤ pos 10_000) (b + 1)

abbrev power : ℤ → ℕ → ℤ
power a zero = pos 10_000
power a (suc n) = times a (power a n)

instance abbrev pub decimal_float : Float ℤ
decimal_float = record {
  literal = decimal;
  infinity = pos (10 ^ 40);
  neg_infinity = neg_ℕ (10 ^ 40);
  sum_start = pos 0;
  of_ℕ = λ n. pos (n * 10_000);
  of_ℤ = λ z. z *ℤ pos 10_000;
  to_u64 = λ z. pos_part z / 10_000;
  to_i32 = λ z. quot z 10_000;
  to_i128 = λ z. quot z 10_000;
  add = ◌+ℤ◌;
  sub = ◌-ℤ◌;
  mul = times;
  div = signed_quot;
  neg = λ z. pos 0 -ℤ z;
  abs = λ z. pos (magnitude z);
  signum = λ z. if ltb_ℤ z (pos 0) then negsuc 9_999 else pos 10_000;
  round = λ z. quot z 10_000 *ℤ pos 10_000;
  powi = power;
  fmin = λ a b. if leb_ℤ a b then a else b;
  fmax = λ a b. if leb_ℤ a b then b else a;
  lt = ltb_ℤ;
  le = leb_ℤ;
  eq = eqb_ℤ;
  is_finite = λ z. true;
  total_cmp = λ a b. compare (pos_part a + neg_part b) (pos_part b + neg_part a);
}
