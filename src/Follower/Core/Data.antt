-- ===== src/Follower/Core/Data.antt =====
-- protocol/src/timeline.rs: the data of `FollowerCore`, and the comparisons that it makes.
use ethersync.Base.{ℕ, Bool, true, false, not, ◌&&◌, Option, none, some, [], ◌∷◌, ◌==◌, bool_ne}
use ethersync.Base.Int.{ℤ}
use ethersync.Timecode.Defs.{FrameFormat}
use ethersync.Wire.Messages.{Bytes}
use ethersync.Clock.{ClockEstimator}
use ethersync.Follower.View.{View}

pub data Correction (F : Type 0) : Type 0 where
  slew : F → Correction F
  hard_resync : F → Correction F
  discontinuity : ℕ → Correction F
  new_session : Correction F

pub record CorrectionPolicy (F : Type 0) : Type 0 where
  pub settle_time_ns : ℕ
  pub slew_frames_per_second : F
  pub hard_threshold_frames : F
  pub confirmations : ℕ

pub record FollowerCore (F : Type 0) : Type 0 where
  pub view : View F
  pub estimator : ClockEstimator F
  pub policy : CorrectionPolicy F
  pub large : ℕ
  pub large_sign : ℤ
  pub ever_locked : Bool
  pub expected_session : Option Bytes
  pub reported_discontinuity : Option (Bytes × ℕ)

-- `==` on session IDs and on formats.
unfoldable pub eq_bytes : Bytes → Bytes → Bool
eq_bytes [] [] = true
eq_bytes [] (y ∷ ys) = false
eq_bytes (x ∷ xs) [] = false
eq_bytes (x ∷ xs) (y ∷ ys) = (x == y) && eq_bytes xs ys

unfoldable pub eq_format : FrameFormat → FrameFormat → Bool
eq_format f g =
    (f.numerator == g.numerator)
    && (f.denominator == g.denominator)
    && not (bool_ne f.drop_frame g.drop_frame)

-- `expected_session.is_some_and(|s| s != t.session)`
unfoldable pub other_session : Option Bytes → Bytes → Bool
unfolding eq_bytes
other_session none session = false
other_session (some s) session = not (eq_bytes s session)

abbrev pub is_some {ℓ} : {A : Type ℓ} → Option A → Bool
is_some none = false
is_some (some a) = true

-- `previous.is_some_and(|p| p.0 == key.0 && p.1 != key.1)`
unfoldable pub moved_on : Option (Bytes × ℕ) → Bytes → ℕ → Bool
unfolding eq_bytes
moved_on none session disc = false
moved_on (some (s, d)) session disc = eq_bytes s session && not (d == disc)
