-- ===== src/Output.antt =====
-- protocol/src/output.rs: output times from another clock of the same rate, and sample times.
pub mod Times
use ethersync.Base.{
  ℕ, ◌+◌, ◌-◌, ◌*◌, ◌/◌, Bool, ◌||◌, ltb, ◌==◌, if◌then◌else◌, Result, ok, err, ◌>>=◌,
}
use ethersync.Base.Int.{ℤ, pos, pos_part, ◌+ℤ◌, ◌-ℤ◌, ltb_ℤ}
use ethersync.Base.Float.{Float, ◌⊕◌, ◌⊘◌, literal, of_ℕ}
use ethersync.Timecode.Defs.{Error, invalid}
use ethersync.Wire.Validate.{i64_max}
use ethersync.Clock.Defs.{u64_max}
use ethersync.Follower.View.{View, Reading, evaluate, presentation_time}

pub record OutputTime (F : Type 0) : Type 0 where
  pub local_ns : ℕ
  pub uncertainty_ns : F

pub record ClockBridge (F : Type 0) : Type 0 where
  pub offset_ns : ℤ
  pub uncertainty_ns : F

module _ {F : Type 0} ⦃fl : Float F⦄ where
  -- `ClockBridge::new`
  unfoldable pub new_bridge : ℕ → ℕ → ℕ → Result Error (ClockBridge F)
  new_bridge before external after =
      let span = after - before in
      if ltb after before || ltb i64_max after
      then err (invalid "clock bridge bracket")
      else ok (record {
        offset_ns = pos (before + span / 2) -ℤ pos external;
        uncertainty_ns = of_ℕ span ⊘ literal 2 0 ⊕ literal 1 0;
      })

  unfoldable pub convert : ClockBridge F → ℕ → Result Error (OutputTime F)
  convert b external =
      let local = pos external +ℤ b.offset_ns in
      if ltb_ℤ local (pos 0) || ltb_ℤ (pos i64_max) local
      then err (invalid "output timestamp outside engine clock range")
      else ok (record { local_ns = pos_part local; uncertainty_ns = b.uncertainty_ns })

-- A division by the rate, where it is not 0, as the source divides in 128 bits.
unfoldable pub sample_time : ℕ → ℕ → ℕ → Result Error ℕ
unfolding presentation_time
sample_time origin index rate =
    let delta = index * 1_000_000_000 / rate in
    if rate == 0
    then err (invalid "zero sample rate")
    else if ltb u64_max delta
    then err (invalid "sample timestamp overflow")
    else presentation_time origin delta

module _ {F : Type 0} ⦃fl : Float F⦄ where
  unfoldable pub evaluate_sample : View F → ℕ → ℕ → ℕ → Result Error (Reading F)
  unfolding sample_time evaluate
  evaluate_sample v origin index rate = do
    time ← sample_time origin index rate
    ok (evaluate v time)
