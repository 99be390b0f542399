-- ===== src/Tests/Outputs.antt =====
-- Output times at concrete inputs.
use ethersync.Base.{ℕ, ◌+◌, ◌-◌, ◌*◌, ◌/◌, ◌<◌, ◌≡◌, ◌⊎◌, ok, err, arith}
use ethersync.Base.Int.{ℤ}
use ethersync.Timecode.Defs.{Error}
use ethersync.Wire.Validate.{i64_max}
use ethersync.Output.{OutputTime, ClockBridge, new_bridge, convert, sample_time}
use ethersync.Output.Times.{IsSampleTime, IsNear, sample_time_lem, convert-new_bridge}
use ethersync.Tests.Samples.{decimal_float}

abbrev hertz : ℕ
hertz = 48_000

-- The 480th sample at 48 kHz.
sample_time_lem_example :
    ((t : ℕ) × (sample_time 1_000 480 hertz ≡ ok t) × IsSampleTime 1_000 480 hertz t)
    ⊎ ((e : Error) × (sample_time 1_000 480 hertz ≡ err e)
        × ((hertz ≡ 0) ⊎ (i64_max < 1_000 + 480 * 1_000_000_000 / hertz)))
sample_time_lem_example = sample_time_lem 1_000 480 hertz

convert-new_bridge_example :
    (b : ClockBridge ℤ) × (new_bridge 100 5_000 140 ≡ ok b)
    × (((o : OutputTime ℤ) × (convert b (5_000 + 60) ≡ ok o) × IsNear (110 + 60) (140 - 100) o)
        ⊎ ((e : Error) × (convert b (5_000 + 60) ≡ err e) × (i64_max < 140 + 60)))
convert-new_bridge_example =
    convert-new_bridge 100 110 140 5_000 60 (omega arith) (omega arith) (omega arith)
