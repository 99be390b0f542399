-- ===== src/Native.antt =====
-- The errors of the native crate: native/src/lib.rs. `Io` carries the system's error, here a text.
pub mod Readers
pub mod Pins
pub mod Intervals
pub mod Options
pub mod Stops
pub mod Stopped
pub mod Discovery
pub mod Endpoints
pub mod Leaders
use ethersync.Base.{String, Result, ok, err}
use ethersync.Timecode.Defs.{Error}

pub data NativeError : Type 0 where
  invalid : String → NativeError
  shutdown queue_full reader_limit : NativeError
  protocol : Error → NativeError
  io transport discovery : String → NativeError

-- `?` on a result of the protocol crate: `#[from]`.
abbrev pub lift {ℓ} : {A : Type ℓ} → Result Error A → Result NativeError A
lift (ok a) = ok a
lift (err e) = err (NativeError.protocol e)
