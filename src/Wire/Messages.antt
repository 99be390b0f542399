-- ===== src/Wire/Messages.antt =====
-- The wire messages as protocol/proto/tidkod/v1 declares them. A message inside another is
-- optional, an enumeration is an `i32`, `bytes` is a list of numbers below 256.
use ethersync.Base.{ℕ, Bool, Option, List}
use ethersync.Base.Int.{ℤ}

abbrev pub Bytes : Type 0
Bytes = List ℕ

pub record FormatMessage : Type 0 where
  pub numerator : ℕ
  pub denominator : ℕ
  pub drop_frame : Bool

pub record PositionMessage : Type 0 where
  pub frames : ℤ
  pub subframe : ℕ

pub record RateMessage : Type 0 where
  pub numerator : ℤ
  pub denominator : ℕ

pub record AnchorMessage : Type 0 where
  pub time_ns : ℕ
  pub position : Option PositionMessage
  pub rate : Option RateMessage

pub record ChangeMessage : Type 0 where
  pub discontinuity : ℕ
  pub anchor : Option AnchorMessage

pub record Snapshot : Type 0 where
  pub version : ℕ
  pub session : Bytes
  pub revision : ℕ
  pub discontinuity : ℕ
  pub source_kind : ℤ
  pub source_health : ℤ
  pub format : Option FormatMessage
  pub anchor : Option AnchorMessage
  pub scheduled : List ChangeMessage
  pub session_id : Bytes

pub record Probe : Type 0 where
  pub version : ℕ
  pub sequence : ℕ
  pub t1 : ℕ
  pub t2 : ℕ
  pub t3 : ℕ
