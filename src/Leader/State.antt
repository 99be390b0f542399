-- ===== src/Leader/State.antt =====
-- native/src/network.rs: the state of `LeaderJob`, what it is given, and the promotion of the changes
-- that are due. The clocks are read anew at every use; the readings are arguments, in nanoseconds.
use ethersync.Base.{
  ℕ, zero, suc, ◌+◌, ◌-◌, min, Bool, true, false, not, ◌&&◌, Option, none, some, List, ltb, leb,
  if◌then◌else◌, Result, ok, err,
}
use ethersync.Native.{NativeError}
use ethersync.Native.Readers.{Input}
use ethersync.Wire.Messages.{Bytes}
use ethersync.Clock.Defs.{u64_max}
use ethersync.Timeline.Defs.{SourceKind, SourceHealth, Timeline, first_scheduled, promote}
use ethersync.Follower.View.{is_healthy}
use ethersync.Follower.Core.{eq_bytes}
use ethersync.Tracking.{SourceSample, Tracker}
use ethersync.Leader.Changes.{Change}

-- The intervals and the source that the passes use, of `LeaderConfig` and its `Timing`.
pub record LeaderConfig : Type 0 where
  pub source_kind : SourceKind
  pub heartbeat : ℕ
  pub tracked_publish : ℕ
  pub source_timeout : ℕ

pub record LeaderJob (F : Type 0) : Type 0 where
  pub timeline : Timeline
  pub readers : List (Input F)
  pub tracker : Tracker F
  pub bytes : Bytes
  pub last_publish : ℕ
  pub dirty : Bool
  pub source_deadline : Option ℕ
  pub command_more : Bool

pub data Command : Type 0 where
  to_session_id : Bytes → Command
  to_reader : Command
  to_change : Change → Option ℕ → Command
  to_sample : SourceSample → Command
  to_reconnect : Command

-- What the sender of a command gets back.
pub data Reply (F : Type 0) : Type 0 where
  done : Result NativeError (Unit {0}) → Reply F
  joined : Result NativeError (Input F) → Reply F
  silent : Reply F

-- The clock as a command reads it: for the change, for the source's deadline (with the instant that
-- counts from) and for the view that is published.
pub record CommandReads : Type 0 where
  pub handled_ns : ℕ
  pub deadline_ns : ℕ
  pub instant : ℕ
  pub shown_ns : ℕ

-- The clock as the rest of a pass reads it.
pub record PassReads : Type 0 where
  pub now_ns : ℕ
  pub deadline_instant : ℕ
  pub heartbeat_instant : ℕ
  pub dirty_instant : ℕ
  pub published_instant : ℕ

-- `saturating_add` on 64 bits.
abbrev pub saturating_add : ℕ → ℕ → ℕ
saturating_add a b = min u64_max (a + b)

unfoldable pub eq_health : SourceHealth → SourceHealth → Bool
eq_health SourceHealth.healthy h = is_healthy h
eq_health SourceHealth.degraded h = not (is_healthy h)

-- `self.timeline.session_id != Some(id)`
unfoldable pub other_id : Option Bytes → Bytes → Bool
other_id none id = true
other_id (some old) id = not (eq_bytes old id)

-- `result.is_ok()`
abbrev pub is_ok : {A : Type 0} → Result NativeError A → Bool
is_ok (ok a) = true
is_ok (err e) = false

-- `?` on the encoding of a state that is sent.
abbrev pub sent : Result NativeError (Unit {0}) → Result NativeError Bool
sent (ok _) = ok true
sent (err e) = err e

-- The instant at which a sample's source times out.
unfoldable pub timeout_instant : LeaderConfig → SourceSample → CommandReads → ℕ
timeout_instant cfg s reads =
    reads.instant
    + (saturating_add (saturating_add s.timestamp_ns cfg.source_timeout) 1 - reads.deadline_ns)

-- The loop that takes over the changes that are due, with whether it took any: each round takes one
-- away, so as many rounds as there are changes are enough.
unfoldable pub promote_rounds : ℕ → ℕ → Timeline → Timeline
promote_rounds zero now t = t
promote_rounds (suc n) now t =
    let rest = promote_rounds n now (promote t) in
    if ltb 0 t.scheduled_len && leb (first_scheduled t).anchor.time_ns now then rest else t

unfoldable pub promote_due : ℕ → Timeline → Bool × Timeline
unfolding promote_rounds
promote_due now t = (
  ltb 0 t.scheduled_len && leb (first_scheduled t).anchor.time_ns now,
  promote_rounds t.scheduled_len now t,
)
