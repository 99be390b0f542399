-- ===== src/Browser.antt =====
-- clients/wasm/src/lib.rs: the follower of a browser. A result for JavaScript is the value that is
-- serialized, and the text of the last event is the event itself.

pub mod Calls
use ethersync.Base.{
  ℕ, ◌+◌, max, Bool, true, false, not, ◌&&◌, ◌||◌, Option, none, some, ltb, if◌then◌else◌, Result,
  ok, err,
}
use ethersync.Base.Float.{Float, ◌⊗◌, ◌≼◌, literal}
use ethersync.Timecode.Defs.{Error}
use ethersync.Wire.Messages.{Bytes, Snapshot, Probe}
use ethersync.Wire.Validate.{Codec}
use ethersync.Timeline.Defs.{ConnectionState, Timeline, default_timeline}
use ethersync.Clock.Defs.{Exchange}
use ethersync.Clock.Probes.{Probes, default_probes, request, publication_finished, reply}
use ethersync.Follower.View.{View, Reading, presentation_time, evaluate_for_presentation}
use ethersync.Follower.Core.{
  FollowerCore, Correction, default_policy, legacy, new, connect, disconnect, state,
  measurement_timed, needs_fast_probes, tick,
}
use ethersync.FollowerJob.Receive.{parse}
use ethersync.Boundary.Next.{Boundary, next_boundary}
use ethersync.Output.{sample_time}

pub data BrowserError : Type 0 where
  bad_timestamp early : BrowserError
  protocol : Error → BrowserError

pub record Browser (F : Type 0) : Type 0 where
  pub core : FollowerCore F
  pub probes : Probes
  pub last_event : Option (Correction F)

-- `map_err(error)`
abbrev pub from_protocol {ℓ} : {A : Type ℓ} → Result Error A → Result BrowserError A
from_protocol (ok a) = ok a
from_protocol (err e) = err (protocol e)

-- `if let Some(e) = .. { self.last_event = .. }`
abbrev pub noted :
    {F : Type 0} → Option (Correction F) → Option (Correction F) → Option (Correction F)
noted none last = last
noted (some e) last = some e

-- `?` on a timestamp, before anything changes.
abbrev pub at_time :
    {F X : Type 0}
    → Browser F
    → Result BrowserError ℕ
    → (ℕ → Result BrowserError X × Browser F)
    → Result BrowserError X × Browser F
at_time b (err e) next = (err e, b)
at_time b (ok time) next = next time

module _ {F : Type 0} ⦃fl : Float F⦄ where
  unfoldable pub timestamp : F → Result BrowserError ℕ
  timestamp ms =
      if not (fl.is_finite ms) || not ((literal 0 0 ≼ ms) && (ms ≼ literal 9_223_372_036_854 0))
      then err bad_timestamp
      else ok (fl.to_u64 (fl.round (ms ⊗ literal 1_000_000 0)))

  unfoldable pub new_browser : Browser F
  new_browser = record {
    core = new default_timeline default_policy;
    probes = default_probes;
    last_event = none;
  }

  unfoldable pub legacy_browser : Browser F
  unfolding new_browser
  legacy_browser = record new_browser { core = record new_browser.core { policy = legacy } }

  unfoldable pub connecting : Browser F → Browser F
  connecting b = record b {
    core = record b.core { view = record b.core.view { connection = ConnectionState.connecting } };
  }

  unfoldable pub connected : Browser F → Browser F
  connected b = record b { probes = default_probes; core = connect b.core }

  unfoldable pub disconnected : Browser F → Browser F
  disconnected b = record b { core = disconnect b.core }

  -- `Follower::snapshot` from the time on: what was parsed, and when.
  unfoldable pub take_state :
      Browser F → Result Error Timeline → ℕ → Result BrowserError (Unit {0}) × Browser F
  take_state b (err e) now = (err (protocol e), b)
  take_state b (ok t) now =
      let (event, core) = state b.core t now in
      (ok tt, record b { core = core; last_event = noted event b.last_event })

  unfoldable pub snapshot :
      Codec Snapshot → Browser F → Bytes → F → Result BrowserError (Unit {0}) × Browser F
  unfolding take_state
  snapshot c b bytes now_ms = at_time b (timestamp now_ms) (λ now. take_state b (parse c bytes) now)

  unfoldable pub probe : Codec Probe → Browser F → F → Result BrowserError Bytes × Browser F
  probe c b now_ms = at_time b (timestamp now_ms) (λ now.
      let (bytes, probes) = request c b.probes now in
      (from_protocol bytes, record b { probes = probes }))

  unfoldable pub probe_published : Browser F → F → Result BrowserError (Unit {0}) × Browser F
  probe_published b now_ms =
      at_time b (timestamp now_ms)
        (λ now. (ok tt, record b { probes = publication_finished b.probes now }))

  -- `reply_timed` from the matching on.
  unfoldable pub take_exchange :
      Browser F
      → Result Error (Option Exchange) × Probes
      → ℕ
      → Result BrowserError (Unit {0}) × Browser F
  take_exchange b (err e, probes) processed = (err (protocol e), record b { probes = probes })
  take_exchange b (ok none, probes) processed = (ok tt, record b { probes = probes })
  take_exchange b (ok (some x), probes) processed =
      let (event, core) = measurement_timed b.core x probes.last_publication processed in
      (ok tt, record b { probes = probes; core = core; last_event = noted event b.last_event })

  unfoldable pub reply_timed :
      Codec Probe → Browser F → Bytes → F → F → Result BrowserError (Unit {0}) × Browser F
  unfolding take_exchange
  reply_timed c b bytes received_ms processed_ms = at_time b (timestamp received_ms) (λ received.
      at_time b (timestamp processed_ms) (λ processed.
        if ltb processed received
        then (err early, b)
        else take_exchange b (reply c b.probes bytes received) processed))

  unfoldable pub probe_interval_at : Browser F → F → Result BrowserError ℕ
  probe_interval_at b now_ms = elim (timestamp now_ms) [
    | err e ↦ err e
    | ok now ↦ ok (if needs_fast_probes b.core now then 50 else 250)
  ]

  unfoldable pub probe_interval : Browser F → ℕ
  probe_interval b =
      if needs_fast_probes b.core (max b.core.view.mapping.last_sample_ns b.core.view.correction_at)
      then 50
      else 250

  -- What is shown: the tick is at the real time, the reading at the presented one.
  unfoldable pub shown :
      Browser F → Result Error ℕ → ℕ → ℕ → Result BrowserError (Reading F) × Browser F
  shown b (err e) now delay = (err (protocol e), b)
  shown b (ok presented) now delay =
      let (event, core) = tick b.core now 2_000_000_000 in
      (
        from_protocol (evaluate_for_presentation core.view now delay),
        record b { core = core; last_event = noted event b.last_event },
      )

  unfoldable pub read_for_presentation :
      Browser F → F → F → Result BrowserError (Reading F) × Browser F
  unfolding shown
  read_for_presentation b now_ms delay_ms = at_time b (timestamp now_ms) (λ now.
      at_time b (timestamp delay_ms) (λ delay. shown b (presentation_time now delay) now delay))

  -- `TimecodeSnapshot::read_sample`, which changes nothing.
  unfoldable pub read_sample : View F → F → ℕ → ℕ → Result BrowserError (Reading F)
  read_sample v origin_ms index rate = elim (timestamp origin_ms) [
    | err e ↦ err e
    | ok origin ↦ elim (sample_time origin index rate) [
      | err e ↦ err (protocol e)
      | ok at ↦ from_protocol (evaluate_for_presentation v at 0)
    ]
  ]

  unfoldable pub boundary_of : View F → F → Result BrowserError (Option (Boundary F))
  boundary_of v now_ms = elim (timestamp now_ms) [
    | err e ↦ err e
    | ok now ↦ ok (next_boundary v now)
  ]
