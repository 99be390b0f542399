-- ===== src/FollowerJob/Receive.antt =====
-- native/src/network.rs: what `FollowerJob::progress` does with what the transport has for it. A stage
-- returns whether to go on, with the job; what the transport returns is an argument, `none` where it
-- has nothing ready.
use ethersync.Base.{
  ℕ, zero, suc, ◌+◌, Bool, true, false, not, ◌&&◌, Option, none, some, List, [], ◌∷◌, ltb, leb,
  if◌then◌else◌, Result, ok, err, ◌>>=◌,
}
use ethersync.Base.Float.{Float}
use ethersync.Native.{NativeError}
use ethersync.Wire.Messages.{Bytes, Snapshot, Probe}
use ethersync.Wire.Validate.{Codec, decode_snapshot, max_message}
use ethersync.Timecode.Defs.{Error, size}
use ethersync.Timeline.Defs.{ConnectionState, Timeline}
use ethersync.Timeline.Convert.{from_wire}
use ethersync.Clock.Defs.{Exchange}
use ethersync.Clock.Probes.{Probes, request, publication_finished, reply}
use ethersync.Follower.Core.{connect, state, measurement_timed, needs_fast_probes}
use ethersync.FollowerJob.Defs.{FollowerConfig, FollowerJob}

abbrev pub Stage : Type 0 → Type 0
Stage F = Result NativeError (Unit {0}) × FollowerJob F

-- `?` after a stage.
abbrev pub and_then : {F : Type 0} → Stage F → (FollowerJob F → Stage F) → Stage F
and_then (ok _, j) next = next j
and_then (err e, j) next = (err e, j)

-- A datagram or why there is none, the time of its receipt and the time after it was matched.
pub record Datagram : Type 0 where
  pub payload : Result NativeError Bytes
  pub t4 : ℕ
  pub processed : ℕ

-- What the publication of a probe reads and gets back.
pub record ProbeReads : Type 0 where
  pub instant : ℕ
  pub sent_ns : ℕ
  pub appended : Result NativeError (Unit {0})
  pub finished_ns : ℕ
  pub rtt_ns : ℕ
  pub lost_packets : ℕ
  pub next_instant : ℕ
  pub fast_ns : ℕ

-- `Timeline::from_wire(&decode_snapshot(&bytes)?)?`
unfoldable pub parse : Codec Snapshot → Bytes → Result Error Timeline
parse c bytes = decode_snapshot c bytes >>= from_wire

module _ {F : Type 0} ⦃fl : Float F⦄ where
  -- Without a peer and with the retry due: the dial, whose result is given.
  unfoldable pub dial : FollowerJob F → ℕ → ℕ → Result NativeError (Unit {0}) → Stage F
  dial j instant began_at dialled =
      let connecting = record j {
        core = record j.core {
          view = record j.core.view { connection = ConnectionState.connecting };
        };
        began = began_at;
      } in
      if not j.has_peer && leb j.retry instant
      then (elim dialled [
        | ok _ ↦ (ok tt, record connecting { has_peer = true })
        | err e ↦ (err e, connecting)
      ])
      else (ok tt, j)

  -- The peer's subscriptions stand: `connected`, once.
  unfoldable pub establish : FollowerJob F → ℕ → FollowerJob F
  establish j instant =
      if j.connected
      then j
      else record j { connected = true; core = connect j.core; next_probe = instant }

  -- A matched exchange, or none, is passed to the core.
  unfoldable pub on_exchange : FollowerJob F → Result Error (Option Exchange) × Probes → ℕ → Stage F
  on_exchange j (err e, probes) processed =
      (err (NativeError.protocol e), record j { probes = probes })
  on_exchange j (ok none, probes) processed = (ok tt, record j { probes = probes })
  on_exchange j (ok (some e), probes) processed = (
    ok tt,
    record j {
      probes = probes;
      core = (measurement_timed j.core e probes.last_publication processed).1;
    },
  )

  unfoldable pub on_datagram : Codec Probe → FollowerJob F → Datagram → Stage F
  unfolding on_exchange
  on_datagram c j d = elim d.payload [
    | err e ↦ (err e, j)
    | ok bytes ↦ on_exchange j (reply c j.probes bytes d.t4) d.processed
  ]

  -- At most as many datagrams as the number says.
  unfoldable pub datagrams : Codec Probe → ℕ → FollowerJob F → List Datagram → Stage F
  unfolding on_datagram
  datagrams c zero j ds = (ok tt, j)
  datagrams c (suc n) j [] = (ok tt, j)
  datagrams c (suc n) j (d ∷ ds) = and_then (on_datagram c j d) (λ k. datagrams c n k ds)

  -- A group of states, newer than any before it, or why there is none, and the time.
  unfoldable pub on_group :
      FollowerConfig F → FollowerJob F → Result NativeError (Unit {0}) → ℕ → Stage F
  on_group cfg j (err e) instant = (err e, j)
  on_group cfg j (ok _) instant = (
    ok tt,
    record j {
      has_group = true;
      has_frame = false;
      frame_deadline = some (instant + cfg.connect_timeout);
    },
  )

  unfoldable pub groups :
      FollowerConfig F → ℕ → FollowerJob F → List (Result NativeError (Unit {0}) × ℕ) → Stage F
  unfolding on_group
  groups cfg zero j gs = (ok tt, j)
  groups cfg (suc n) j [] = (ok tt, j)
  groups cfg (suc n) j ((g, instant) ∷ gs) =
      and_then (on_group cfg j g instant) (λ k. groups cfg n k gs)

  -- The size that a frame announces.
  unfoldable pub on_frame : FollowerJob F → Result NativeError ℕ → Stage F
  on_frame j (err e) = (err e, j)
  on_frame j (ok n) =
      if ltb max_message n
      then (err (NativeError.protocol size), j)
      else (ok tt, record j { has_frame = true })

  unfoldable pub next_frame : FollowerJob F → Option (Result NativeError ℕ) → Stage F
  unfolding on_frame
  next_frame j none = (ok tt, j)
  next_frame j (some frame) =
      if not j.has_frame && j.has_group then on_frame j frame else (ok tt, j)

  unfoldable pub accept : FollowerJob F → Result Error Timeline → ℕ → Stage F
  accept j (err e) now = (err (NativeError.protocol e), j)
  accept j (ok t) now = (
    ok tt,
    record j {
      core = (state j.core t now).1;
      has_frame = false;
      has_group = false;
      frame_deadline = none;
    },
  )

  -- The bytes of a whole frame, and the time.
  unfoldable pub read_frame :
      Codec Snapshot → FollowerJob F → Option (Result NativeError Bytes) → ℕ → Stage F
  unfolding parse accept
  read_frame c j none now = (ok tt, j)
  read_frame c j (some (err e)) now = if j.has_frame then (err e, j) else (ok tt, j)
  read_frame c j (some (ok bytes)) now =
      if j.has_frame then accept j (parse c bytes) now else (ok tt, j)

  unfoldable pub time_out : FollowerJob F → ℕ → Stage F
  time_out j instant =
      if elim j.frame_deadline as (λ _. Bool) [ none ↦ false | some d ↦ leb d instant ]
      then (err (NativeError.transport "snapshot receive timeout"), j)
      else (ok tt, j)

  -- The end of a probe's publication.
  unfoldable pub finish_probe : FollowerConfig F → FollowerJob F → ProbeReads → FollowerJob F
  finish_probe cfg j reads =
      let core = record j.core {
        view = record j.core.view { rtt_ns = reads.rtt_ns; lost_packets = reads.lost_packets };
      } in
      record j {
        probes = publication_finished j.probes reads.finished_ns;
        core = core;
        next_probe =
            reads.next_instant
            + (if needs_fast_probes core reads.fast_ns
                then cfg.acquisition_probe
                else cfg.steady_probe);
      }

  -- The rest of a publication, from the request on.
  unfoldable pub probed :
      FollowerConfig F
      → FollowerJob F
      → Result Error Bytes
      → Result NativeError (Unit {0})
      → ProbeReads
      → Stage F
  unfolding finish_probe
  probed cfg j (err e) appended reads = (err (NativeError.protocol e), j)
  probed cfg j (ok payload) (err e) reads = (err e, j)
  probed cfg j (ok payload) (ok _) reads = (ok tt, finish_probe cfg j reads)

  unfoldable pub send_probe : Codec Probe → FollowerConfig F → FollowerJob F → ProbeReads → Stage F
  unfolding probed
  send_probe c cfg j reads =
      let (payload, probes) = request c j.probes reads.sent_ns in
      if leb j.next_probe reads.instant
      then probed cfg (record j { probes = probes }) payload reads.appended reads
      else (ok tt, j)
