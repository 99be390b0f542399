-- ===== src/FollowerJob/Pass.antt =====
-- native/src/network.rs: `FollowerJob::progress`, and the `step`, `deadline` and `drop` of the job.
use ethersync.Base.{
  ℕ, ◌+◌, ◌-◌, ◌*◌, ◌%◌, ◌^◌, min, Bool, true, false, ◌&&◌, Option, none, some, List, ltb,
  if◌then◌else◌, Result, ok, err,
}
use ethersync.Base.Float.{Float, ◌⊕◌, ◌⊘◌, literal, of_ℕ}
use ethersync.Native.{NativeError}
use ethersync.Native.Readers.{publish}
use ethersync.Wire.Messages.{Bytes, Snapshot, Probe}
use ethersync.Wire.Validate.{Codec}
use ethersync.Timeline.Defs.{ConnectionState, first_scheduled}
use ethersync.Clock.Defs.{leader_time}
use ethersync.Follower.Core.{tick, disconnect}
use ethersync.Leader.State.{Command}
use ethersync.FollowerJob.Defs.{FollowerConfig, FollowerJob, LossReads, lose, commands}
use ethersync.FollowerJob.Receive.{
  Stage, and_then, Datagram, ProbeReads, dial, establish, datagrams, groups, next_frame, read_frame,
  time_out, send_probe,
}

-- What the transport has for one pass, and what the clocks read in it.
pub record Arrivals : Type 0 where
  pub io : Result NativeError (Unit {0})
  pub queue : List (Command × LossReads)
  pub retry_instant : ℕ
  pub began_at : ℕ
  pub dialled : Result NativeError (Unit {0})
  -- `Peer::step`: whether the subscriptions stand.
  pub peer : Result NativeError Bool
  pub established_at : ℕ
  pub replies : List Datagram
  pub states : List (Result NativeError (Unit {0}) × ℕ)
  pub frame : Option (Result NativeError ℕ)
  pub bytes : Option (Result NativeError Bytes)
  pub state_ns : ℕ
  pub timeout_instant : ℕ
  pub probe : ProbeReads

-- The least of the deadlines that are set.
abbrev pub earlier : Option ℕ → ℕ → ℕ
earlier none b = b
earlier (some a) b = min a b

-- The deadlines of the transport, and the clocks as `deadline` reads them.
pub record DeadlineReads : Type 0 where
  pub transport_deadline : Option ℕ
  pub peer_deadline : ℕ
  pub instant : ℕ
  pub now_ns : ℕ

module _ {F : Type 0} ⦃fl : Float F⦄ where
  -- What a pass does once the subscriptions stand.
  unfoldable pub exchange :
      Codec Snapshot → Codec Probe → FollowerConfig F → FollowerJob F → Arrivals → Stage F
  exchange cs cp cfg j a = and_then (datagrams cp 8 (establish j a.established_at) a.replies) (λ j1.
      and_then (groups cfg 8 j1 a.states) (λ j2. and_then (next_frame j2 a.frame) (λ j3.
        and_then (read_frame cs j3 a.bytes a.state_ns)
          (λ j4. and_then (time_out j4 a.timeout_instant) (λ j5. send_probe cp cfg j5 a.probe)))))

  -- What the peer's own step lets the pass do.
  unfoldable pub advanced :
      Codec Snapshot
      → Codec Probe
      → FollowerConfig F
      → Result NativeError Bool
      → FollowerJob F
      → Arrivals
      → Stage F
  unfolding exchange
  advanced cs cp cfg (err e) j a = (err e, j)
  advanced cs cp cfg (ok false) j a = (ok tt, j)
  advanced cs cp cfg (ok true) j a = exchange cs cp cfg j a

  unfoldable pub with_peer :
      Codec Snapshot → Codec Probe → FollowerConfig F → FollowerJob F → Arrivals → Stage F
  unfolding advanced
  with_peer cs cp cfg j a = if j.has_peer then advanced cs cp cfg a.peer j a else (ok tt, j)

  -- A pass once the transport has made its own progress, or not.
  unfoldable pub progress :
      Codec Snapshot
      → Codec Probe
      → FollowerConfig F
      → Result NativeError (Unit {0})
      → FollowerJob F
      → Arrivals
      → Stage F
  unfolding commands dial with_peer
  progress cs cp cfg (err e) j a = (err e, j)
  progress cs cp cfg (ok _) j a =
      let (replies, handled, left) = commands 32 cfg (record j { command_more = false }) a.queue in
      and_then (dial handled a.retry_instant a.began_at a.dialled) (λ k. with_peer cs cp cfg k a)

  -- The end of a step: a failed pass loses the connection.
  unfoldable pub recover : FollowerConfig F → Stage F → LossReads → FollowerJob F
  unfolding lose
  recover cfg (ok _, j) reads = j
  recover cfg (err e, j) reads = lose cfg j reads

  -- `step`, where the job is not stopped: the times of the loss, and the local time of the tick.
  unfoldable pub step :
      Codec Snapshot
      → Codec Probe
      → FollowerConfig F
      → FollowerJob F
      → Arrivals
      → LossReads
      → ℕ
      → FollowerJob F
  unfolding progress recover
  step cs cp cfg j a reads now =
      let k = recover cfg (progress cs cp cfg a.io j a) reads in
      let core = (tick k.core now (cfg.steady_probe * 8 % 2 ^ 64)).1 in
      record k { core = core; readers = publish k.readers core.view }

  -- The wait for the first scheduled change, by the follower's clock.
  unfoldable pub change_instant : FollowerJob F → DeadlineReads → ℕ
  change_instant j reads =
      let v = j.core.view in
      let delta =
        (first_scheduled v.timeline).anchor.time_ns - leader_time v.mapping reads.now_ns in
      reads.instant
      + fl.to_u64 (fl.fmax (of_ℕ delta ⊘ (literal 1 0 ⊕ v.mapping.drift)) (literal 0 0))

  -- When the connection wants the next pass.
  unfoldable pub connection_deadline : FollowerJob F → DeadlineReads → ℕ
  connection_deadline j reads =
      if j.has_peer then (if j.connected then j.next_probe else reads.peer_deadline) else j.retry

  unfoldable pub deadline : FollowerJob F → DeadlineReads → ℕ
  unfolding change_instant connection_deadline
  deadline j reads =
      let first = earlier reads.transport_deadline (connection_deadline j reads) in
      let framed = earlier j.frame_deadline first in
      let v = j.core.view in
      if ltb 0 v.timeline.scheduled_len && ltb 0 v.mapping.last_sample_ns
      then min framed (change_instant j reads)
      else framed

  -- `drop`
  unfoldable pub drop_job : FollowerJob F → FollowerJob F
  drop_job j =
      let lost = disconnect j.core in
      let core = record lost {
        view = record lost.view { connection = ConnectionState.shutdown };
      } in
      record j { core = core; readers = publish j.readers core.view }
