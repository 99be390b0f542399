-- ===== src/FollowerJob/Defs.antt =====
-- native/src/network.rs: the state of `FollowerJob`, its losses and its commands. The peer, the group
-- and the frame that it reads from are the transport's; what is kept of them is whether they are
-- there. Instants and durations are in nanoseconds, and every reading of a clock is an argument.
use ethersync.Base.{
  ℕ, zero, suc, ◌+◌, ◌-◌, ◌*◌, ◌^◌, min, Bool, false, Option, none, List, [], ◌∷◌, ltb, ◌==◌,
  if◌then◌else◌, err,
}
use ethersync.Base.Float.{Float}
use ethersync.Native.{NativeError}
use ethersync.Native.Readers.{Input, add}
use ethersync.Timecode.Defs.{Position, FrameFormat}
use ethersync.Timeline.Defs.{Timeline, default_timeline, default_anchor}
use ethersync.Clock.Probes.{Probes, default_probes}
use ethersync.Follower.Core.{FollowerCore, CorrectionPolicy, new, disconnect}
use ethersync.Leader.State.{
  Command, to_session_id, to_reader, to_change, to_sample, to_reconnect, Reply, done, joined,
  silent,
}

-- Of `FollowerConfig` and its `Timing`, what the job uses.
pub record FollowerConfig (F : Type 0) : Type 0 where
  pub acquisition_probe : ℕ
  pub steady_probe : ℕ
  pub connect_timeout : ℕ
  pub retry_min : ℕ
  pub retry_max : ℕ
  pub correction : CorrectionPolicy F
  pub fallback_position : Position
  pub fallback_format : FrameFormat

pub record FollowerJob (F : Type 0) : Type 0 where
  pub has_peer : Bool
  pub core : FollowerCore F
  pub readers : List (Input F)
  pub probes : Probes
  pub next_probe : ℕ
  pub retry : ℕ
  pub backoff : ℕ
  pub began : ℕ
  pub connected : Bool
  pub has_group : Bool
  pub has_frame : Bool
  pub frame_deadline : Option ℕ
  pub command_more : Bool

-- The clock as a loss reads it, and once more after a command to reconnect.
pub record LossReads : Type 0 where
  pub elapsed_at : ℕ
  pub retry_at : ℕ
  pub reconnect_at : ℕ

-- `Duration::MAX`, at which `saturating_mul` stops.
abbrev pub duration_max : ℕ
duration_max = 2 ^ 64 * 1_000_000_000 - 1

abbrev pub two_seconds : ℕ
two_seconds = 2_000_000_000

-- `fallback` of native/src/api.rs.
unfoldable pub fallback : {F : Type 0} → FollowerConfig F → Timeline
fallback cfg = record default_timeline {
  format = cfg.fallback_format;
  anchor = record default_anchor { position = cfg.fallback_position };
}

module _ {F : Type 0} ⦃fl : Float F⦄ where
  -- `FollowerJob::new`, once the endpoint is open: the probes, the retry and the start are now.
  unfoldable pub new_job : FollowerConfig F → ℕ → ℕ → ℕ → FollowerJob F
  unfolding fallback
  new_job cfg probe_at retry_at began_at = record {
    has_peer = false;
    core = new (fallback cfg) cfg.correction;
    readers = [];
    probes = default_probes;
    next_probe = probe_at;
    retry = retry_at;
    backoff = cfg.retry_min;
    began = began_at;
    connected = false;
    has_group = false;
    has_frame = false;
    frame_deadline = none;
    command_more = false;
  }

  -- How long to wait after a loss: the least, where the connection stood for more than two seconds.
  unfoldable pub wait_of : FollowerConfig F → FollowerJob F → ℕ → ℕ
  wait_of cfg j elapsed_at =
      if ltb two_seconds (elapsed_at - j.began) then cfg.retry_min else j.backoff

  -- `FollowerJob::disconnect`
  unfoldable pub lose : FollowerConfig F → FollowerJob F → LossReads → FollowerJob F
  unfolding wait_of
  lose cfg j reads =
      let wait = wait_of cfg j reads.elapsed_at in
      record j {
        has_peer = false;
        has_group = false;
        has_frame = false;
        frame_deadline = none;
        connected = false;
        probes = default_probes;
        core = disconnect j.core;
        retry = reads.retry_at + wait;
        backoff = min (min duration_max (wait * 2)) cfg.retry_max;
      }

  unfoldable pub refused : Reply F
  refused = done (err (NativeError.invalid "follower cannot lead"))

  unfoldable pub handle :
      FollowerConfig F → FollowerJob F → Command → LossReads → Reply F × FollowerJob F
  unfolding lose refused
  handle cfg j to_reader reads =
      let (reply, inputs) = add j.readers j.core.view in
      (joined reply, record j { readers = inputs })
  handle cfg j to_reconnect reads =
      (silent, record (lose cfg j reads) { retry = reads.reconnect_at })
  handle cfg j (to_change change effective) reads = (refused, j)
  handle cfg j (to_sample s) reads = (refused, j)
  handle cfg j (to_session_id id) reads = (refused, j)

  -- The loop over the queue, for as many operations as are left.
  unfoldable pub commands :
      ℕ
      → FollowerConfig F
      → FollowerJob F
      → List (Command × LossReads)
      → List (Reply F) × FollowerJob F × List (Command × LossReads)
  unfolding handle
  commands zero cfg j queue = ([], j, queue)
  commands (suc n) cfg j [] = ([], j, [])
  commands (suc n) cfg j ((c, reads) ∷ queue) =
      let (reply, handled) = handle cfg j c reads in
      let (replies, final, left) =
        commands n cfg (record handled { command_more = n == 0 }) queue in
      (reply ∷ replies, final, left)
