-- ===== src/Leader/Job.antt =====
-- native/src/network.rs: what a pass of `LeaderJob::progress` does to the leader's own state. What only
-- sends events or serves the peers' connections is left out.
use ethersync.Base.{
  ℕ, zero, suc, ◌+◌, ◌-◌, ◌%◌, ◌^◌, ◌==◌, Bool, true, false, not, ◌&&◌, ◌||◌, none, some, List, [],
  ◌∷◌, leb, if◌then◌else◌, Result, ok, err,
}
use ethersync.Base.Float.{Float, literal}
use ethersync.Native.{NativeError}
use ethersync.Native.Readers.{add, publish}
use ethersync.Wire.Messages.{Bytes, Snapshot}
use ethersync.Wire.Validate.{Codec, encode}
use ethersync.Clock.Defs.{default_mapping}
use ethersync.Timeline.Defs.{ConnectionState, SyncState, Timeline}
use ethersync.Timeline.Convert.{wire}
use ethersync.Timecode.Defs.{Error}
use ethersync.Follower.View.{View, default_view}
use ethersync.Tracking.{SourceSample, Tracker, sample, health, is_tracked}
use ethersync.Leader.Changes.{change_timeline}
use ethersync.Leader.State.{
  LeaderConfig, LeaderJob, Command, to_session_id, to_reader, to_change, to_sample, to_reconnect,
  Reply, done, joined, silent, CommandReads, PassReads, eq_health, other_id, is_ok, sent,
  timeout_instant, promote_due,
}

module _ {F : Type 0} ⦃fl : Float F⦄ where
  unfoldable pub leader_view : Timeline → ℕ → View F
  leader_view t now = record default_view {
    local_clock = true;
    timeline = t;
    mapping = record default_mapping {
      reference_ns = now;
      offset_ns = literal 0 0;
      drift = literal 0 0;
      uncertainty_ns = literal 0 0;
      last_sample_ns = now;
      converged = true;
      accepted_observations = 0;
      evidence = none;
    };
    connection = ConnectionState.connected;
    sync = SyncState.synchronized;
  }

  -- `self.readers.publish(leader_view(self.timeline, now))`
  abbrev pub show : LeaderJob F → ℕ → LeaderJob F
  show j now = record j { readers = publish j.readers (leader_view j.timeline now) }

  -- The `Command::Sample` arm, from the tracker's result on: the reply, whether to publish, the job.
  unfoldable pub sampled :
      LeaderConfig
      → LeaderJob F
      → SourceSample
      → CommandReads
      → Result Error Bool × Tracker F × Timeline
      → Reply F × Bool × LeaderJob F
  unfolding timeout_instant eq_health leader_view
  sampled cfg j s reads (ok immediate, tracker, t) = (
    done (ok tt),
    immediate || not (eq_health j.timeline.source_health t.source_health),
    show
        (record j {
          tracker = tracker;
          timeline = t;
          dirty = true;
          source_deadline = some (timeout_instant cfg s reads);
        })
        reads.shown_ns,
  )
  sampled cfg j s reads (err e, tracker, t) = (
    done (err (NativeError.protocol e)),
    false,
    show (record j { tracker = tracker; timeline = t }) reads.shown_ns,
  )

  -- One command: the reply, whether to publish, and the job.
  unfoldable pub handle :
      LeaderConfig → LeaderJob F → Command → CommandReads → Reply F × Bool × LeaderJob F
  unfolding leader_view other_id sampled
  handle cfg j to_reader reads =
      let (reply, inputs) = add j.readers (leader_view j.timeline reads.shown_ns) in
      (joined reply, false, record j { readers = inputs })
  handle cfg j (to_session_id id) reads = (
    done (ok tt),
    other_id j.timeline.session_id id,
    show (record j { timeline = record j.timeline { session_id = some id } }) reads.shown_ns,
  )
  handle cfg j (to_change change effective) reads =
      let (result, t) = change_timeline j.timeline change effective reads.handled_ns in
      (done result, is_ok result, show (record j { timeline = t }) reads.shown_ns)
  handle cfg j (to_sample s) reads =
      sampled cfg j s reads (sample j.tracker j.timeline s reads.handled_ns)
  handle cfg j to_reconnect reads = (silent, false, j)

  -- The loop over the queue, for as many operations as are left: the replies, whether to publish,
  -- the job and what stays in the queue.
  unfoldable pub commands :
      ℕ
      → LeaderConfig
      → LeaderJob F
      → List (Command × CommandReads)
      → List (Reply F) × Bool × LeaderJob F × List (Command × CommandReads)
  unfolding handle
  commands zero cfg j queue = ([], false, j, queue)
  commands (suc n) cfg j [] = ([], false, j, [])
  commands (suc n) cfg j ((c, reads) ∷ queue) =
      let (reply, now_due, handled) = handle cfg j c reads in
      let (replies, due, final, left) =
        commands n cfg (record handled { command_more = n == 0 }) queue in
      (reply ∷ replies, now_due || due, final, left)

  -- The health of a tracked source after the promotions; whether it changed.
  unfoldable pub watch_source : LeaderConfig → LeaderJob F → PassReads → Bool × LeaderJob F
  unfolding eq_health
  watch_source cfg j reads =
      let now_health = health j.tracker reads.now_ns cfg.source_timeout in
      let passed : Bool = elim j.source_deadline [
        | none ↦ false
        | some at ↦ leb at reads.deadline_instant
      ] in
      if is_tracked cfg.source_kind
      then (
        not (eq_health now_health j.timeline.source_health),
        record j {
          timeline = record j.timeline { source_health = now_health };
          source_deadline = if passed then none else j.source_deadline;
        },
      )
      else (false, j)

  unfoldable pub is_publish_due : LeaderConfig → LeaderJob F → PassReads → Bool
  is_publish_due cfg j reads =
      leb cfg.heartbeat (reads.heartbeat_instant - j.last_publish)
      || (j.dirty && leb cfg.tracked_publish (reads.dirty_instant - j.last_publish))

  -- A timeline that does not encode ends the pass, and the job, with the revision counted.
  unfoldable pub published :
      LeaderJob F → ℕ → Result Error Bytes → Result NativeError (Unit {0}) × LeaderJob F
  published j instant (ok bytes) =
      (ok tt, record j { bytes = bytes; last_publish = instant; dirty = false })
  published j instant (err e) = (err (NativeError.protocol e), j)

  -- The next revision, which wraps at 64 bits, as bytes.
  unfoldable pub publish_state :
      Codec Snapshot → LeaderJob F → ℕ → Result NativeError (Unit {0}) × LeaderJob F
  unfolding published
  publish_state c j instant =
      let t = record j.timeline { revision = (j.timeline.revision + 1) % 2 ^ 64 } in
      published (record j { timeline = t }) instant (encode c (wire t))

  -- `progress` from the first command up to the peers: whether a state was published, or the error,
  -- the job and the queue.
  unfoldable pub pass :
      Codec Snapshot
      → LeaderConfig
      → LeaderJob F
      → List (Command × CommandReads)
      → PassReads
      → Result NativeError Bool × List (Reply F) × LeaderJob F × List (Command × CommandReads)
  unfolding commands promote_due watch_source is_publish_due publish_state
  pass c cfg j queue reads =
      let (replies, asked, handled, left) =
        commands 32 cfg (record j { command_more = false }) queue in
      let (taken, t) = promote_due reads.now_ns handled.timeline in
      let (turned, watched) = watch_source cfg (record handled { timeline = t }) reads in
      let due = asked || taken || turned || is_publish_due cfg watched reads in
      let (result, final) = publish_state c watched reads.published_instant in
      if due then (sent result, replies, final, left) else (ok false, replies, watched, left)
