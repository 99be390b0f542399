-- ===== src/Leader/Lifecycle.antt =====
-- native/src/network.rs: the start of `LeaderJob`, the deadline of its next pass and its end.
use ethersync.Base.{
  ℕ, ◌+◌, ◌-◌, ◌≤◌, ◌<◌, ◌≡◌, refl, min, true, false, Option, none, some, [], ltb, if◌then◌else◌,
  arith, Result, ok, err, if_elim, length, ◌⊎◌, inl, inr, lt→ltb,
}
use ethersync.Base.Float.{Float}
use ethersync.Native.Readers.{publish}
use ethersync.Wire.Messages.{Bytes, Snapshot}
use ethersync.Wire.Validate.{Codec, IsFaithful, encode, max_message, i64_max}
use ethersync.Timecode.Defs.{Error, size, Position, FrameFormat}
use ethersync.Timecode.Motion.{Rate}
use ethersync.Timecode.Labels.{IsFormat}
use ethersync.Timecode.Positions.{IsPosition}
use ethersync.Timecode.Rates.{IsRate}
use ethersync.Timeline.Defs.{
  ConnectionState, SourceKind, SourceHealth, Timeline, default_timeline, first_scheduled,
}
use ethersync.Timeline.Schedule.{IsTimeline}
use ethersync.Timeline.Convert.{wire}
use ethersync.Tracking.{default_tracker, is_tracked}
use ethersync.FollowerJob.Pass.{earlier}
use ethersync.FollowerJob.Backoff.{earlier-le}
use ethersync.Leader.Job.{leader_view}
use ethersync.Leader.State.{LeaderConfig, LeaderJob}
use ethersync.Leader.Commands.{IsLed}
use ethersync.Leader.Published.{IsPublished, parse-wire}

-- What a leader starts with: of its `LeaderConfig`, its `LeaderInfo` and a fresh identity.
pub record Start : Type 0 where
  pub session : Bytes
  pub session_id : Option Bytes
  pub fresh_id : Bytes
  pub format : FrameFormat
  pub position : Position
  pub rate : Rate
  pub source_kind : SourceKind

-- `session_id.unwrap_or_else(..)`
abbrev pub id_or : Option Bytes → Bytes → Bytes
id_or none fresh = fresh
id_or (some id) fresh = id

unfoldable pub first_timeline : Start → ℕ → Timeline
unfolding is_tracked
first_timeline s now = record default_timeline {
  session = s.session;
  session_id = some (id_or s.session_id s.fresh_id);
  revision = 1;
  format = s.format;
  anchor = record { time_ns = now; position = s.position; rate = s.rate };
  source_kind = s.source_kind;
  source_health = if is_tracked s.source_kind then SourceHealth.degraded else SourceHealth.healthy;
}

pub first_timeline-IsTimeline :
    (s : Start) (now : ℕ)
    → length s.session ≡ 16
    → length (id_or s.session_id s.fresh_id) ≡ 16
    → IsFormat s.format
    → IsPosition s.position
    → IsRate s.rate
    → now ≤ i64_max
    → IsTimeline (first_timeline s now)
unfolding first_timeline
first_timeline-IsTimeline s now session id format position rate h = record {
  session_in = session;
  session_id_in = id;
  format_in = format;
  anchor_in = record { time_in = h; position_in = position; rate_in = rate };
  slots = refl;
  len_in = omega arith;
  ascending = tt;
}

-- The times that `deadline` reads, and the least deadlines of the transport and of the peers that
-- are connecting.
pub record LeaderReads : Type 0 where
  pub instant : ℕ
  pub now_ns : ℕ
  pub transport_deadline : Option ℕ
  pub peer_deadline : Option ℕ

module _ {F : Type 0} ⦃fl : Float F⦄ where
  -- The job around the first state's bytes.
  unfoldable pub first_job : Timeline → ℕ → Bytes → LeaderJob F
  first_job t instant bytes = record {
    timeline = t;
    readers = [];
    tracker = default_tracker;
    bytes = bytes;
    last_publish = instant;
    dirty = false;
    source_deadline = none;
    command_more = false;
  }

  unfoldable pub started : Timeline → ℕ → Result Error Bytes → Result Error (LeaderJob F)
  unfolding first_job
  started t instant (ok bytes) = ok (first_job t instant bytes)
  started t instant (err e) = err e

  -- `LeaderJob::new` once the endpoint is open. A state that does not encode is an error here, where
  -- the `unwrap` of the code ends the thread.
  unfoldable pub start_job : Codec Snapshot → Start → ℕ → ℕ → Result Error (LeaderJob F)
  unfolding first_timeline started
  start_job c s now instant = let t = first_timeline s now in started t instant (encode c (wire t))

  unfoldable pub next_deadline : LeaderConfig → LeaderJob F → LeaderReads → ℕ
  next_deadline cfg j reads =
      let heartbeat = j.last_publish + cfg.heartbeat in
      let changed =
        if j.dirty then min heartbeat (j.last_publish + cfg.tracked_publish) else heartbeat in
      let wait = (first_scheduled j.timeline).anchor.time_ns - reads.now_ns in
      let scheduled =
        if ltb 0 j.timeline.scheduled_len then min changed (reads.instant + wait) else changed in
      earlier reads.peer_deadline
        (earlier j.source_deadline (earlier reads.transport_deadline scheduled))

  -- `drop`: the readers are shown the end of the connection.
  unfoldable pub drop_leader : LeaderJob F → ℕ → LeaderJob F
  unfolding leader_view
  drop_leader j now =
      let view = record (leader_view j.timeline now) { connection = ConnectionState.shutdown } in
      record j { readers = publish j.readers view }

  -- A leader that starts with a generated source, identities of 16 bytes and a position, rate and
  -- time in range has its timeline published, unless that is too long for a message.
  pub start_job-IsPublished :
      (c : Codec Snapshot) (s : Start) (now instant : ℕ)
      → IsFaithful c
      → IsTimeline (first_timeline s now)
      → s.source_kind ≡ SourceKind.generated
      → (start_job c s now instant ≡ err size)
        ⊎ ((j : LeaderJob F) × (start_job c s now instant ≡ ok j) × IsPublished c now j)
  unfolding start_job encode
  start_job-IsPublished c s now instant faithful v g =
      let t = first_timeline s now in
      let led : IsLed now t = record {
        valid = v;
        generated_source = unfold first_timeline in g;
        past = unfold first_timeline in omega arith;
      } in
      if_elim
        (λ (x : Result Error Bytes).
          (started t instant x ≡ err size)
          ⊎ ((j : LeaderJob F) × (started t instant x ≡ ok j) × IsPublished c now j))
        (ltb max_message (length (c.encode_to_vec (wire t)))) (λ long. inl (unfold started in refl))
        (λ short. inr (
          first_job t instant (c.encode_to_vec (wire t)),
          unfold started in refl,
          unfold first_job in
              record {
                led = led;
                counted = unfold first_timeline in omega arith;
                agrees = parse-wire c t faithful v (unfold first_timeline in omega arith) short;
              },
        ))

  -- What bounds the instant at which a leader wants its next pass.
  pub record Wakes (cfg : LeaderConfig) (j : LeaderJob F) (reads : LeaderReads) (at : ℕ)
      : Type 0 where
    pub for_heartbeat : at ≤ j.last_publish + cfg.heartbeat
    pub for_samples : j.dirty ≡ true → at ≤ j.last_publish + cfg.tracked_publish
    pub for_change :
        0 < j.timeline.scheduled_len
        → at ≤ reads.instant + ((first_scheduled j.timeline).anchor.time_ns - reads.now_ns)

  -- A leader is woken no later than its heartbeat, the publication of its samples and the first
  -- scheduled change want it.
  pub next_deadline-Wakes :
      (cfg : LeaderConfig) (j : LeaderJob F) (reads : LeaderReads)
      → Wakes cfg j reads (next_deadline cfg j reads)
  unfolding next_deadline
  next_deadline-Wakes cfg j reads =
      let heartbeat = j.last_publish + cfg.heartbeat in
      let changed =
        if j.dirty then min heartbeat (j.last_publish + cfg.tracked_publish) else heartbeat in
      let wait = (first_scheduled j.timeline).anchor.time_ns - reads.now_ns in
      let scheduled =
        if ltb 0 j.timeline.scheduled_len then min changed (reads.instant + wait) else changed in
      let transport = earlier reads.transport_deadline scheduled in
      let source = earlier j.source_deadline transport in
      let a = earlier-le reads.transport_deadline scheduled in
      let b = earlier-le j.source_deadline transport in
      let c = earlier-le reads.peer_deadline source in
      let early : changed ≤ heartbeat =
        if_elim (λ (x : ℕ). x ≤ heartbeat) j.dirty (λ _. omega arith) (λ _. omega arith) in
      let first : scheduled ≤ changed =
        if_elim (λ (x : ℕ). x ≤ changed) (ltb 0 j.timeline.scheduled_len) (λ _. omega arith)
          (λ _. omega arith) in
      record {
        for_heartbeat = omega arith;
        for_samples = λ dirty.
            let soon : changed ≤ j.last_publish + cfg.tracked_publish = rw dirty (omega arith) in
            omega arith;
        for_change = λ some_left.
            let soon : scheduled ≤ reads.instant + wait =
              rw (lt→ltb 0 j.timeline.scheduled_len some_left) (omega arith) in
            omega arith;
      }
