-- ===== src/Follower/Core.antt =====
-- protocol/src/timeline.rs: `FollowerCore`. A function that the source lets change the follower
-- returns its result with the new follower.
use ethersync.Base.{
  ℕ, ◌+◌, ◌-◌, min, max, Bool, true, false, not, ◌&&◌, ◌||◌, Option, none, some, [], ◌∷◌, ltb, leb,
  ◌==◌, bool_ne, if◌then◌else◌,
}
use ethersync.Base.Int.{ℤ, pos, negsuc, ◌-ℤ◌, eqb_ℤ}
use ethersync.Base.Float.{Float, ◌⊗◌, ◌⊘◌, ◌≺◌, literal, of_ℕ, of_ℤ, abs}
use ethersync.Timecode.Defs.{Position, FrameFormat}
use ethersync.Timecode.Motion.{fixed}
use ethersync.Wire.Messages.{Bytes}
use ethersync.Timeline.{ConnectionState, SyncState, Timeline, at, latch}
use ethersync.Clock.{
  Exchange, ClockEstimator, default_mapping, default_estimator, leader_time, observe_timed,
  recovering, u64_max,
}
use ethersync.Follower.View.{View, Reading, default_view, evaluate}
pub mod Data
unfoldable pub use Data.*

module _ {F : Type 0} ⦃fl : Float F⦄ where
  unfoldable pub legacy : CorrectionPolicy F
  legacy = record {
    settle_time_ns = 0;
    slew_frames_per_second = literal 3 2;
    hard_threshold_frames = literal 1 0;
    confirmations = 3;
  }

  unfoldable pub default_policy : CorrectionPolicy F
  unfolding legacy
  default_policy = record legacy { settle_time_ns = 250_000_000 }

  unfoldable pub new : Timeline → CorrectionPolicy F → FollowerCore F
  new fallback policy = record {
    view = record default_view {
      timeline = fallback;
      fallback_position = fallback.anchor.position;
      fallback_format = fallback.format;
      slew_frames_per_second = policy.slew_frames_per_second;
    };
    estimator = default_estimator;
    policy = policy;
    large = 0;
    large_sign = pos 0;
    ever_locked = false;
    expected_session = none;
    reported_discontinuity = none;
  }

  unfoldable pub connect : FollowerCore F → FollowerCore F
  connect c = record c {
    large = 0;
    large_sign = pos 0;
    expected_session = none;
    view = record c.view { connection = ConnectionState.connected };
  }

  -- The discontinuity that the follower's own timeline is in at a local time.
  abbrev pub discontinuity_at : View F → ℕ → ℕ
  discontinuity_at v now = (at v.timeline (leader_time v.mapping now)).2

  -- The two 32.32 positions, as frames apart.
  unfoldable pub apart : Position → Position → F
  apart a b = of_ℤ (fixed a -ℤ fixed b) ⊘ literal 4_294_967_296 0

  -- The resync generation is a `u64` and saturates, and `large` is a `u8` that does.
  abbrev pub resynced : View F → View F
  resynced v = record v {
    correction_frames = literal 0 0;
    resync_generation = min u64_max (v.resync_generation + 1);
  }

  abbrev pub no_run : FollowerCore F → FollowerCore F
  no_run c = record c { large = 0; large_sign = pos 0 }

  -- The count of large errors in one direction, and the direction.
  unfoldable pub count_large : FollowerCore F → F → Bool → ℕ × ℤ
  count_large c error measurement =
      let sign = if literal 0 0 ≺ error then pos 1 else negsuc 0 in
      let kept = if eqb_ℤ sign c.large_sign then c.large else 0 in
      (if measurement then min 255 (kept + 1) else kept, sign)

  -- The end of `correct`: a slew from the position shown before.
  unfoldable pub start_slew : FollowerCore F → F → ℕ → Option (Correction F) × FollowerCore F
  start_slew c error now =
      let rate =
        if c.policy.settle_time_ns == 0
        then c.policy.slew_frames_per_second
        else abs error ⊗ literal 1_000_000_000 0 ⊘ of_ℕ c.policy.settle_time_ns in
      (
        some (slew (fl.neg error)),
        record c {
          view = record c.view {
            correction_frames = error;
            slew_frames_per_second = rate;
            correction_at = now;
            correction_discontinuity = discontinuity_at c.view now;
          };
        },
      )

  unfoldable pub correct :
      FollowerCore F → Position → ℕ → Bool → Option (Correction F) × FollowerCore F
  unfolding apart count_large start_slew
  correct c before now measurement =
      let desired = (at c.view.timeline (leader_time c.view.mapping now)).0 in
      let error = apart before desired in
      let (large, sign) = count_large c error measurement in
      let counted = record c { large = large; large_sign = sign } in
      if c.policy.hard_threshold_frames ≺ abs error
      then (if leb c.policy.confirmations large
          then (
            some (hard_resync (fl.neg error)),
            record counted { large = 0; view = resynced c.view },
          )
          else start_slew counted error now)
      else start_slew (record c { large = 0 }) error now

  -- The resets for a new session, with the timeline taken.
  unfoldable pub start_session : FollowerCore F → Timeline → FollowerCore F
  start_session c t = record (no_run c) {
    estimator = default_estimator;
    ever_locked = false;
    view = resynced (record c.view {
      timeline = t;
      mapping = default_mapping;
      sync = SyncState.acquiring;
      recovering = false;
    });
  }

  -- A newer revision within the session, with the reading before it.
  unfoldable pub update_session :
      FollowerCore F → Timeline → Reading F → ℕ → Option (Correction F) × FollowerCore F
  unfolding correct eq_format
  update_session c latched before now =
      let taken = record c { view = record c.view { timeline = latched } } in
      let disc = (at latched (leader_time c.view.mapping now)).2 in
      if ltb latched.discontinuity before.discontinuity
        || (not (eq_format latched.format c.view.timeline.format)
            && (latched.discontinuity == before.discontinuity))
      then (none, c)
      else if not (disc == before.discontinuity)
      then (
        some (discontinuity disc),
        record (no_run taken) {
          view = record taken.view { correction_frames = literal 0 0 };
          reported_discontinuity = some (latched.session, disc);
        },
      )
      else correct taken before.position now false

  unfoldable pub state : FollowerCore F → Timeline → ℕ → Option (Correction F) × FollowerCore F
  unfolding other_session start_session update_session
  state c t now =
      let expecting = record c { expected_session = some t.session } in
      let before = evaluate c.view now in
      if other_session c.expected_session t.session
      then (none, c)
      else if not (eq_bytes c.view.timeline.session t.session)
      then (some new_session, start_session expecting t)
      else if leb t.revision c.view.timeline.revision
      then (none, expecting)
      else update_session expecting
          (latch (max c.view.timeline.discontinuity before.discontinuity) t) before now

  -- `measurement_timed` from the new mapping on; `acquired` tells if the clock was locked before.
  unfoldable pub remap :
      FollowerCore F → Reading F → ℕ → Bool → Option (Correction F) × FollowerCore F
  unfolding correct apart
  remap c before now acquired =
      let (desired, _, disc) = at c.view.timeline (leader_time c.view.mapping now) in
      if not acquired
      then (some (hard_resync (apart desired before.position)), record c { view = resynced c.view })
      else if not (disc == before.discontinuity)
      then (
        some (discontinuity disc),
        record (no_run c) {
          view = record c.view { correction_frames = literal 0 0 };
          reported_discontinuity = some (c.view.timeline.session, disc);
        },
      )
      else correct c before.position now true

  -- The follower with the new state of its estimator, and with the mapping as well.
  abbrev pub observed : FollowerCore F → ClockEstimator F → FollowerCore F
  observed c estimator = record c {
    estimator = estimator;
    view = record c.view { recovering = recovering estimator };
  }

  abbrev pub mapped : FollowerCore F → ClockEstimator F → FollowerCore F
  mapped c estimator =
      let locked = estimator.mapping.converged in
      record (observed c estimator) {
        ever_locked = c.ever_locked || locked;
        view = record (observed c estimator).view {
          mapping = estimator.mapping;
          sync = if locked then SyncState.synchronized else SyncState.acquiring;
        };
      }

  unfoldable pub measure :
      FollowerCore F → Exchange → Option ℕ → ℕ → Option (Correction F) × FollowerCore F
  unfolding remap
  measure c e publication processed =
      let now = max processed e.t4 in
      let before = evaluate c.view now in
      let r = observe_timed c.estimator e publication processed in
      if r.0 then remap (mapped c r.1) before now c.ever_locked else (none, observed c r.1)

  -- `self.expected_session?` ends the call before any session is known.
  unfoldable pub measurement_timed :
      FollowerCore F → Exchange → Option ℕ → ℕ → Option (Correction F) × FollowerCore F
  unfolding measure
  measurement_timed c e publication processed =
      if is_some c.expected_session then measure c e publication processed else (none, c)

  unfoldable pub needs_fast_probes : FollowerCore F → ℕ → Bool
  needs_fast_probes c now = recovering c.estimator || not (evaluate c.view now).status.aligned

  unfoldable pub tick : FollowerCore F → ℕ → ℕ → Option (Correction F) × FollowerCore F
  unfolding moved_on
  tick c now stale_after =
      let disc = discontinuity_at c.view now in
      let session = c.view.timeline.session in
      let stale = ltb stale_after (now - c.view.mapping.last_sample_ns) in
      let ticked = record c {
        view = record c.view {
          sync = if stale then SyncState.holdover else c.view.sync;
          timeline = latch disc c.view.timeline;
        };
        reported_discontinuity = some (session, disc);
      } in
      if c.view.mapping.last_sample_ns == 0
      then (none, c)
      else if moved_on c.reported_discontinuity session disc
      then (some (discontinuity disc), no_run ticked)
      else (none, ticked)

  unfoldable pub disconnect : FollowerCore F → FollowerCore F
  disconnect c = record c {
    view = record c.view {
      connection = ConnectionState.disconnected;
      sync = if c.view.mapping.last_sample_ns == 0 then c.view.sync else SyncState.holdover;
    };
  }
