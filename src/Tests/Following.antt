-- ===== src/Tests/Following.antt =====
-- The follower's job at concrete inputs.
use ethersync.Base.{
  ◌+◌, ◌≤◌, ◌<◌, ◌≡◌, ◌⊎◌, refl, sym, true, Option, none, some, List, [], ◌∷◌, ok, arith,
}
use ethersync.Base.Int.{ℤ}
use ethersync.Native.Readers.{Input, add, Added, add-Added}
use ethersync.Wire.Messages.{Bytes, Snapshot, Probe}
use ethersync.Wire.Validate.{Codec}
use ethersync.Timeline.Convert.{wire, anchor_wire}
use ethersync.Timeline.Decode.{SnapshotInRange}
use ethersync.Timeline.Schedule.{IsTimeline}
use ethersync.Follower.View.{default_view}
use ethersync.Follower.Core.{default_policy}
use ethersync.FollowerJob.Defs.{
  FollowerConfig, FollowerJob, LossReads, two_seconds, fallback, new_job, lose,
}
use ethersync.FollowerJob.Pass.{Arrivals, DeadlineReads, deadline}
use ethersync.FollowerJob.Invariant.{DecodesInRange, HasRetries, IsJob}
use ethersync.FollowerJob.Steps.{run, run-IsJob, new_job-IsJob}
use ethersync.FollowerJob.Backoff.{wait_after, Waits, lose-Waits, Wakes, deadline-Wakes}
use ethersync.Tests.Samples.{
  decimal_float, ones, ntsc, ntsc-IsFormat, frame_9, frame_9-IsPosition, running,
}
use ethersync.Base.Int.{pos}
use ethersync.Timecode.Rates.{IsRate}
use ethersync.Clock.Probes.{default_probes}
use ethersync.Follower.Sound.{IsSound}
use ethersync.Browser.{Browser}
use ethersync.Browser.Calls.{
  Call, to_connected, to_disconnected, with_snapshot, with_probe, with_read, run_calls,
  run_calls-IsSound,
}
use ethersync.Timecode.Motion.{paused, gcd, gcd_loop}

-- An encoding that knows one state.
abbrev read_state : Bytes → Option Snapshot
read_state [] = none
read_state (n ∷ bytes) = some (wire (running ones 2))

abbrev one_state : Codec Snapshot
one_state = record { encode_to_vec = λ m. 1 ∷ []; decode_message = read_state }

abbrev no_probes : Codec Probe
no_probes = record { encode_to_vec = λ m. []; decode_message = λ bytes. none }

state-InRange : SnapshotInRange (wire (running ones 2))
unfolding wire anchor_wire
state-InRange = record {
  anchor_in = ((omega arith, omega arith), omega arith);
  schedule_in = (((omega arith, omega arith), omega arith), tt);
}

one_state-DecodesInRange : DecodesInRange one_state
one_state-DecodesInRange [] s h = cc
one_state-DecodesInRange (n ∷ bytes) s h =
    let same : wire (running ones 2) ≡ s = cc in rw (sym same) state-InRange

abbrev pub settings : FollowerConfig ℤ
settings = record {
  acquisition_probe = 50_000_000;
  steady_probe = 250_000_000;
  connect_timeout = 3_000_000_000;
  retry_min = 100_000_000;
  retry_max = 5_000_000_000;
  correction = default_policy;
  fallback_position = frame_9;
  fallback_format = ntsc;
}

settings-HasRetries : HasRetries settings
settings-HasRetries = record { ordered = omega arith; within = omega arith }

paused-IsRate : IsRate paused
unfolding gcd gcd_loop
paused-IsRate = record {
  den_pos = omega arith;
  den_le = omega arith;
  num_le = omega arith;
  at_most_64 = omega arith;
  lowest = refl;
}

fallback-IsTimeline : IsTimeline (fallback settings)
unfolding fallback
fallback-IsTimeline = record {
  session_in = refl;
  session_id_in = tt;
  format_in = ntsc-IsFormat;
  anchor_in = record {
    time_in = omega arith;
    position_in = frame_9-IsPosition;
    rate_in = paused-IsRate;
  };
  slots = refl;
  len_in = omega arith;
  ascending = tt;
}

abbrev pub idle : FollowerJob ℤ
idle = new_job settings 0 0 0

idle-IsJob : IsJob settings idle
idle-IsJob = new_job-IsJob settings 0 0 0 settings-HasRetries fallback-IsTimeline

-- A pass in which the dial succeeds, and the peer brings a state.
abbrev arrivals : Arrivals
arrivals = record {
  io = ok tt;
  queue = [];
  retry_instant = 10;
  began_at = 10;
  dialled = ok tt;
  peer = ok true;
  established_at = 20;
  replies = [];
  states = (ok tt, 30) ∷ [];
  frame = some (ok 1);
  bytes = some (ok (1 ∷ []));
  state_ns = 40;
  timeout_instant = 40;
  probe = record {
    instant = 40;
    sent_ns = 40;
    appended = ok tt;
    finished_ns = 41;
    rtt_ns = 0;
    lost_packets = 0;
    next_instant = 42;
    fast_ns = 42;
  };
}

abbrev loss : LossReads
loss = record { elapsed_at = 50; retry_at = 60; reconnect_at = 70 }

run-IsJob_example :
    IsJob settings
      (run one_state no_probes settings idle ((arrivals, loss, 45) ∷ (arrivals, loss, 80) ∷ []))
run-IsJob_example =
    run-IsJob one_state no_probes settings idle ((arrivals, loss, 45) ∷ (arrivals, loss, 80) ∷ [])
      one_state-DecodesInRange settings-HasRetries idle-IsJob

lose-Waits_example :
    ((50 ≤ idle.began + two_seconds)
      × Waits 60 (wait_after settings 0) (wait_after settings 1) (lose settings idle loss))
    ⊎ ((idle.began + two_seconds < 50)
        × Waits 60 settings.retry_min (wait_after settings 1) (lose settings idle loss))
unfolding new_job
lose-Waits_example = lose-Waits settings idle 0 loss settings-HasRetries refl

abbrev waking : DeadlineReads
waking = record { transport_deadline = some 500; peer_deadline = 0; instant = 100; now_ns = 100 }

deadline-Wakes_example : Wakes idle waking (deadline idle waking)
deadline-Wakes_example = deadline-Wakes idle waking

abbrev two_inputs : List (Input ℤ)
two_inputs =
    record { written = default_view; strong_count = 0 }
    ∷ record { written = default_view; strong_count = 1 }
    ∷ []

add-Added_test : Added two_inputs default_view (add two_inputs default_view)
add-Added_test = add-Added two_inputs default_view (omega arith)

abbrev page : Browser ℤ
page = record { core = idle.core; probes = default_probes; last_event = none }

abbrev calls : List (Call ℤ)
calls =
    to_connected
    ∷ with_snapshot (1 ∷ []) (pos 20_000)
    ∷ with_probe (pos 30_000)
    ∷ with_read (pos 40_000) (pos 10_000)
    ∷ to_disconnected
    ∷ []

run_calls-IsSound_example : IsSound (run_calls one_state no_probes page calls).core
run_calls-IsSound_example =
    run_calls-IsSound one_state no_probes page calls one_state-DecodesInRange idle-IsJob.sound
