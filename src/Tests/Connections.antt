-- ===== src/Tests/Connections.antt =====
-- The follower at concrete inputs.
use ethersync.Base.{◌≡◌, refl, false, none, some, [], ◌∷◌, arith}
use ethersync.Base.Int.{ℤ}
use ethersync.Timecode.Motion.{paused}
use ethersync.Timeline.{SyncState}
use ethersync.Clock.{Exchange}
use ethersync.Follower.View.{evaluate, default_view}
use ethersync.Follower.Core.{
  FollowerCore, connect, disconnect, state, tick, new, default_policy, legacy, new_session,
  eq_bytes,
}
use ethersync.Follower.Runs.{received, measured, ticked, lost, run, run-Onward}
use ethersync.Follower.Monotone.{IsBound, Onward}
use ethersync.Follower.Confirm.{IsGentle, state-IsGentle}
use ethersync.Follower.Reports.{tick_twice, state-new_session, evaluate-disconnect}
use ethersync.Tests.Samples.{decimal_float, ones, twos, running, running-ones-IsTimeline}

-- A follower that is bound to the session that it plays.
abbrev follower : FollowerCore ℤ
follower = record (new (running ones 1) default_policy) { expected_session = some ones }

follower-IsBound : IsBound follower
unfolding new default_view
follower-IsBound = record {
  valid = running-ones-IsTimeline 1;
  bound = refl;
  generation_fits = omega arith;
}

abbrev trip : Exchange
trip = record { t1 = 100; t2 = 1_000; t3 = 1_010; t4 = 140 }

run-Onward_example : Onward follower (
    run follower (received (running ones 2) 50 ∷ measured trip none 150 ∷ ticked 200 9 ∷ lost ∷ []))
run-Onward_example =
    run-Onward follower
      (received (running ones 2) 50 ∷ measured trip none 150 ∷ ticked 200 9 ∷ lost ∷ [])
      follower-IsBound (running-ones-IsTimeline 2, (tt, (tt, (tt, tt))))

state-IsGentle_example :
    IsGentle (state (run follower (measured trip none 150 ∷ [])) (running ones 2) 200).0
unfolding new default_policy legacy
state-IsGentle_example =
    state-IsGentle follower (measured trip none 150 ∷ []) (running ones 2) 200 (omega arith)

tick_twice_test : (tick (tick follower 200 9).1 200 9).0 ≡ none
unfolding new
tick_twice_test = tick_twice follower 200 9 (running-ones-IsTimeline 1)

evaluate-disconnect_test : (evaluate (disconnect follower).view 300).status.aligned ≡ false
evaluate-disconnect_test = evaluate-disconnect follower 300

state-new_session_test :
    ((state (connect follower) (running twos 1) 200).0 ≡ some new_session)
    × ((evaluate (state (connect follower) (running twos 1) 200).1.view 300).position
        ≡ follower.view.fallback_position)
    × ((evaluate (state (connect follower) (running twos 1) 200).1.view 300).format
        ≡ follower.view.fallback_format)
    × ((evaluate (state (connect follower) (running twos 1) 200).1.view 300).rate ≡ paused)
    × ((evaluate (state (connect follower) (running twos 1) 200).1.view 300).status.aligned ≡ false)
    × ((evaluate (state (connect follower) (running twos 1) 200).1.view 300).status.synchronization
        ≡ SyncState.uninitialized)
state-new_session_test =
    state-new_session follower (running twos 1) 200 300 (unfold new in unfold eq_bytes in refl)
