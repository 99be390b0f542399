-- ===== src/FollowerJob/Steps.antt =====
-- Every step of `FollowerJob` in native/src/network.rs keeps its invariant, whatever the transport
-- has for it, and so does every run of steps.
use ethersync.Base.{
  ℕ, zero, suc, ◌≡◌, refl, Bool, true, false, List, [], ◌∷◌, leb, ◌==◌, if_elim, Result, ok, err,
  All, arith,
}
use ethersync.Base.Float.{Float}
use ethersync.Native.{NativeError}
use ethersync.Native.Readers.{Shows, publish-Shows}
use ethersync.Wire.Messages.{Bytes, Snapshot, Probe}
use ethersync.Wire.Validate.{Codec}
use ethersync.Timecode.Defs.{Error}
use ethersync.Timeline.Schedule.{IsTimeline}
use ethersync.Clock.Probes.{Probes, request}
use ethersync.Follower.Sound.{new-IsSound, tick-IsSound}
use ethersync.Leader.State.{Command, to_session_id, to_reader, to_change, to_sample, to_reconnect}
use ethersync.FollowerJob.Defs.{
  FollowerConfig, FollowerJob, LossReads, fallback, new_job, lose, handle, commands,
}
use ethersync.FollowerJob.Receive.{
  Stage, and_then, ProbeReads, dial, establish, datagrams, groups, next_frame, read_frame, time_out,
  probed, send_probe,
}
use ethersync.FollowerJob.Pass.{Arrivals, exchange, advanced, with_peer, progress, recover, step}
use ethersync.FollowerJob.Stages.{
  dial-Keeps, establish-IsJob, datagrams-Keeps, groups-Keeps, next_frame-Keeps, read_frame-Keeps,
  time_out-Keeps, asked-Keeps,
}
use ethersync.FollowerJob.Invariant.{
  DecodesInRange, HasRetries, IsJob, Keeps, same_links, and_then-Keeps, lose-IsJob,
}

module _ {F : Type 0} ⦃fl : Float F⦄ where
  handle-IsJob :
      (cfg : FollowerConfig F) (j : FollowerJob F) (c : Command) (reads : LossReads)
      → HasRetries cfg
      → IsJob cfg j
      → IsJob cfg (handle cfg j c reads).1
  unfolding handle
  handle-IsJob cfg j to_reader reads r h =
      same_links cfg j _ h h.sound refl refl refl refl refl refl
  handle-IsJob cfg j to_reconnect reads r h =
      let lost = lose-IsJob cfg j reads r h in
      same_links cfg (lose cfg j reads) _ lost lost.sound refl refl refl refl refl refl
  handle-IsJob cfg j (to_change change effective) reads r h = h
  handle-IsJob cfg j (to_sample s) reads r h = h
  handle-IsJob cfg j (to_session_id id) reads r h = h

  commands-IsJob :
      (n : ℕ) (cfg : FollowerConfig F) (j : FollowerJob F) (queue : List (Command × LossReads))
      → HasRetries cfg
      → IsJob cfg j
      → IsJob cfg (commands n cfg j queue).1
  unfolding commands
  commands-IsJob zero cfg j queue r h = h
  commands-IsJob (suc n) cfg j [] r h = h
  commands-IsJob (suc n) cfg j ((c, reads) ∷ queue) r h =
      let one = handle-IsJob cfg j c reads r h in
      let next = record (handle cfg j c reads).1 { command_more = n == 0 } in
      commands-IsJob n cfg next queue r
        (same_links cfg (handle cfg j c reads).1 next one one.sound refl refl refl refl refl refl)

  probed-Keeps :
      (cfg : FollowerConfig F) (j : FollowerJob F) (probes : Probes) (payload : Result Error Bytes)
      (appended : Result NativeError (Unit {0})) (reads : ProbeReads)
      → IsJob cfg j
      → Keeps cfg (probed cfg (record j { probes = probes }) payload appended reads)
  unfolding probed
  probed-Keeps cfg j probes (err e) appended reads h =
      same_links cfg j _ h h.sound refl refl refl refl refl refl
  probed-Keeps cfg j probes (ok payload) (err e) reads h =
      same_links cfg j _ h h.sound refl refl refl refl refl refl
  probed-Keeps cfg j probes (ok payload) (ok _) reads h = asked-Keeps cfg j probes reads h

  send_probe-Keeps :
      (c : Codec Probe) (cfg : FollowerConfig F) (j : FollowerJob F) (reads : ProbeReads)
      → IsJob cfg j
      → Keeps cfg (send_probe c cfg j reads)
  unfolding send_probe
  send_probe-Keeps c cfg j reads h =
      let (payload, probes) = request c j.probes reads.sent_ns in
      if_elim (Keeps cfg) (leb j.next_probe reads.instant)
        (λ _. probed-Keeps cfg j probes payload reads.appended reads h) (λ _. h)

  exchange-Keeps :
      (cs : Codec Snapshot) (cp : Codec Probe) (cfg : FollowerConfig F) (j : FollowerJob F)
      (a : Arrivals)
      → DecodesInRange cs
      → IsJob cfg j
      → j.has_peer ≡ true
      → Keeps cfg (exchange cs cp cfg j a)
  unfolding exchange
  exchange-Keeps cs cp cfg j a range h p =
      let sent : FollowerJob F → Stage F = λ k. send_probe cp cfg k a.probe in
      let timed : FollowerJob F → Stage F = λ k. and_then (time_out k a.timeout_instant) sent in
      let framed : FollowerJob F → Stage F =
        λ k. and_then (read_frame cs k a.bytes a.state_ns) timed in
      let grouped : FollowerJob F → Stage F = λ k. and_then (next_frame k a.frame) framed in
      let replied : FollowerJob F → Stage F = λ k. and_then (groups cfg 8 k a.states) grouped in
      let first = establish j a.established_at in
      and_then-Keeps cfg (datagrams cp 8 first a.replies) replied
        (datagrams-Keeps cp cfg 8 first a.replies (establish-IsJob cfg j a.established_at h p))
        (λ j1 h1.
          and_then-Keeps cfg (groups cfg 8 j1 a.states) grouped (groups-Keeps cfg 8 j1 a.states h1)
            (λ j2 h2.
              and_then-Keeps cfg (next_frame j2 a.frame) framed (next_frame-Keeps cfg j2 a.frame h2)
                (λ j3 h3.
                  and_then-Keeps cfg (read_frame cs j3 a.bytes a.state_ns) timed
                    (read_frame-Keeps cs cfg j3 a.bytes a.state_ns range h3)
                    (λ j4 h4.
                      and_then-Keeps cfg (time_out j4 a.timeout_instant) sent
                        (time_out-Keeps cfg j4 a.timeout_instant h4)
                        (λ j5 h5. send_probe-Keeps cp cfg j5 a.probe h5)))))

  advanced-Keeps :
      (cs : Codec Snapshot) (cp : Codec Probe) (cfg : FollowerConfig F)
      (peer : Result NativeError Bool) (j : FollowerJob F) (a : Arrivals)
      → DecodesInRange cs
      → IsJob cfg j
      → j.has_peer ≡ true
      → Keeps cfg (advanced cs cp cfg peer j a)
  unfolding advanced
  advanced-Keeps cs cp cfg (err e) j a range h p = h
  advanced-Keeps cs cp cfg (ok false) j a range h p = h
  advanced-Keeps cs cp cfg (ok true) j a range h p = exchange-Keeps cs cp cfg j a range h p

  with_peer-Keeps :
      (cs : Codec Snapshot) (cp : Codec Probe) (cfg : FollowerConfig F) (j : FollowerJob F)
      (a : Arrivals)
      → DecodesInRange cs
      → IsJob cfg j
      → Keeps cfg (with_peer cs cp cfg j a)
  unfolding with_peer
  with_peer-Keeps cs cp cfg j a range h =
      if_elim (Keeps cfg) j.has_peer (λ p. advanced-Keeps cs cp cfg a.peer j a range h p) (λ _. h)

  progress-Keeps :
      (cs : Codec Snapshot) (cp : Codec Probe) (cfg : FollowerConfig F)
      (io : Result NativeError (Unit {0})) (j : FollowerJob F) (a : Arrivals)
      → DecodesInRange cs
      → HasRetries cfg
      → IsJob cfg j
      → Keeps cfg (progress cs cp cfg io j a)
  unfolding progress
  progress-Keeps cs cp cfg (err e) j a range r h = h
  progress-Keeps cs cp cfg (ok _) j a range r h =
      let start = record j { command_more = false } in
      let handled = (commands 32 cfg start a.queue).1 in
      and_then-Keeps cfg (dial handled a.retry_instant a.began_at a.dialled)
        (λ k. with_peer cs cp cfg k a)
        (dial-Keeps cfg handled a.retry_instant a.began_at a.dialled (
          commands-IsJob 32 cfg start a.queue r
            (same_links cfg j start h h.sound refl refl refl refl refl refl)))
        (λ k hk. with_peer-Keeps cs cp cfg k a range hk)

  recover-IsJob :
      (cfg : FollowerConfig F) (s : Stage F) (reads : LossReads)
      → HasRetries cfg
      → Keeps cfg s
      → IsJob cfg (recover cfg s reads)
  unfolding recover
  recover-IsJob cfg (ok _, j) reads r h = h
  recover-IsJob cfg (err e, j) reads r h = lose-IsJob cfg j reads r h

  -- After a step the invariant holds and every reader shows the follower's view.
  pub record Stepped (cfg : FollowerConfig F) (j : FollowerJob F) : Type 0 where
    pub is_job : IsJob cfg j
    pub shown : All (Shows j.core.view) j.readers

  pub step-Stepped :
      (cs : Codec Snapshot) (cp : Codec Probe) (cfg : FollowerConfig F) (j : FollowerJob F)
      (a : Arrivals) (reads : LossReads) (now : ℕ)
      → DecodesInRange cs
      → HasRetries cfg
      → IsJob cfg j
      → Stepped cfg (step cs cp cfg j a reads now)
  unfolding step
  step-Stepped cs cp cfg j a reads now range r h =
      let k = recover cfg (progress cs cp cfg a.io j a) reads in
      let hk =
        recover-IsJob cfg (progress cs cp cfg a.io j a) reads r
          (progress-Keeps cs cp cfg a.io j a range r h) in
      record {
        is_job =
            same_links cfg k _ hk (tick-IsSound k.core now _ hk.sound) refl refl refl refl refl
              refl;
        shown = publish-Shows k.readers _;
      }

  -- The steps of a job, one after another.
  abbrev pub run :
      Codec Snapshot
      → Codec Probe
      → FollowerConfig F
      → FollowerJob F
      → List (Arrivals × LossReads × ℕ)
      → FollowerJob F
  run cs cp cfg j [] = j
  run cs cp cfg j ((a, reads, now) ∷ rest) = run cs cp cfg (step cs cp cfg j a reads now) rest

  -- Over any run of steps, whatever messages, errors, commands and losses come, a job whose
  -- intervals to retry after are in order, and whose decoded snapshots are in the range of their
  -- fields, keeps this: the follower's timeline is valid and its count of hard realignments fits 64
  -- bits, the wait for the next retry stays between the least and the most, there is no connection
  -- without a peer, no frame without a group, and no group without a deadline.
  pub run-IsJob :
      (cs : Codec Snapshot) (cp : Codec Probe) (cfg : FollowerConfig F) (j : FollowerJob F)
      (steps : List (Arrivals × LossReads × ℕ))
      → DecodesInRange cs
      → HasRetries cfg
      → IsJob cfg j
      → IsJob cfg (run cs cp cfg j steps)
  run-IsJob cs cp cfg j [] range r h = h
  run-IsJob cs cp cfg j ((a, reads, now) ∷ rest) range r h =
      run-IsJob cs cp cfg (step cs cp cfg j a reads now) rest range r
        (step-Stepped cs cp cfg j a reads now range r h).is_job

  -- A new job satisfies the invariant, if its fallback is a valid timeline.
  pub new_job-IsJob :
      (cfg : FollowerConfig F) (probe_at retry_at began_at : ℕ)
      → HasRetries cfg
      → IsTimeline (fallback cfg)
      → IsJob cfg (new_job cfg probe_at retry_at began_at)
  unfolding new_job
  new_job-IsJob cfg probe_at retry_at began_at r v = record {
    sound = new-IsSound (fallback cfg) cfg.correction v;
    least = omega arith;
    most = r.ordered;
    has_a_peer = λ e. cc;
    has_a_group = λ e. cc;
    has_a_deadline = λ e. cc;
  }
