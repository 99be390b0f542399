-- ===== src/Follower/Reports.antt =====
-- What `FollowerCore` in protocol/src/timeline.rs reports to its owner and shows to its readers.
use ethersync.Base.{
  ℕ, ◌≡◌, refl, sym, ap, inl, inr, true, false, Option, none, some, ◌==◌, ==_iff, Bool-cases,
  if_elim, arith,
}
use ethersync.Base.Float.{Float}
use ethersync.Timecode.Motion.{paused}
use ethersync.Wire.Messages.{Bytes}
use ethersync.Timeline.Defs.{Timeline, Segment, SyncState, at, segment_at, latch}
use ethersync.Timeline.Schedule.{IsTimeline}
use ethersync.Timeline.Latch.{latch-Kept, latch-LatchedAt}
use ethersync.Clock.{leader_time}
use ethersync.Follower.View.{evaluate}
use ethersync.Follower.Core.{
  Correction, new_session, FollowerCore, eq_bytes, other_session, moved_on, connect, disconnect,
  discontinuity_at, start_session, state, tick,
}
use ethersync.Follower.Monotone.{eq_bytes_self}

-- A timeline that is latched at what it plays keeps the session and plays the same.
latched_key :
    (t : Timeline) (time : ℕ)
    → IsTimeline t
    → (t.session ≡ (latch (at t time).2 t).session)
      × ((at t time).2 ≡ (at (latch (at t time).2 t) time).2)
unfolding at
latched_key t time v =
    let l = latch-LatchedAt t time v in
    let k = latch-Kept t (segment_at t time).discontinuity v in
    (sym k.session_kept, ap (λ (g : Segment). g.discontinuity) (sym (l.future time (omega arith))))

key_cong :
    {s s' : Bytes} {d d' : ℕ}
    → s ≡ s'
    → d ≡ d'
    → ◌≡◌ {A = Option (Bytes × ℕ)} (some (s, d)) (some (s', d'))
key_cong e e' = cc

module _ {F : Type 0} ⦃fl : Float F⦄ where
  not_moved_on :
      (c : FollowerCore F) (now : ℕ)
      → c.reported_discontinuity ≡ some (c.view.timeline.session, discontinuity_at c.view now)
      → moved_on c.reported_discontinuity c.view.timeline.session (discontinuity_at c.view now)
        ≡ false
  unfolding moved_on
  not_moved_on c now h =
      let d = discontinuity_at c.view now in
      let same = (==_iff d d).1 refl in
      rw h (rw same (rw (eq_bytes_self c.view.timeline.session) refl))

  tick_reported :
      (c : FollowerCore F) (now stale_after : ℕ)
      → c.reported_discontinuity ≡ some (c.view.timeline.session, discontinuity_at c.view now)
      → (tick c now stale_after).0 ≡ none
  unfolding tick
  tick_reported c now stale_after h =
      let P : Option (Correction F) × FollowerCore F → Type 0 = λ r. r.0 ≡ none in
      let d = discontinuity_at c.view now in
      let still = not_moved_on c now h in
      if_elim P (c.view.mapping.last_sample_ns == 0) (λ _. refl)
        (λ _.
          if_elim P (moved_on c.reported_discontinuity c.view.timeline.session d)
            (λ moved. absurd (ground arith)) (λ _. refl))

  first_tick :
      (c : FollowerCore F) (now stale_after : ℕ)
      → (c.view.mapping.last_sample_ns == 0) ≡ true
      → (tick c now stale_after).0 ≡ none
  unfolding tick
  first_tick c now stale_after h = rw h refl

  -- A tick leaves nothing to report for another tick at the same time.
  pub tick_twice :
      (c : FollowerCore F) (now stale_after : ℕ)
      → IsTimeline c.view.timeline
      → (tick (tick c now stale_after).1 now stale_after).0 ≡ none
  tick_twice c now stale_after v =
      let P : Option (Correction F) × FollowerCore F → Type 0 =
        λ r. (tick r.1 now stale_after).0 ≡ none in
      let d = discontinuity_at c.view now in
      let (session, disc) = latched_key c.view.timeline (leader_time c.view.mapping now) v in
      let key = key_cong session disc in
      unfold tick in
      if_elim P (c.view.mapping.last_sample_ns == 0) (λ unset. first_tick c now stale_after unset)
        (λ _.
          if_elim P (moved_on c.reported_discontinuity c.view.timeline.session d)
            (λ _. tick_reported _ now stale_after key) (λ _. tick_reported _ now stale_after key))

  -- A state of another session than the one played, which a new connection accepts, starts over:
  -- right after it readers get the position and the format of the fallback, at rest, not aligned
  -- and not initialized, at whatever time they ask.
  pub state-new_session :
      (c : FollowerCore F) (t : Timeline) (now later : ℕ)
      → eq_bytes c.view.timeline.session t.session ≡ false
      → ((state (connect c) t now).0 ≡ some new_session)
        × ((evaluate (state (connect c) t now).1.view later).position ≡ c.view.fallback_position)
        × ((evaluate (state (connect c) t now).1.view later).format ≡ c.view.fallback_format)
        × ((evaluate (state (connect c) t now).1.view later).rate ≡ paused)
        × ((evaluate (state (connect c) t now).1.view later).status.aligned ≡ false)
        × ((evaluate (state (connect c) t now).1.view later).status.synchronization
            ≡ SyncState.uninitialized)
  unfolding state connect other_session evaluate start_session
  state-new_session c t now later h = rw h (refl, refl, refl, refl, refl, refl)

  -- Right after a loss no reading counts as aligned, at whatever time it is taken.
  pub evaluate-disconnect :
      (c : FollowerCore F) (now : ℕ) → (evaluate (disconnect c).view now).status.aligned ≡ false
  unfolding evaluate disconnect
  evaluate-disconnect c now = elim (Bool-cases (c.view.mapping.last_sample_ns == 0)) [
    | inl e ↦ rw e refl
    | inr e ↦ rw e refl
  ]
