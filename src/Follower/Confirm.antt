-- ===== src/Follower/Confirm.antt =====
-- The count of large errors of `FollowerCore` in protocol/src/timeline.rs: what it takes for a
-- position to be realigned at once.
use ethersync.Base.{
  ℕ, ◌≤◌, ◌<◌, ◌≡◌, refl, max, Bool, true, false, not, ◌&&◌, ◌||◌, Option, none, some, ltb, leb,
  ◌==◌, if◌then◌else◌, if_elim, arith, List, [], ◌∷◌,
}
use ethersync.Base.Int.{ℤ, eqb_ℤ, pos, negsuc}
use ethersync.Base.Float.{Float, ◌≺◌, abs, literal}
use ethersync.Timecode.Defs.{Position}
use ethersync.Timeline.Defs.{Timeline, at, latch}
use ethersync.Clock.{Exchange, leader_time, observe_timed}
use ethersync.Follower.View.{Reading, evaluate}
use ethersync.Follower.Core.{
  Correction, slew, hard_resync, discontinuity, new_session, FollowerCore, eq_bytes, eq_format,
  other_session, moved_on, disconnect, apart, count_large, start_slew, correct, start_session,
  update_session, state, remap, is_some, mapped, measure, measurement_timed, tick,
}
use ethersync.Follower.Runs.{Event, received, measured, ticked, lost, step, run}

module _ {F : Type 0} ⦃fl : Float F⦄ where
  -- The count of large errors has not reached the confirmations asked for.
  pub record IsCounting (c : FollowerCore F) : Type 0 where
    pub below : c.large < c.policy.confirmations

  -- Not a hard realignment.
  abbrev pub IsGentle : Option (Correction F) → Type 0
  IsGentle none = Unit
  IsGentle (some (slew x)) = Unit
  IsGentle (some (hard_resync x)) = ⊥
  IsGentle (some (discontinuity d)) = Unit
  IsGentle (some new_session) = Unit

  -- `r` counts on, and it is no hard realignment unless one is allowed.
  abbrev Outcome : Bool → Option (Correction F) × FollowerCore F → Type 0
  Outcome allowed r = IsCounting r.1 × (allowed ≡ false → IsGentle r.0)

  slew-Outcome :
      (allowed : Bool) (c : FollowerCore F) (error : F) (now : ℕ)
      → IsCounting c
      → Outcome allowed (start_slew c error now)
  unfolding start_slew
  slew-Outcome allowed c error now h = (record { below = h.below }, λ _. tt)

  count_large-le :
      (c : FollowerCore F) (error : F) (measurement : Bool)
      → measurement ≡ false
      → (count_large c error measurement).0 ≤ c.large
  unfolding count_large
  count_large-le c error false h =
      let sign : ℤ = if literal 0 0 ≺ error then pos 1 else negsuc 0 in
      if_elim (λ (n : ℕ). n ≤ c.large) (eqb_ℤ sign c.large_sign) (λ _. omega arith)
        (λ _. omega arith)
  count_large-le c error true h = cc

  correct-Outcome :
      (c : FollowerCore F) (before : Position) (now : ℕ) (measurement : Bool)
      → IsCounting c
      → Outcome measurement (correct c before now measurement)
  unfolding correct
  correct-Outcome c before now m h =
      let P = Outcome m in
      let error : F = apart before (at c.view.timeline (leader_time c.view.mapping now)).0 in
      let some_asked : 0 < c.policy.confirmations = omega (arith, h.below) in
      let n = count_large c error m in
      let counted = record c { large = n.0; large_sign = n.1 } in
      if_elim P (c.policy.hard_threshold_frames ≺ abs error)
        (λ _.
          if_elim P (leb c.policy.confirmations (count_large c error m).0)
            (λ full. (
              record { below = some_asked },
              λ off. let le = count_large-le c error m off in absurd (ground arith),
            ))
            (λ short. slew-Outcome m counted error now (record { below = ground arith })))
        (λ _. slew-Outcome m (record c { large = 0 }) error now (record { below = some_asked }))

  update_session-Outcome :
      (c : FollowerCore F) (t : Timeline) (before : Reading F) (now : ℕ)
      → IsCounting c
      → Outcome false (update_session c t before now)
  unfolding update_session
  update_session-Outcome c t before now h =
      let P = Outcome false in
      let some_asked : 0 < c.policy.confirmations = omega (arith, h.below) in
      let disc = (at t (leader_time c.view.mapping now)).2 in
      let newer = record c { view = record c.view { timeline = t } } in
      if_elim P
        (ltb t.discontinuity before.discontinuity
          || (not (eq_format t.format c.view.timeline.format)
              && (t.discontinuity == before.discontinuity)))
        (λ _. (h, λ _. tt))
        (λ _.
          if_elim P (not (disc == before.discontinuity))
            (λ _. (record { below = some_asked }, λ _. tt))
            (λ _. correct-Outcome newer before.position now false (record { below = h.below })))

  state-Outcome :
      (c : FollowerCore F) (t : Timeline) (now : ℕ) → IsCounting c → Outcome false (state c t now)
  unfolding state start_session
  state-Outcome c t now h =
      let P = Outcome false in
      let some_asked : 0 < c.policy.confirmations = omega (arith, h.below) in
      let before = evaluate c.view now in
      let expecting = record c { expected_session = some t.session } in
      let latched = latch (max c.view.timeline.discontinuity before.discontinuity) t in
      if_elim P (other_session c.expected_session t.session) (λ _. (h, λ _. tt))
        (λ _.
          if_elim P (not (eq_bytes c.view.timeline.session t.session))
            (λ _. (record { below = some_asked }, λ _. tt))
            (λ _.
              if_elim P (leb t.revision c.view.timeline.revision)
                (λ _. (record { below = h.below }, λ _. tt))
                (λ _.
                  update_session-Outcome expecting latched before now
                    (record { below = h.below }))))

  remap-Outcome :
      (c : FollowerCore F) (before : Reading F) (now : ℕ) (acquired : Bool)
      → IsCounting c
      → Outcome true (remap c before now acquired)
  unfolding remap
  remap-Outcome c before now acquired h =
      let P = Outcome true in
      let some_asked : 0 < c.policy.confirmations = omega (arith, h.below) in
      let disc = (at c.view.timeline (leader_time c.view.mapping now)).2 in
      if_elim P (not acquired) (λ _. (record { below = h.below }, λ e. absurd (ground arith)))
        (λ _.
          if_elim P (not (disc == before.discontinuity))
            (λ _. (record { below = some_asked }, λ e. absurd (ground arith)))
            (λ _. correct-Outcome c before.position now true h))

  measurement_timed-Outcome :
      (c : FollowerCore F) (e : Exchange) (publication : Option ℕ) (processed : ℕ)
      → IsCounting c
      → Outcome true (measurement_timed c e publication processed)
  unfolding measurement_timed measure
  measurement_timed-Outcome c e publication processed h =
      let P = Outcome true in
      let now = max processed e.t4 in
      let r = observe_timed c.estimator e publication processed in
      if_elim P (is_some c.expected_session)
        (λ _.
          if_elim P r.0
            (λ _.
              remap-Outcome (mapped c r.1) (evaluate c.view now) now c.ever_locked
                (record { below = h.below }))
            (λ _. (record { below = h.below }, λ e. absurd (ground arith))))
        (λ _. (h, λ e. absurd (ground arith)))

  tick-Outcome :
      (c : FollowerCore F) (now stale_after : ℕ)
      → IsCounting c
      → Outcome false (tick c now stale_after)
  unfolding tick
  tick-Outcome c now stale_after h =
      let P = Outcome false in
      let disc = (at c.view.timeline (leader_time c.view.mapping now)).2 in
      let some_asked : 0 < c.policy.confirmations = omega (arith, h.below) in
      if_elim P (c.view.mapping.last_sample_ns == 0) (λ _. (h, λ _. tt))
        (λ _.
          if_elim P (moved_on c.reported_discontinuity c.view.timeline.session disc)
            (λ _. (record { below = some_asked }, λ _. tt))
            (λ _. (record { below = h.below }, λ _. tt)))

  run-IsCounting : (c : FollowerCore F) (es : List Event) → IsCounting c → IsCounting (run c es)
  unfolding disconnect
  run-IsCounting c [] h = h
  run-IsCounting c (received t now ∷ es) h =
      run-IsCounting (step c (received t now)) es (state-Outcome c t now h).0
  run-IsCounting c (measured e publication processed ∷ es) h =
      run-IsCounting (step c (measured e publication processed)) es
        (measurement_timed-Outcome c e publication processed h).0
  run-IsCounting c (ticked now stale_after ∷ es) h =
      run-IsCounting (step c (ticked now stale_after)) es (tick-Outcome c now stale_after h).0
  run-IsCounting c (lost ∷ es) h = run-IsCounting (disconnect c) es (record { below = h.below })

  -- Where the count of large errors starts below the confirmations that the policy asks for, no
  -- state that is received after any run of events yields a hard resync: what it yields is nothing,
  -- a slew, a new session or a discontinuity.
  pub state-IsGentle :
      (c : FollowerCore F) (es : List Event) (t : Timeline) (now : ℕ)
      → c.large < c.policy.confirmations
      → IsGentle (state (run c es) t now).0
  state-IsGentle c es t now h =
      (state-Outcome (run c es) t now (run-IsCounting c es (record { below = h }))).1 refl
