-- ===== src/Follower/Sound.antt =====
-- What every call keeps of a follower in protocol/src/timeline.rs, whether or not its connection is
-- bound to a session.
use ethersync.Base.{
  ℕ, ◌≤◌, max, false, not, ◌&&◌, ◌||◌, Option, some, leb, ltb, ◌==◌, if_elim, arith,
}
use ethersync.Base.Float.{Float}
use ethersync.Timeline.Defs.{Timeline, at, latch}
use ethersync.Timeline.Schedule.{IsTimeline}
use ethersync.Timeline.Latch.{latch-Kept}
use ethersync.Clock.{Exchange, leader_time, u64_max}
use ethersync.Follower.View.{Reading, default_view, evaluate}
use ethersync.Follower.Core.{
  Correction, FollowerCore, CorrectionPolicy, eq_bytes, eq_format, other_session, moved_on, new,
  connect, disconnect, discontinuity_at, start_session, update_session, state, is_some,
  measurement_timed, tick,
}
use ethersync.Follower.Monotone.{Onward, correct-Onward}
use ethersync.Follower.Runs.{measure-Onward}

module _ {F : Type 0} ⦃fl : Float F⦄ where
  -- The timeline is valid and the count of hard realignments fits 64 bits.
  pub record IsSound (c : FollowerCore F) : Type 0 where
    pub valid : IsTimeline c.view.timeline
    pub fits : c.view.resync_generation ≤ u64_max

  onward : (c d : FollowerCore F) → Onward c d → IsSound d
  onward c d h = record { valid = h.valid; fits = h.generation_fits }

  pub new-IsSound :
      (fallback : Timeline) (policy : CorrectionPolicy F)
      → IsTimeline fallback
      → IsSound (new fallback policy)
  unfolding new default_view
  new-IsSound fallback policy v = record { valid = v; fits = omega arith }

  pub connect-IsSound : (c : FollowerCore F) → IsSound c → IsSound (connect c)
  unfolding connect
  connect-IsSound c s = record { valid = s.valid; fits = s.fits }

  pub disconnect-IsSound : (c : FollowerCore F) → IsSound c → IsSound (disconnect c)
  unfolding disconnect
  disconnect-IsSound c s = record { valid = s.valid; fits = s.fits }

  update_session-IsSound :
      (c : FollowerCore F) (t : Timeline) (before : Reading F) (now : ℕ)
      → IsSound c
      → IsTimeline t
      → IsSound (update_session c t before now).1
  unfolding update_session
  update_session-IsSound c t before now s v =
      let P : Option (Correction F) × FollowerCore F → Type 0 = λ x. IsSound x.1 in
      let newer = record c { view = record c.view { timeline = t } } in
      if_elim P
        (ltb t.discontinuity before.discontinuity
          || (not (eq_format t.format c.view.timeline.format)
              && (t.discontinuity == before.discontinuity)))
        (λ _. s)
        (λ _.
          if_elim P (not ((at t (leader_time c.view.mapping now)).2 == before.discontinuity))
            (λ _. record { valid = v; fits = s.fits })
            (λ _. onward newer _ (correct-Onward newer before.position now false v s.fits)))

  pub state-IsSound :
      (c : FollowerCore F) (t : Timeline) (now : ℕ)
      → IsSound c
      → IsTimeline t
      → IsSound (state c t now).1
  unfolding state start_session
  state-IsSound c t now s v =
      let P : Option (Correction F) × FollowerCore F → Type 0 = λ x. IsSound x.1 in
      let expecting = record c { expected_session = some t.session } in
      let before = evaluate c.view now in
      let kept = latch-Kept t (max c.view.timeline.discontinuity before.discontinuity) v in
      if_elim P (other_session c.expected_session t.session) (λ _. s)
        (λ _.
          if_elim P (not (eq_bytes c.view.timeline.session t.session))
            (λ _. record { valid = v; fits = omega arith })
            (λ _.
              if_elim P (leb t.revision c.view.timeline.revision)
                (λ _. record { valid = s.valid; fits = s.fits })
                (λ _.
                  update_session-IsSound expecting
                    (latch (max c.view.timeline.discontinuity before.discontinuity) t) before now
                    (record { valid = s.valid; fits = s.fits }) kept.valid)))

  pub measurement_timed-IsSound :
      (c : FollowerCore F) (e : Exchange) (publication : Option ℕ) (processed : ℕ)
      → IsSound c
      → IsSound (measurement_timed c e publication processed).1
  unfolding measurement_timed
  measurement_timed-IsSound c e publication processed s =
      let P : Option (Correction F) × FollowerCore F → Type 0 = λ x. IsSound x.1 in
      if_elim P (is_some c.expected_session)
        (λ _. onward c _ (measure-Onward c e publication processed s.valid s.fits)) (λ _. s)

  pub tick-IsSound :
      (c : FollowerCore F) (now stale_after : ℕ) → IsSound c → IsSound (tick c now stale_after).1
  unfolding tick
  tick-IsSound c now stale_after s =
      let P : Option (Correction F) × FollowerCore F → Type 0 = λ x. IsSound x.1 in
      let disc = discontinuity_at c.view now in
      let kept = latch-Kept c.view.timeline disc s.valid in
      if_elim P (c.view.mapping.last_sample_ns == 0) (λ _. s)
        (λ _.
          if_elim P (moved_on c.reported_discontinuity c.view.timeline.session disc)
            (λ _. record { valid = kept.valid; fits = s.fits })
            (λ _. record { valid = kept.valid; fits = s.fits }))
