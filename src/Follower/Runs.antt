-- ===== src/Follower/Runs.antt =====
-- The life of a connection in protocol/src/timeline.rs: the events that the follower's owner passes
-- to it, in any order, and what no run of them takes back.
use ethersync.Base.{
  ℕ, ◌≤◌, ◌≡◌, refl, sym, ap, ◌∙◌, inl, max, true, false, not, ◌&&◌, ◌||◌, Option, some, List, [],
  ◌∷◌, ltb, leb, ◌==◌, if_elim, All, arith,
}
use ethersync.Base.Float.{Float}
use ethersync.Timeline.Defs.{Timeline, at, latch}
use ethersync.Timeline.Schedule.{IsTimeline, discontinuity-le-segment_at}
use ethersync.Timeline.Latch.{latch-Kept}
use ethersync.Clock.{Exchange, leader_time, u64_max, observe_timed}
use ethersync.Follower.View.{View, Reading, evaluate, shown_time}
use ethersync.Follower.Core.{
  Correction, FollowerCore, eq_bytes, eq_format, other_session, moved_on, disconnect,
  discontinuity_at, update_session, state, is_some, observed, mapped, measure, measurement_timed,
  tick,
}
use ethersync.Follower.Monotone.{
  eq_bytes→≡, Onward, IsBound, quiet, Onward-trans, correct-Onward, remap-Onward,
}

-- A received state, a matched exchange, a tick of the owner's timer, and the end of the connection.
pub data Event : Type 0 where
  received : Timeline → ℕ → Event
  measured : Exchange → Option ℕ → ℕ → Event
  ticked : ℕ → ℕ → Event
  lost : Event

abbrev pub IsEvent : Event → Type 0
IsEvent (received t now) = IsTimeline t
IsEvent (measured e publication processed) = Unit
IsEvent (ticked now stale_after) = Unit
IsEvent lost = Unit

module _ {F : Type 0} ⦃fl : Float F⦄ where
  abbrev pub step : FollowerCore F → Event → FollowerCore F
  step c (received t now) = (state c t now).1
  step c (measured e publication processed) = (measurement_timed c e publication processed).1
  step c (ticked now stale_after) = (tick c now stale_after).1
  step c lost = disconnect c

  abbrev pub run : FollowerCore F → List Event → FollowerCore F
  run c [] = c
  run c (e ∷ es) = run (step c e) es

  discontinuity-le-evaluate :
      (v : View F) (now : ℕ)
      → IsTimeline v.timeline
      → v.timeline.discontinuity ≤ (evaluate v now).discontinuity
  unfolding evaluate at
  discontinuity-le-evaluate v now valid =
      discontinuity-le-segment_at v.timeline (shown_time v now) valid

  -- The timeline is taken over: newer, of the session and in a discontinuity not before the one shown.
  taken :
      (c d : FollowerCore F) (t : Timeline)
      → IsTimeline t
      → d.view.timeline ≡ t
      → d.expected_session ≡ c.expected_session
      → d.view.resync_generation ≡ c.view.resync_generation
      → c.view.resync_generation ≤ u64_max
      → t.session ≡ c.view.timeline.session
      → c.view.timeline.revision ≤ t.revision
      → c.view.timeline.discontinuity ≤ t.discontinuity
      → Onward c d
  taken c d t v e x g b s r n = record {
    valid = rw e v;
    session_kept = ap (λ (u : Timeline). u.session) e ∙ s;
    expected_kept = x;
    revision_on = omega (arith, r, ap (λ (u : Timeline). u.revision) e);
    discontinuity_on = omega (arith, n, ap (λ (u : Timeline). u.discontinuity) e);
    generation_on = omega (arith, g);
    generation_fits = omega (arith, g, b);
  }

  update_session-Onward :
      (c : FollowerCore F) (t : Timeline) (before : Reading F) (now : ℕ)
      → IsBound c
      → IsTimeline t
      → t.session ≡ c.view.timeline.session
      → c.view.timeline.revision ≤ t.revision
      → c.view.timeline.discontinuity ≤ before.discontinuity
      → Onward c (update_session c t before now).1
  unfolding update_session
  update_session-Onward c t before now h v s r n =
      let P : Option (Correction F) × FollowerCore F → Type 0 = λ x. Onward c x.1 in
      let b = h.generation_fits in
      let disc = (at t (leader_time c.view.mapping now)).2 in
      let newer = record c { view = record c.view { timeline = t } } in
      if_elim P
        (ltb t.discontinuity before.discontinuity
          || (not (eq_format t.format c.view.timeline.format)
              && (t.discontinuity == before.discontinuity)))
        (λ _. quiet c _ h.valid refl refl b (inl refl))
        (λ ok.
          let on : c.view.timeline.discontinuity ≤ t.discontinuity = ground arith in
          if_elim P (not (disc == before.discontinuity))
            (λ _. taken c _ t v refl refl refl b s r on)
            (λ _.
              Onward-trans c newer _ (taken c newer t v refl refl refl b s r on)
                (correct-Onward newer before.position now false v b)))

  -- What is not refused as another session's has the session that is played.
  same_session :
      (c : FollowerCore F) (t : Timeline)
      → IsBound c
      → other_session c.expected_session t.session ≡ false
      → (eq_bytes c.view.timeline.session t.session ≡ true) × (c.view.timeline.session ≡ t.session)
  unfolding other_session
  same_session c t h f =
      let o : other_session c.expected_session t.session
          ≡ not (eq_bytes c.view.timeline.session t.session) =
        rw (h.bound) refl in
      let e : eq_bytes c.view.timeline.session t.session ≡ true = ground arith in
      (e, eq_bytes→≡ c.view.timeline.session t.session e)

  state-Onward :
      (c : FollowerCore F) (t : Timeline) (now : ℕ)
      → IsBound c
      → IsTimeline t
      → Onward c (state c t now).1
  unfolding state
  state-Onward c t now h v =
      let P : Option (Correction F) × FollowerCore F → Type 0 = λ x. Onward c x.1 in
      let b = h.generation_fits in
      let expecting = record c { expected_session = some t.session } in
      let before = evaluate c.view now in
      let latched = latch (max c.view.timeline.discontinuity before.discontinuity) t in
      let kept = latch-Kept t (max c.view.timeline.discontinuity before.discontinuity) v in
      if_elim P (other_session c.expected_session t.session)
        (λ _. quiet c c h.valid refl refl b (inl refl))
        (λ f.
          let (e, same) = same_session c t h f in
          let x : some t.session ≡ c.expected_session = ap some (sym same) ∙ sym h.bound in
          let first : Onward c expecting = quiet c expecting h.valid refl x b (inl refl) in
          if_elim P (not (eq_bytes c.view.timeline.session t.session)) (λ n. absurd (ground arith))
            (λ _.
              if_elim P (leb t.revision c.view.timeline.revision) (λ _. first)
                (λ newer. Onward-trans c expecting _ first (
                  update_session-Onward expecting latched before now
                    (record { valid = h.valid; bound = ap some (sym same); generation_fits = b })
                    kept.valid (kept.session_kept ∙ sym same)
                    (let r = kept.revision_kept in ground arith)
                    (discontinuity-le-evaluate c.view now h.valid)))))

  pub measure-Onward :
      (c : FollowerCore F) (e : Exchange) (publication : Option ℕ) (processed : ℕ)
      → IsTimeline c.view.timeline
      → c.view.resync_generation ≤ u64_max
      → Onward c (measure c e publication processed).1
  unfolding measure
  measure-Onward c e publication processed v b =
      let P : Option (Correction F) × FollowerCore F → Type 0 = λ x. Onward c x.1 in
      let r = observe_timed c.estimator e publication processed in
      if_elim P r.0
        (λ _. Onward-trans c (mapped c r.1) _ (quiet c (mapped c r.1) v refl refl b (inl refl)) (
          remap-Onward (mapped c r.1) (evaluate c.view (max processed e.t4)) (max processed e.t4)
            c.ever_locked v b))
        (λ _. quiet c (observed c r.1) v refl refl b (inl refl))

  measurement_timed-Onward :
      (c : FollowerCore F) (e : Exchange) (publication : Option ℕ) (processed : ℕ)
      → IsBound c
      → Onward c (measurement_timed c e publication processed).1
  unfolding measurement_timed
  measurement_timed-Onward c e publication processed h =
      let P : Option (Correction F) × FollowerCore F → Type 0 = λ x. Onward c x.1 in
      if_elim P (is_some c.expected_session)
        (λ _. measure-Onward c e publication processed h.valid h.generation_fits)
        (λ _. quiet c c h.valid refl refl h.generation_fits (inl refl))

  tick-Onward :
      (c : FollowerCore F) (now stale_after : ℕ) → IsBound c → Onward c (tick c now stale_after).1
  unfolding tick
  tick-Onward c now stale_after h =
      let P : Option (Correction F) × FollowerCore F → Type 0 = λ x. Onward c x.1 in
      let b = h.generation_fits in
      let disc = discontinuity_at c.view now in
      let kept = latch-Kept c.view.timeline disc h.valid in
      let on : c.view.timeline.revision ≤ (latch disc c.view.timeline).revision =
        omega (arith, kept.revision_kept) in
      if_elim P (c.view.mapping.last_sample_ns == 0) (λ _. quiet c c h.valid refl refl b (inl refl))
        (λ _.
          if_elim P (moved_on c.reported_discontinuity c.view.timeline.session disc)
            (λ _.
              taken c _ (latch disc c.view.timeline) kept.valid refl refl refl b kept.session_kept
                on kept.not_back)
            (λ _.
              taken c _ (latch disc c.view.timeline) kept.valid refl refl refl b kept.session_kept
                on kept.not_back))

  step-Onward : (c : FollowerCore F) (e : Event) → IsBound c → IsEvent e → Onward c (step c e)
  unfolding disconnect
  step-Onward c (received t now) h v = state-Onward c t now h v
  step-Onward c (measured e publication processed) h v =
      measurement_timed-Onward c e publication processed h
  step-Onward c (ticked now stale_after) h v = tick-Onward c now stale_after h
  step-Onward c lost h v = quiet c _ h.valid refl refl h.generation_fits (inl refl)

  Onward-IsBound : (c d : FollowerCore F) → IsBound c → Onward c d → IsBound d
  Onward-IsBound c d h k = record {
    valid = k.valid;
    bound = k.expected_kept ∙ h.bound ∙ ap some (sym k.session_kept);
    generation_fits = k.generation_fits;
  }

  -- Whatever valid states, exchanges, ticks and losses follow in a connection that is bound to
  -- the session of a valid timeline, the follower keeps a valid timeline of that session, and
  -- its revision, its discontinuity and its count of hard realignments, which stays within 64
  -- bits, never go back.
  pub run-Onward :
      (c : FollowerCore F) (es : List Event) → IsBound c → All IsEvent es → Onward c (run c es)
  run-Onward c [] h v = quiet c c h.valid refl refl h.generation_fits (inl refl)
  run-Onward c (e ∷ es) h v =
      let one = step-Onward c e h v.0 in
      Onward-trans c (step c e) _ one
        (run-Onward (step c e) es (Onward-IsBound c (step c e) h one) v.1)
