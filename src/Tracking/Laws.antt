-- ===== src/Tracking/Laws.antt =====
-- What `Tracker::sample` of protocol/src/tracking.rs does on every branch.
use ethersync.Base.{
  ℕ, ◌+◌, ◌≤◌, ◌<◌, ◌≡◌, ◌⊎◌, refl, inl, inr, Bool, true, false, not, ◌||◌, Option, some, ltb, leb,
  if◌then◌else◌, Result, ok, err, if_elim, arith,
}
use ethersync.Base.Int.{ℤ, pos, negsuc, eqb_ℤ}
use ethersync.Base.Float.{Float, ◌≺◌, literal, abs, clamp}
use ethersync.Timecode.Defs.{Error}
use ethersync.Timecode.Motion.{Rate}
use ethersync.Timecode.Rates.{IsRate}
use ethersync.Timeline.Defs.{Timeline}
use ethersync.Tracking.{
  SourceSample, Tracker, is_tracked, not_after, is_first, source_speed, inferred, raw_speed,
  source_error, count_jumps, hinted, choose_rate, outcome, moved, settled, follow, sample,
}
use ethersync.Tracking.Choices.{
  IsSample, SpeedsFit, Followed, IsTracker, moved-Followed, Chosen, choose_rate-Chosen, hinted-from,
}

module _ {F : Type 0} ⦃fl : Float F⦄ where
  -- A sample that is turned away: why, and that nothing changes.
  pub record Rejected (r : Tracker F) (t : Timeline) (s : SourceSample) (now : ℕ)
      (x : Result Error Bool × Tracker F × Timeline) : Type 0 where
    pub reason :
        (is_tracked t.source_kind ≡ false)
        ⊎ ((now < s.timestamp_ns) ⊎ (not_after r.last s.timestamp_ns ≡ true))
    pub error : Error
    pub result : x.0 ≡ err error
    pub tracker_kept : x.1 ≡ r
    pub timeline_kept : x.2 ≡ t

  -- A sample that is taken: when, and what it makes of the tracker and the timeline.
  pub record Taken (r : Tracker F) (t : Timeline) (s : SourceSample) (now : ℕ)
      (x : Result Error Bool × Tracker F × Timeline) : Type 0 where
    pub changed : Bool
    pub result : x.0 ≡ ok changed
    pub tracked : is_tracked t.source_kind ≡ true
    pub not_future : s.timestamp_ns ≤ now
    pub later : not_after r.last s.timestamp_ns ≡ false
    pub timeline : Followed s t x.2 changed
    pub rate_in : IsSample s → IsRate t.anchor.rate → IsRate x.2.anchor.rate
    pub tracker : IsTracker x.1
    pub remembered : x.1.last ≡ some s
    pub asked : (s.discontinuity ≡ true) ⊎ (is_first r.last ≡ true) → changed ≡ true

  settled-IsTracker :
      (r : Tracker F) (s : SourceSample) (changed turned : Bool)
      → r.jumps ≤ 2
      → (turned ≡ false → (v : F) (n : ℕ) → r.candidate ≡ some (v, n) → n ≤ 2)
      → IsTracker (settled r s (changed || turned))
  unfolding settled
  settled-IsTracker r s true turned j c = record {
    jumps_few = omega arith;
    candidate_few = λ v n e. cc;
  }
  settled-IsTracker r s false true j c = record {
    jumps_few = omega arith;
    candidate_few = λ v n e. cc;
  }
  settled-IsTracker r s false false j c = record { jumps_few = j; candidate_few = c refl }

  count_jumps-le : (r : Tracker F) (error : F) → r.jumps ≤ 2 → (count_jumps r error).0 ≤ 3
  unfolding count_jumps
  count_jumps-le r error h =
      let sign : ℤ = if literal 0 0 ≺ error then pos 1 else negsuc 0 in
      if_elim (λ (x : ℕ × ℤ). x.0 ≤ 3) (literal 1 0 ≺ abs error)
        (λ _.
          if_elim (λ (n : ℕ). n + 1 ≤ 3) (eqb_ℤ sign r.jumps_sign) (λ _. omega arith)
            (λ _. omega arith))
        (λ _. omega arith)

  outcome-Taken :
      (r counted : Tracker F) (t : Timeline) (s : SourceSample) (now : ℕ) (error : F)
      (changed : Bool) (c : Result Error (Rate × Bool) × Option (F × ℕ))
      → Chosen s t.anchor.rate c
      → is_tracked t.source_kind ≡ true
      → s.timestamp_ns ≤ now
      → not_after r.last s.timestamp_ns ≡ false
      → counted.jumps ≤ 2
      → counted.candidate ≡ c.1
      → ((s.discontinuity ≡ true) ⊎ (is_first r.last ≡ true) → changed ≡ true)
      → Taken r t s now (outcome c.0 counted t s error changed)
  unfolding outcome
  outcome-Taken r counted t s now error changed c ch k past later j e asked =
      let all = changed || ch.turned in
      let same : all ≡ false → ch.chosen ≡ t.anchor.rate = λ f. ch.kept (ground arith) in
      rw (ch.result) (record {
        changed = all;
        result = refl;
        tracked = k;
        not_future = past;
        later = later;
        timeline = moved-Followed s t error ch.chosen all same;
        rate_in = λ v o. unfold moved in ch.in_range v o;
        tracker = settled-IsTracker counted s changed ch.turned j (λ f. rw e (ch.few f));
        remembered = unfold settled in refl;
        asked = λ a. let b = asked a in ground arith;
      })

  follow-Taken :
      (r : Tracker F) (t : Timeline) (s : SourceSample) (now : ℕ)
      → SpeedsFit fl
      → IsTracker r
      → is_tracked t.source_kind ≡ true
      → s.timestamp_ns ≤ now
      → not_after r.last s.timestamp_ns ≡ false
      → Taken r t s now (follow r t s)
  unfolding follow source_speed
  follow-Taken r t s now fit h k past later =
      let error = source_error s t in
      let n = count_jumps r error in
      let le = count_jumps-le r error h.jumps_few in
      let jumped = leb 3 n.0 in
      let x = raw_speed s.rate_hint (inferred r.last s t) t in
      let c =
        choose_rate (hinted s.rate_hint t.anchor.rate) r.candidate t.anchor.rate
          (clamp (fl.neg (literal 64 0)) (literal 64 0) x) in
      let counted = record r {
        candidate = c.1;
        jumps = if jumped then 0 else n.0;
        jumps_sign = n.1;
      } in
      outcome-Taken r counted t s now error (s.discontinuity || is_first r.last || jumped) c
        (choose_rate-Chosen (hinted s.rate_hint t.anchor.rate) r.candidate s t.anchor.rate x fit
          h.candidate_few (hinted-from s.rate_hint t.anchor.rate))
        k past later (ground arith) refl (λ a. ground arith)

  -- Where the conversion of clamped speeds to `i32` is right, a sample is rejected, and then
  -- nothing changes, only because the timeline is not tracked or the sample's time is in the future
  -- or not after the last sample's. Any other sample is taken: the anchor moves to its time, the
  -- source is healthy, and the tracker remembers it with no count at its limit. Either it is a
  -- change, with the next discontinuity, the sample's own position and an empty schedule, as every
  -- first sample and every one that asks for it is; or the rate, the discontinuity and the schedule
  -- stay. Rates and positions in range stay in range.
  pub sample_lem :
      (r : Tracker F) (t : Timeline) (s : SourceSample) (now : ℕ)
      → SpeedsFit fl
      → IsTracker r
      → Rejected r t s now (sample r t s now) ⊎ Taken r t s now (sample r t s now)
  unfolding sample
  sample_lem r t s now fit h =
      let P : Result Error Bool × Tracker F × Timeline → Type 0 =
        λ x. Rejected r t s now x ⊎ Taken r t s now x in
      if_elim P (not (is_tracked t.source_kind))
        (λ k. inl (record {
          reason = ground arith;
          error = _;
          result = refl;
          tracker_kept = refl;
          timeline_kept = refl;
        }))
        (λ k.
          if_elim P (ltb now s.timestamp_ns || not_after r.last s.timestamp_ns)
            (λ bad. inl (record {
              reason = ground arith;
              error = _;
              result = refl;
              tracker_kept = refl;
              timeline_kept = refl;
            }))
            (λ good.
              inr (follow-Taken r t s now fit h (ground arith) (ground arith) (ground arith))))
