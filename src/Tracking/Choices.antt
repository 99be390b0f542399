-- ===== src/Tracking/Choices.antt =====
-- The rate and the anchor that a sample sets, in protocol/src/tracking.rs.
use ethersync.Base.{
  ℕ, ◌/◌, ◌≤◌, ◌≡◌, refl, Bool, true, false, Option, none, some, leb, Result, ok, if_elim, arith,
}
use ethersync.Base.Int.{ℤ, magnitude, quot}
use ethersync.Base.Float.{Float, ◌⊖◌, ◌⊗◌, ◌≺◌, literal, abs, clamp}
use ethersync.Timecode.Defs.{Error}
use ethersync.Timecode.Motion.{Rate, new_rate, bad_rate, gcd}
use ethersync.Timecode.Rates.{IsRate, new_rate-IsRate}
use ethersync.Timecode.Positions.{IsPosition, from_fixed-IsPosition}
use ethersync.Follower.View.{as_f64}
use ethersync.Timeline.Defs.{Timeline, SourceHealth}
use ethersync.Tracking.{
  SourceSample, Tracker, next_u64, count_speed, hinted, settle_rate, choose_rate, moved, drawn,
}

-- The hint of a sample, and its position, are in range.
pub record IsSample (s : SourceSample) : Type 0 where
  pub position_in : IsPosition s.position
  pub hint_in : (hint : Rate) → s.rate_hint ≡ some hint → IsRate hint

-- What `as i32` makes of a clamped speed in units of 1/10000 is at most 64 of them.
abbrev pub SpeedsFit : {F : Type 0} → Float F → Type 0
SpeedsFit {F} fl =
    (x : F)
    → magnitude (
        fl.to_i32 (
          fl.round (
            fl.mul (clamp ⦃fl = fl⦄ (fl.neg (fl.literal 64 0)) (fl.literal 64 0) x)
              (fl.literal 10_000 0))))
      ≤ 640_000

-- What an accepted sample makes of the timeline.
pub record Followed (s : SourceSample) (t u : Timeline) (changed : Bool) : Type 0 where
  pub time : u.anchor.time_ns ≡ s.timestamp_ns
  pub recovered : u.source_health ≡ SourceHealth.healthy
  pub position_in : IsPosition s.position → IsPosition u.anchor.position
  pub at_change :
      changed ≡ true
      → (u.anchor.position ≡ s.position)
        × (u.discontinuity ≡ next_u64 t.discontinuity)
        × (u.scheduled_len ≡ 0)
  pub otherwise :
      changed ≡ false
      → (u.anchor.rate ≡ t.anchor.rate)
        × (u.discontinuity ≡ t.discontinuity)
        × (u.scheduled_len ≡ t.scheduled_len)

-- A rate in units of 1/10000 that is at most 64 is accepted.
new_rate_of_fit :
    (n : ℤ)
    → magnitude n ≤ 640_000
    → new_rate n 10_000
      ≡ ok (record {
        numerator = quot n (gcd (magnitude n) 10_000);
        denominator = 10_000 / gcd (magnitude n) 10_000;
      })
unfolding new_rate
new_rate_of_fit n h =
    let good : bad_rate n 10_000 ≡ false = unfold bad_rate in ground arith in rw good refl

module _ {F : Type 0} ⦃fl : Float F⦄ where
  -- Between two calls no count has reached its limit of three.
  pub record IsTracker (r : Tracker F) : Type 0 where
    pub jumps_few : r.jumps ≤ 2
    pub candidate_few : (v : F) (n : ℕ) → r.candidate ≡ some (v, n) → n ≤ 2

  pub moved-Followed :
      (s : SourceSample) (t : Timeline) (error : F) (rate : Rate) (changed : Bool)
      → (changed ≡ false → rate ≡ t.anchor.rate)
      → Followed s t (moved s t error rate changed) changed
  unfolding moved drawn
  moved-Followed s t error rate true h = record {
    time = refl;
    recovered = refl;
    position_in = λ p. p;
    at_change = λ _. (refl, refl, refl);
    otherwise = λ e. cc;
  }
  moved-Followed s t error rate false h = record {
    time = refl;
    recovered = refl;
    position_in = λ _. from_fixed-IsPosition _;
    at_change = λ e. cc;
    otherwise = λ _. (h refl, refl, refl);
  }

  -- The rate that a sample sets, and the candidate that it leaves.
  pub record Chosen (s : SourceSample) (rate : Rate)
      (c : Result Error (Rate × Bool) × Option (F × ℕ)) : Type 0 where
    pub chosen : Rate
    pub turned : Bool
    pub result : c.0 ≡ ok (chosen, turned)
    pub kept : turned ≡ false → chosen ≡ rate
    pub in_range : IsSample s → IsRate rate → IsRate chosen
    pub few : turned ≡ false → (v : F) (n : ℕ) → c.1 ≡ some (v, n) → n ≤ 2

  count_speed-le :
      (candidate : Option (F × ℕ)) (speed : F)
      → ((v : F) (n : ℕ) → candidate ≡ some (v, n) → n ≤ 2)
      → count_speed candidate speed ≤ 3
  unfolding count_speed
  count_speed-le none speed h = omega arith
  count_speed-le (some (v, n)) speed h =
      let le = h v n refl in
      if_elim (λ (k : ℕ). k ≤ 3) (abs (v ⊖ speed) ≺ literal 5 2) (λ _. omega arith)
        (λ _. omega arith)

  pub choose_rate-Chosen :
      (hint : Option Rate) (candidate : Option (F × ℕ)) (s : SourceSample) (rate : Rate) (x : F)
      → SpeedsFit fl
      → ((v : F) (n : ℕ) → candidate ≡ some (v, n) → n ≤ 2)
      → ((h : Rate) → hint ≡ some h → s.rate_hint ≡ some h)
      → Chosen s rate
          (choose_rate hint candidate rate (clamp (fl.neg (literal 64 0)) (literal 64 0) x))
  unfolding choose_rate
  choose_rate-Chosen (some hint) candidate s rate x fit few from = record {
    chosen = hint;
    turned = true;
    result = refl;
    kept = λ e. absurd (ground arith);
    in_range = λ v o. v.hint_in hint (from hint refl);
    few = λ e. absurd (ground arith);
  }
  choose_rate-Chosen none candidate s rate x fit few from =
      let speed = clamp (fl.neg (literal 64 0)) (literal 64 0) x in
      let count = count_speed candidate speed in
      let n = fl.to_i32 (fl.round (speed ⊗ literal 10_000 0)) in
      let g = gcd (magnitude n) 10_000 in
      let made : Rate = record { numerator = quot n g; denominator = 10_000 / g } in
      let makes = new_rate_of_fit n (fit x) in
      if_elim (Chosen s rate) (literal 2 2 ≺ abs (speed ⊖ as_f64 rate))
        (λ _.
          if_elim (Chosen s rate) (leb 3 count)
            (λ _. rw makes (
              unfold settle_rate in
              record {
                chosen = made;
                turned = true;
                result = refl;
                kept = λ e. absurd (ground arith);
                in_range = λ v o. (new_rate-IsRate n 10_000 made makes).0;
                few = λ e. absurd (ground arith);
              }))
            (λ short. record {
              chosen = rate;
              turned = false;
              result = refl;
              kept = λ _. refl;
              in_range = λ v o. o;
              few = λ _ v k e. ground arith;
            }))
        (λ _. record {
          chosen = rate;
          turned = false;
          result = refl;
          kept = λ _. refl;
          in_range = λ v o. o;
          few = λ _ v k e. absurd (ground arith);
        })

pub hinted-from : (hint : Option Rate) (rate h : Rate) → hinted hint rate ≡ some h → hint ≡ some h
unfolding hinted
hinted-from none rate h e = cc
hinted-from (some k) rate h e = ground arith
