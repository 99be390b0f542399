-- ===== src/Clock/Admission.antt =====
-- Laws of protocol/src/clock.rs: the bounds of the estimator's queues, and what an exchange must be
-- for its mapping to change.
use ethersync.Base.{
  ℕ, ◌-◌, ◌≤◌, ◌≡◌, refl, Bool, true, false, ◌||◌, Option, some, List, [], ◌∷◌, ◌++◌, ◌==◌, ◌&&◌,
  leb, map, if◌then◌else◌, length, drop, length-append, length-drop, arith, if_elim, inl, inr, ◌⊎◌,
}
use ethersync.Base.Int.{◌-ℤ◌}
use mathlib.Core.List.{foldl}
use ethersync.Base.Float.{Float, ◌⊖◌, ◌⊗◌, ◌⊘◌, ◌≼◌, ◌≺◌, literal, of_ℕ, clamp}
use ethersync.Clock.Defs.{
  Exchange, Sample, ClockMapping, ClockObservation, max_exchange_ns, u64_max,
}
use ethersync.Clock.Fit.{fit, gather, sum, fold_min, select, fit_drift}
use ethersync.Wire.Validate.{i64_max}
use ethersync.Clock.Estimator.{
  ClockEstimator, exchange_delay, bad_exchange, keep_last, sample_of, out_of_order, expire,
  rejected_delay, rejected_offset, quarantine, similar, confirmed, settle, count_accepted, admit,
  observe_inner, observe_timed,
}
use ethersync.Clock.Admission.Line.{Regression, fit-Regression}
pub mod Line

-- An exchange that may be observed: the replies are in order, within a signed 64-bit clock, and the
-- leader held the probe no longer than the round trip of at most half a second.
pub record IsExchange (e : Exchange) : Type 0 where
  pub sent : e.t1 ≤ e.t4
  pub held : e.t2 ≤ e.t3
  pub residence : e.t3 - e.t2 ≤ e.t4 - e.t1
  pub fresh : e.t4 - e.t1 ≤ max_exchange_ns
  pub t3_fits : e.t3 ≤ i64_max
  pub t4_fits : e.t4 ≤ i64_max

pub bad_exchange-of_IsExchange : (e : Exchange) → IsExchange e → bad_exchange e ≡ false
unfolding bad_exchange exchange_delay ◌-ℤ◌
bad_exchange-of_IsExchange e h = ground arith

pub bad_exchange-IsExchange : (e : Exchange) → bad_exchange e ≡ false → IsExchange e
unfolding bad_exchange exchange_delay ◌-ℤ◌
bad_exchange-IsExchange e h = record {
  sent = ground arith;
  held = ground arith;
  residence = ground arith;
  fresh = ground arith;
  t3_fits = ground arith;
  t4_fits = ground arith;
}

module _ {F : Type 0} ⦃fl : Float F⦄ where
  pub record IsEstimator (c : ClockEstimator F) : Type 0 where
    pub samples_bounded : length c.samples ≤ 128
    pub recovery_bounded : length c.recovery ≤ 16
    pub trace_bounded : length c.trace ≤ 128
    pub count_bounded : c.mapping.accepted_observations ≤ u64_max

  length-keep_last : (n : ℕ) (xs : List (Sample F)) → length (keep_last n xs) ≤ n
  length-keep_last n xs = omega (arith, length-drop (length xs - n) xs)

  length-expire : (local : F) (xs : List (Sample F)) → length (expire local xs) ≤ length xs
  unfolding expire
  length-expire local [] = omega arith
  length-expire local (s ∷ xs) = let ih = length-expire local xs in ground arith

  length-quarantine :
      (d : F) (s : Sample F) (xs : List (Sample F)) → length (quarantine d s xs) ≤ 16
  unfolding quarantine
  length-quarantine d s [] = omega arith
  length-quarantine d s (first ∷ xs) =
      length-keep_last 16 ((if similar d s first then first ∷ xs else []) ++ s ∷ [])

  count_accepted-bounded :
      (xs : List (Sample F)) (m : ClockMapping F) → count_accepted xs m ≤ u64_max
  unfolding count_accepted
  count_accepted-bounded [] m = omega arith
  count_accepted-bounded (s ∷ xs) m = omega arith

  settle-IsEstimator :
      (c : ClockEstimator F) (e : Exchange) (s : Sample F) (xs : List (Sample F)) (n : ℕ)
      → IsEstimator c
      → n ≤ u64_max
      → IsEstimator (settle c e s xs n)
  unfolding settle fit
  settle-IsEstimator c e s xs n h hn = record {
    samples_bounded = length-keep_last 128 xs;
    recovery_bounded = omega arith;
    trace_bounded = h.trace_bounded;
    count_bounded = hn;
  }

  -- The three outcomes of an admission: a quarantine that ends, one that goes on, and no quarantine.
  admit-cases :
      (P : Bool × ClockEstimator F → Type 0) (c : ClockEstimator F) (e : Exchange) (s : Sample F)
      → (confirmed s (quarantine c.mapping.drift s c.recovery) ≡ true
          → P (
            true,
            settle c e s
                (quarantine c.mapping.drift s c.recovery)
                (length (quarantine c.mapping.drift s c.recovery)),
          ))
      → P (false, record c { recovery = quarantine c.mapping.drift s c.recovery })
      → P (true, settle c e s (c.samples ++ s ∷ []) (count_accepted c.samples c.mapping))
      → P (admit c e s)
  unfolding admit
  admit-cases P c e s promoted held accepted =
      if_elim P (rejected_delay c.samples s || rejected_offset c.samples c.mapping e.t4 s)
        (λ _.
          if_elim P (confirmed s (quarantine c.mapping.drift s c.recovery)) promoted (λ _. held))
        (λ _. accepted)

  admit-IsEstimator :
      (c : ClockEstimator F) (e : Exchange) (s : Sample F)
      → IsEstimator c
      → IsEstimator (admit c e s).1
  admit-IsEstimator c e s h =
      let queue = quarantine c.mapping.drift s c.recovery in
      let bound = length-quarantine c.mapping.drift s c.recovery in
      admit-cases (λ r. IsEstimator r.1) c e s
        (λ _. settle-IsEstimator c e s queue (length queue) h (omega (arith, bound)))
        (record {
          samples_bounded = h.samples_bounded;
          recovery_bounded = bound;
          trace_bounded = h.trace_bounded;
          count_bounded = h.count_bounded;
        })
        (settle-IsEstimator c e s (c.samples ++ s ∷ []) (count_accepted c.samples c.mapping) h
          (count_accepted-bounded c.samples c.mapping))

  observe_inner-IsEstimator :
      (c : ClockEstimator F) (e : Exchange) → IsEstimator c → IsEstimator (observe_inner c e).1
  unfolding observe_inner
  observe_inner-IsEstimator c e h =
      let s : Sample F = sample_of e in
      let shorter = length-expire s.local c.samples in
      if_elim (λ (r : Bool × ClockEstimator F). IsEstimator r.1)
        (bad_exchange e || out_of_order c.last_observed s.local) (λ _. h)
        (λ _.
          admit-IsEstimator
            (record c { last_observed = some s.local; samples = expire s.local c.samples }) e s
            (record {
              samples_bounded = omega (arith, shorter, h.samples_bounded);
              recovery_bounded = h.recovery_bounded;
              trace_bounded = h.trace_bounded;
              count_bounded = h.count_bounded;
            }))

  length-trace :
      (xs : List (ClockObservation F)) (x : ClockObservation F)
      → length xs ≤ 128
      → length ((if length xs == 128 then drop 1 xs else xs) ++ x ∷ []) ≤ 128
  length-trace xs x h =
      let dropped = length-append (drop 1 xs) (x ∷ []) in
      let less = length-drop 1 xs in let kept = length-append xs (x ∷ []) in ground arith

  -- Where an estimator keeps at most 128 samples, 16 quarantined samples and 128 observations,
  -- and its count of accepted observations is within 64 bits, that stays so after any
  -- observation.
  pub observe_timed-IsEstimator :
      (c : ClockEstimator F) (e : Exchange) (publication : Option ℕ) (processed : ℕ)
      → IsEstimator c
      → IsEstimator (observe_timed c e publication processed).1
  unfolding observe_timed
  observe_timed-IsEstimator c e publication processed h =
      let r = observe_inner c e in
      let g = observe_inner-IsEstimator c e h in
      record {
        samples_bounded = g.samples_bounded;
        recovery_bounded = g.recovery_bounded;
        trace_bounded = length-trace r.1.trace _ g.trace_bounded;
        count_bounded = g.count_bounded;
      }

  -- What the estimator is after it accepted an exchange.
  pub record Fitted (before : ClockEstimator F) (e : Exchange) (after : ClockEstimator F)
      : Type 0 where
    pub exchange : IsExchange e
    pub in_order : out_of_order before.last_observed (sample_of e).local ≡ false
    pub receipt : after.mapping.last_sample_ns ≡ e.t4
    pub released : after.recovery ≡ []
    pub converged : after.mapping.converged ≡ true → 12 ≤ length after.samples
    pub evidence : after.mapping.evidence ≡ some (gather e.t4 after.samples)
    pub regression :
        Regression before.mapping.drift (sample_of e).local (select after.samples) after.mapping

  settle-Fitted :
      (before c : ClockEstimator F) (e : Exchange) (s : Sample F) (xs : List (Sample F)) (n : ℕ)
      → IsExchange e
      → out_of_order before.last_observed (sample_of e).local ≡ false
      → c.mapping.drift ≡ before.mapping.drift
      → s.local ≡ (sample_of e).local
      → Fitted before e (settle c e s xs n)
  unfolding settle fit
  settle-Fitted before c e s xs n h o d l = record {
    exchange = h;
    in_order = o;
    receipt = refl;
    released = refl;
    converged = λ t. ground arith;
    evidence = refl;
    regression = rw (← d, ← l) (fit-Regression c.mapping.drift s.local e.t4 n s (keep_last 128 xs));
  }

  -- An exchange is accepted and the mapping fitted, or it is refused and the mapping kept.
  abbrev pub Observed : ClockEstimator F → Exchange → Bool × ClockEstimator F → Type 0
  Observed c e r = ((r.0 ≡ true) × Fitted c e r.1) ⊎ ((r.0 ≡ false) × (r.1.mapping ≡ c.mapping))

  observe_inner-Observed : (c : ClockEstimator F) (e : Exchange) → Observed c e (observe_inner c e)
  unfolding observe_inner
  observe_inner-Observed c e =
      let s : Sample F = sample_of e in
      let d = record c { last_observed = some s.local; samples = expire s.local c.samples } in
      let queue = quarantine c.mapping.drift s c.recovery in
      if_elim (Observed c e) (bad_exchange e || out_of_order c.last_observed s.local)
        (λ _. inr (refl, refl))
        (λ h.
          let valid = bad_exchange-IsExchange e (ground arith) in
          let order : out_of_order c.last_observed s.local ≡ false = ground arith in
          admit-cases (Observed c e) d e s
            (λ _. inl (refl, settle-Fitted c d e s queue (length queue) valid order refl refl))
            (inr (refl, refl))
            (inl (
              refl,
              settle-Fitted c d e s (d.samples ++ s ∷ []) (count_accepted d.samples d.mapping) valid
                  order refl refl,
            )))

  -- An exchange is accepted only if its times are ordered, fit a signed 64-bit clock and span at
  -- most half a second, the leader held it no longer than that, and it is not before the last
  -- one; then nothing stays in quarantine, the mapping stands at the receipt of the exchange
  -- with the evidence of exactly the samples retained, its offset is that of the line through the
  -- samples selected among them with its drift as slope, the drift is their least-squares slope, clamped,
  -- where they are eight or more, span two seconds or more and vary, and else what it was before, and it
  -- has converged only on twelve samples or more. A refused exchange leaves the mapping.
  pub observe_timed-Observed :
      (c : ClockEstimator F) (e : Exchange) (publication : Option ℕ) (processed : ℕ)
      → Observed c e (observe_timed c e publication processed)
  unfolding observe_timed
  observe_timed-Observed c e publication processed = elim (observe_inner-Observed c e) [
    | inl (a, h) ↦ inl (
      a,
      record {
        exchange = h.exchange;
        in_order = h.in_order;
        receipt = h.receipt;
        released = h.released;
        converged = h.converged;
        evidence = h.evidence;
        regression = h.regression;
      },
    )
    | inr h ↦ inr h
  ]
