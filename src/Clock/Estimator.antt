-- ===== src/Clock/Estimator.antt =====
-- protocol/src/clock.rs: `ClockEstimator`, its admission of an exchange and its quarantine.

use mathlib.Core.Option.{Option, none, some}
use ethersync.Base.{
  ℕ, ◌+◌, ◌-◌, min, Bool, true, false, not, ◌&&◌, ◌||◌, List, [], ◌∷◌, ◌++◌, ltb, leb, ◌==◌,
  if◌then◌else◌, length, drop,
}
use ethersync.Base.Int.{ℤ, pos, ◌-ℤ◌, ◌+ℤ◌, ltb_ℤ}
use ethersync.Base.Float.{Float, ◌⊕◌, ◌⊖◌, ◌⊗◌, ◌⊘◌, ◌≼◌, ◌≺◌, literal, of_ℕ, of_ℤ, abs}
use ethersync.Clock.Defs.{
  Exchange, Sample, ClockMapping, ClockObservation, max_exchange_ns, u64_max, history_ns, offset_at,
  uncertainty_at, default_mapping,
}
use ethersync.Wire.Validate.{i64_max}
use ethersync.Clock.Fit.{fit, fold_min}

pub record ClockEstimator (F : Type 0) : Type 0 where
  pub samples : List (Sample F)
  pub mapping : ClockMapping F
  pub recovery : List (Sample F)
  pub last_observed : Option F
  pub trace : List (ClockObservation F)

-- The guards on the four times alone.
unfoldable pub exchange_delay : Exchange → ℤ
exchange_delay e = pos (e.t4 - e.t1) -ℤ pos (e.t3 - e.t2)

unfoldable pub bad_exchange : Exchange → Bool
unfolding exchange_delay
bad_exchange e =
    (ltb e.t4 e.t1 || ltb e.t3 e.t2)
    || ltb i64_max e.t1
    || ltb i64_max e.t2
    || ltb i64_max e.t3
    || ltb i64_max e.t4
    || ltb max_exchange_ns (e.t4 - e.t1)
    || ltb_ℤ (exchange_delay e) (pos 0)
    || ltb_ℤ (pos 500_000_000) (exchange_delay e)

-- `while len > n { pop_front }`
abbrev pub keep_last {ℓ} : {A : Type ℓ} → ℕ → List A → List A
keep_last n xs = drop (length xs - n) xs

module _ {F : Type 0} ⦃fl : Float F⦄ where
  unfoldable pub default_estimator : ClockEstimator F
  default_estimator = record {
    samples = [];
    mapping = default_mapping;
    recovery = [];
    last_observed = none;
    trace = [];
  }

  unfoldable pub recovering : ClockEstimator F → Bool
  recovering c = ltb 0 (length c.recovery)

  unfoldable pub sample_of : Exchange → Sample F
  unfolding exchange_delay
  sample_of e = record {
    local = of_ℕ e.t1 ⊕ of_ℕ (e.t4 - e.t1) ⊘ literal 2 0;
    offset = of_ℤ ((pos e.t2 -ℤ pos e.t1) +ℤ (pos e.t3 -ℤ pos e.t4)) ⊘ literal 2 0;
    delay = of_ℤ (exchange_delay e);
    duration = of_ℕ (e.t4 - e.t1);
  }

  -- The exchange is not after the last one observed.
  unfoldable pub out_of_order : Option F → F → Bool
  out_of_order none local = false
  out_of_order (some last) local = local ≼ last

  -- The loop that drops the samples older than the history.
  unfoldable pub expire : F → List (Sample F) → List (Sample F)
  expire local [] = []
  expire local (s ∷ xs) =
      let rest = expire local xs in if history_ns ≺ (local ⊖ s.local) then rest else s ∷ xs

  unfoldable pub rejected_delay : List (Sample F) → Sample F → Bool
  rejected_delay samples s =
      leb 8 (length samples) && (fold_min (λ x. x.delay) samples ⊕ literal 20_000_000 0 ≺ s.delay)

  unfoldable pub rejected_offset : List (Sample F) → ClockMapping F → ℕ → Sample F → Bool
  unfolding offset_at uncertainty_at
  rejected_offset samples m t4 s =
      ltb 0 (length samples)
      && m.converged
      && (uncertainty_at m t4 ⊕ s.delay ⊘ literal 2 0 ⊕ literal 5_000_000 0
          ≺ abs (s.offset ⊖ offset_at m (fl.to_u64 s.local)))

  -- The closure on the front of the recovery queue.
  unfoldable pub similar : F → Sample F → Sample F → Bool
  similar drift s first =
      let phase = s.offset ⊖ first.offset ⊖ (s.local ⊖ first.local) ⊗ drift in
      (abs phase ≼ fl.fmax (first.delay ⊘ literal 4 0) (literal 2_000_000 0))
      && (abs (s.delay ⊖ first.delay) ≼ fl.fmax (first.delay ⊘ literal 4 0) (literal 5_000_000 0))
      && (s.local ⊖ first.local ≼ literal 5_000_000_000 0)

  -- The recovery queue with a rejected sample: a sample unlike the first starts a new queue.
  unfoldable pub quarantine : F → Sample F → List (Sample F) → List (Sample F)
  unfolding similar
  quarantine drift s [] = s ∷ []
  quarantine drift s (first ∷ xs) =
      keep_last 16 ((if similar drift s first then first ∷ xs else []) ++ s ∷ [])

  -- Eight samples over half a second end the quarantine.
  unfoldable pub confirmed : Sample F → List (Sample F) → Bool
  confirmed s [] = false
  confirmed s (first ∷ xs) =
      leb 8 (length (first ∷ xs)) && not (s.local ⊖ first.local ≺ literal 500_000_000 0)

  -- The end of `observe_inner`: the samples are trimmed and the mapping is fitted to them.
  unfoldable pub settle :
      ClockEstimator F → Exchange → Sample F → List (Sample F) → ℕ → ClockEstimator F
  unfolding fit
  settle c e s samples accepted =
      let kept = keep_last 128 samples in
      record c {
        samples = kept;
        mapping = fit c.mapping.drift s.local e.t4 accepted s kept;
        recovery = [];
      }

  -- `saturating_add(1)`, with a new count where the history is empty.
  unfoldable pub count_accepted : List (Sample F) → ClockMapping F → ℕ
  count_accepted [] m = 1
  count_accepted (s ∷ xs) m = min u64_max (m.accepted_observations + 1)

  -- What follows the guards, with the time and the history already updated.
  unfoldable pub admit : ClockEstimator F → Exchange → Sample F → Bool × ClockEstimator F
  unfolding rejected_delay rejected_offset quarantine confirmed settle count_accepted
  admit c e s =
      if rejected_delay c.samples s || rejected_offset c.samples c.mapping e.t4 s
      then (let queue = quarantine c.mapping.drift s c.recovery in
          if confirmed s queue
          then (true, settle c e s queue (length queue))
          else (false, record c { recovery = queue }))
      else (true, settle c e s (c.samples ++ s ∷ []) (count_accepted c.samples c.mapping))

  unfoldable pub observe_inner : ClockEstimator F → Exchange → Bool × ClockEstimator F
  unfolding bad_exchange sample_of out_of_order expire admit
  observe_inner c e =
      let s = sample_of e in
      if bad_exchange e || out_of_order c.last_observed s.local
      then (false, c)
      else admit (record c { last_observed = some s.local; samples = expire s.local c.samples }) e s

  unfoldable pub observe_timed :
      ClockEstimator F → Exchange → Option ℕ → ℕ → Bool × ClockEstimator F
  unfolding observe_inner
  observe_timed c e publication processed =
      let r = observe_inner c e in
      let trace = if length r.1.trace == 128 then drop 1 r.1.trace else r.1.trace in
      let seen : ClockObservation F = record {
        exchange = e;
        accepted = r.0;
        publication_ns = publication;
        processing_delay_ns = processed - e.t4;
        mapping = r.1.mapping;
      } in
      (r.0, record r.1 { trace = trace ++ seen ∷ [] })

  unfoldable pub observe : ClockEstimator F → Exchange → Bool × ClockEstimator F
  unfolding observe_timed
  observe c e = observe_timed c e none e.t4
