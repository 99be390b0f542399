-- ===== src/Clock/Defs.antt =====
-- protocol/src/clock.rs: exchanges, samples, evidence and the affine mapping.
use ethersync.Base.{ℕ, ◌-◌, ◌^◌, Bool, false, not, Option, none, ltb, if◌then◌else◌}
use ethersync.Base.Float.{Float, ◌⊕◌, ◌⊖◌, ◌⊗◌, ◌≼◌, literal, of_ℕ, clamp}

abbrev pub max_exchange_ns : ℕ
max_exchange_ns = 500_000_000

pub record Exchange : Type 0 where
  pub t1 : ℕ
  pub t2 : ℕ
  pub t3 : ℕ
  pub t4 : ℕ

pub record Sample (F : Type 0) : Type 0 where
  pub local : F
  pub offset : F
  pub delay : F
  pub duration : F

pub record OffsetEvidence (F : Type 0) : Type 0 where
  pub reference_ns : ℕ
  pub lower_ns : F
  pub upper_ns : F
  pub samples : ℕ

pub record ClockMapping (F : Type 0) : Type 0 where
  pub reference_ns : ℕ
  pub offset_ns : F
  pub drift : F
  pub uncertainty_ns : F
  pub last_sample_ns : ℕ
  pub converged : Bool
  pub accepted_observations : ℕ
  pub evidence : Option (OffsetEvidence F)

pub record ClockObservation (F : Type 0) : Type 0 where
  pub exchange : Exchange
  pub accepted : Bool
  pub publication_ns : Option ℕ
  pub processing_delay_ns : ℕ
  pub mapping : ClockMapping F

-- `u64::abs_diff`
abbrev pub abs_diff : ℕ → ℕ → ℕ
abs_diff a b = if ltb a b then b - a else a - b

-- The largest `u64`, and `saturating_add(1)`.
abbrev pub u64_max : ℕ
u64_max = 2 ^ 64 - 1

module _ {F : Type 0} ⦃fl : Float F⦄ where
  abbrev pub history_ns : F
  history_ns = literal 32_000_000_000 0

  abbrev pub holdover_growth : F
  holdover_growth = literal 1 3

  -- `OffsetEvidence::consistent`
  unfoldable pub consistent : OffsetEvidence F → Bool
  consistent e = e.lower_ns ≼ e.upper_ns

  -- `OffsetEvidence::at`
  unfoldable pub evidence_at : OffsetEvidence F → ℕ → OffsetEvidence F
  evidence_at e local =
      let growth = of_ℕ (abs_diff local e.reference_ns) ⊗ literal 5 4 in
      if not (consistent e) then e else record e {
        reference_ns = local;
        lower_ns = e.lower_ns ⊖ growth;
        upper_ns = e.upper_ns ⊕ growth;
      }

  -- `ClockMapping::default`
  abbrev pub default_mapping : ClockMapping F
  default_mapping = record {
    reference_ns = 0;
    offset_ns = literal 0 0;
    drift = literal 0 0;
    uncertainty_ns = fl.infinity;
    last_sample_ns = 0;
    converged = false;
    accepted_observations = 0;
    evidence = none;
  }

  unfoldable pub offset_at : ClockMapping F → ℕ → F
  offset_at m local = m.offset_ns ⊕ (of_ℕ local ⊖ of_ℕ m.reference_ns) ⊗ m.drift

  unfoldable pub leader_time : ClockMapping F → ℕ → ℕ
  leader_time m local =
      fl.to_u64 (clamp (literal 0 0) (of_ℕ (2 ^ 63 - 1)) (of_ℕ local ⊕ offset_at m local))

  -- `-` on numbers is `saturating_sub`.
  unfoldable pub uncertainty_at : ClockMapping F → ℕ → F
  uncertainty_at m local = m.uncertainty_ns ⊕ of_ℕ (local - m.last_sample_ns) ⊗ holdover_growth
