-- ===== src/Base/Float.antt =====
-- `f64`, as far as the program uses it: a type `F` with the operations of the language and its
-- standard library as an instance. Nothing is assumed of them here; a theorem that needs a law of
-- floating-point arithmetic takes it as a hypothesis.
use Prim.Native.Nat.{Ordering}
use ethersync.Base.Tests.{if◌then◌else◌}
use ethersync.Base.Int.{ℤ}
use Prim.Native.Nat.{ℕ}
use mathlib.Core.Bool.{Bool}

pub record Float (F : Type 0) : Type 0 where
  -- The literal m / 10^k.
  pub literal : ℕ → ℕ → F
  pub infinity : F
  pub neg_infinity : F
  -- The start of `sum`.
  pub sum_start : F
  -- `as f64` from unsigned and signed integers; `as u64`, `as i32` and `as i128`.
  pub of_ℕ : ℕ → F
  pub of_ℤ : ℤ → F
  pub to_u64 : F → ℕ
  pub to_i32 : F → ℤ
  pub to_i128 : F → ℤ
  pub add : F → F → F
  pub sub : F → F → F
  pub mul : F → F → F
  pub div : F → F → F
  pub neg : F → F
  pub abs : F → F
  pub signum : F → F
  pub round : F → F
  pub powi : F → ℕ → F
  pub fmin : F → F → F
  pub fmax : F → F → F
  pub lt : F → F → Bool
  pub le : F → F → Bool
  pub eq : F → F → Bool
  pub is_finite : F → Bool
  pub total_cmp : F → F → Ordering

module _ {F : Type 0} ⦃fl : Float F⦄ where
  infixl 65 ◌⊕◌ ◌⊖◌
  infixl 70 ◌⊗◌ ◌⊘◌
  infix 50 ◌≺◌ ◌≼◌
  abbrev pub ◌⊕◌ : F → F → F
  ◌⊕◌ = fl.add

  abbrev pub ◌⊖◌ : F → F → F
  ◌⊖◌ = fl.sub

  abbrev pub ◌⊗◌ : F → F → F
  ◌⊗◌ = fl.mul

  abbrev pub ◌⊘◌ : F → F → F
  ◌⊘◌ = fl.div

  -- `<` and `<=`; `>` and `>=` are these with their sides exchanged.
  abbrev pub ◌≺◌ : F → F → Bool
  ◌≺◌ = fl.lt

  abbrev pub ◌≼◌ : F → F → Bool
  ◌≼◌ = fl.le

  abbrev pub literal : ℕ → ℕ → F
  literal = fl.literal

  abbrev pub of_ℕ : ℕ → F
  of_ℕ = fl.of_ℕ

  abbrev pub of_ℤ : ℤ → F
  of_ℤ = fl.of_ℤ

  abbrev pub abs : F → F
  abs = fl.abs

  -- `f64::clamp`
  abbrev pub clamp : F → F → F → F
  clamp lo hi x = if x ≺ lo then lo else if hi ≺ x then hi else x
