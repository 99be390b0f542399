-- ===== src/Base/Int/Products.antt =====
-- Products, truncated quotients and magnitudes of integers.
use mathlib.Core.Path.{◌≡⟨◌⟩◌, ◌∎}
use native.Mathlib.Nat.{
  zero-div, div-zero, mul-add-div, div-add-mod, le-div_iff_mul-le, div-mul-le_self, le_trans,
}
use Prim.Native.Nat.{ℕ, zero, suc, ◌+◌, ◌*◌, ◌/◌, ◌%◌, ◌<◌, ◌≤◌}
use mathlib.Core.Path.{◌≡◌, refl, sym, ap}
use native.Mathlib.Omega.{arith}
use ethersync.Base.Int.{
  ℤ, pos, negsuc, ◌+ℤ◌, ◌*ℤ◌, ◌≤ℤ◌, quot, rem, magnitude, neg_ℕ, pos_part, neg_part,
}

pub scaled_division : (n d u : ℕ) → 0 < d → n / d * u + n % d * u / d ≡ n * u / d
scaled_division n d u h =
    n / d * u + n % d * u / d
    ≡⟨ sym (mul-add-div h (n / d * u) (n % d * u)) ⟩ (d * (n / d * u) + n % d * u) / d
    ≡⟨ ap (λ t. t / d) (omega (arith, ap (λ (t : ℕ). t * u) (div-add-mod n d))) ⟩ n * u / d ∎

-- Truncation towards zero, by sign.
pub neg_ℕ-*ℤ : (a u : ℕ) → neg_ℕ a *ℤ pos u ≡ neg_ℕ (a * u)
unfolding ◌*ℤ◌
neg_ℕ-*ℤ zero u = ground arith
neg_ℕ-*ℤ (suc a) u = ground arith

pub neg_ℕ-+ℤ : (a b : ℕ) → neg_ℕ a +ℤ neg_ℕ b ≡ neg_ℕ (a + b)
unfolding ◌+ℤ◌
neg_ℕ-+ℤ zero zero = ground arith
neg_ℕ-+ℤ zero (suc b) = ground arith
neg_ℕ-+ℤ (suc a) zero = ground arith
neg_ℕ-+ℤ (suc a) (suc b) = ground arith

pub pos-*ℤ : (a u : ℕ) → pos a *ℤ pos u ≡ pos (a * u)
unfolding ◌*ℤ◌
pos-*ℤ a u = ground arith

pub pos-+ℤ : (a b : ℕ) → pos a +ℤ pos b ≡ pos (a + b)
unfolding ◌+ℤ◌
pos-+ℤ a b = ground arith

pub quot-neg_ℕ : (m d : ℕ) → quot (neg_ℕ m) d ≡ neg_ℕ (m / d)
quot-neg_ℕ zero d = rw (zero-div d)
quot-neg_ℕ (suc m) d = refl

-- The two divisions of `advance` lose nothing against one division of the whole product.
pub quot_split :
    (z : ℤ) (d u : ℕ) → 0 < d → quot z d *ℤ pos u +ℤ quot (rem z d *ℤ pos u) d ≡ quot (z *ℤ pos u) d
quot_split (pos n) d u h =
    rw (pos-*ℤ (n / d) u, pos-*ℤ (n % d) u, pos-*ℤ n u, pos-+ℤ (n / d * u) (n % d * u / d))
      (ap pos (scaled_division n d u h))
quot_split (negsuc n) d u h =
    rw
      (
        neg_ℕ-*ℤ (suc n / d) u,
        neg_ℕ-*ℤ (suc n % d) u,
        neg_ℕ-*ℤ (suc n) u,
        quot-neg_ℕ (suc n % d * u) d,
        quot-neg_ℕ (suc n * u) d,
        neg_ℕ-+ℤ (suc n / d * u) (suc n % d * u / d),
      )
      (ap neg_ℕ (scaled_division (suc n) d u h))

pub neg_ℕ_parts : (n : ℕ) → (pos_part (neg_ℕ n) ≡ 0) × (neg_part (neg_ℕ n) ≡ n)
neg_ℕ_parts zero = (refl, refl)
neg_ℕ_parts (suc n) = (refl, refl)

pub div-le-div_right : (a b d : ℕ) → a ≤ b → a / d ≤ b / d
div-le-div_right a b zero h = rw (div-zero a, div-zero b) (omega arith)
div-le-div_right a b (suc d) h =
    (le-div_iff_mul-le (omega arith)).1 (le_trans (div-mul-le_self a (suc d)) h)

pub quot_mono : (a b : ℤ) (d : ℕ) → a ≤ℤ b → quot a d ≤ℤ quot b d
quot_mono (pos a) (pos b) d h = omega (arith, div-le-div_right a b d (omega arith))
quot_mono (pos a) (negsuc b) d h = absurd (omega arith)
quot_mono (negsuc a) (pos b) d h = omega (arith, neg_ℕ_parts (suc a / d))
quot_mono (negsuc a) (negsuc b) d h = omega (
  arith,
  neg_ℕ_parts (suc a / d),
  neg_ℕ_parts (suc b / d),
  div-le-div_right (suc b) (suc a) d (omega arith),
)

pub *ℤ-pos_mono : (a b : ℤ) (k : ℕ) → a ≤ℤ b → a *ℤ pos k ≤ℤ b *ℤ pos k
*ℤ-pos_mono (pos a) (pos b) k h = rw (pos-*ℤ a k, pos-*ℤ b k) (grind arith)
*ℤ-pos_mono (pos a) (negsuc b) k h = absurd (omega arith)
*ℤ-pos_mono (negsuc a) (pos b) k h =
    rw (pos-*ℤ b k, neg_ℕ-*ℤ (suc a) k) (omega (arith, neg_ℕ_parts (suc a * k)))
*ℤ-pos_mono (negsuc a) (negsuc b) k h =
    rw (neg_ℕ-*ℤ (suc a) k, neg_ℕ-*ℤ (suc b) k)
      (grind (arith, neg_ℕ_parts (suc a * k), neg_ℕ_parts (suc b * k)))

pub magnitude-*ℤ : (a b : ℤ) → magnitude (a *ℤ b) ≡ magnitude a * magnitude b
unfolding ◌*ℤ◌
magnitude-*ℤ a b = grind arith

pub magnitude-neg_ℕ : (n : ℕ) → magnitude (neg_ℕ n) ≡ n
magnitude-neg_ℕ zero = refl
magnitude-neg_ℕ (suc n) = refl

pub magnitude-quot : (z : ℤ) (d : ℕ) → magnitude (quot z d) ≡ magnitude z / d
magnitude-quot (pos n) d = refl
magnitude-quot (negsuc n) d = magnitude-neg_ℕ (suc n / d)

pub magnitude-rem : (z : ℤ) (d : ℕ) → magnitude (rem z d) ≡ magnitude z % d
magnitude-rem (pos n) d = refl
magnitude-rem (negsuc n) d = magnitude-neg_ℕ (suc n % d)
