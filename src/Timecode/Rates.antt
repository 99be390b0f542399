-- ===== src/Timecode/Rates.antt =====
-- `Rate::new`: what it accepts, and that it reduces to lowest terms without changing the rate.
use mathlib.Core.WellFounded.{Acc}
use Prim.Native.Nat.{◌∣◌}
use native.Mathlib.Nat
use ethersync.Base.{
  ℕ, zero, suc, ◌+◌, ◌*◌, ◌/◌, ◌%◌, ◌<◌, ◌≤◌, ◌≡◌, refl, sym, ap, ◌∙◌, arith, ok, false, Bool-cases,
  inl, inr,
}
use mathlib.Core.Path.{subst}
use ethersync.Base.Order.{acc}
use ethersync.Base.Int.Products.{neg_ℕ-*ℤ, pos-*ℤ, magnitude-quot}
use ethersync.Base.Int.{ℤ, pos, negsuc, ◌*ℤ◌, magnitude, quot, neg_ℕ}
use ethersync.Timecode.Motion.{Rate, mod-lt-suc, gcd_loop, gcd, bad_rate, new_rate}

gcd_loop-dvd : (a b : ℕ) (w : Acc ◌<◌ b) → (gcd_loop a b w ∣ a) × (gcd_loop a b w ∣ b)
unfolding gcd_loop
gcd_loop-dvd a zero w = (Nat.dvd_refl a, Nat.dvd-zero a)
gcd_loop-dvd a (suc b) (Acc.intro _ smaller) =
    let r = gcd_loop-dvd (suc b) (a % suc b) (smaller (a % suc b) (mod-lt-suc a b)) in
    ((Nat.dvd-mod_iff _ r.0).0 r.1, r.0)

pub gcd-dvd : (a b : ℕ) → (gcd a b ∣ a) × (gcd a b ∣ b)
unfolding gcd
gcd-dvd a b = gcd_loop-dvd a b (acc b)

mul-mod-mul : (k a b : ℕ) → 0 < k → 0 < b → k * a % (k * b) ≡ k * (a % b)
mul-mod-mul k a b hk hb =
    rw split (Nat.mul-add-mod_self_left (k * b) (a / b) (k * (a % b)) ∙ Nat.mod-eq_of_lt small)
  where
    split : k * a ≡ k * b * (a / b) + k * (a % b)
    split = omega (arith, ap (λ (t : ℕ). k * t) (Nat.div-add-mod a b))

    below : a % b < b
    below = Nat.mod-lt a hb

    small : k * (a % b) < k * b
    small = grind arith

-- The loop on multiples of a common factor.
gcd_loop_scale :
    (k a b x y : ℕ) (w : Acc ◌<◌ b) (w' : Acc ◌<◌ y)
    → 0 < k
    → x ≡ k * a
    → y ≡ k * b
    → gcd_loop x y w' ≡ k * gcd_loop a b w
unfolding gcd_loop
gcd_loop_scale k a zero x zero w w' h e e' = e
gcd_loop_scale k a zero x (suc y) w w' h e e' = absurd (omega arith)
gcd_loop_scale zero a (suc b) x zero w w' h e e' = elim h [ ]
gcd_loop_scale (suc k) a (suc b) x zero w w' h e e' = absurd (omega arith)
gcd_loop_scale k a (suc b) x (suc y) (Acc.intro _ smaller) (Acc.intro _ smaller') h e e' =
    gcd_loop_scale k (suc b) (a % suc b) (suc y) (x % suc y) (smaller (a % suc b) (mod-lt-suc a b))
      (smaller' (x % suc y) (mod-lt-suc x y)) h e'
      (rw (e, e') (mul-mod-mul k a (suc b) h (omega arith)))

gcd_scale : (k a b : ℕ) → 0 < k → gcd (k * a) (k * b) ≡ k * gcd a b
unfolding gcd
gcd_scale k a b h = gcd_loop_scale k a b (k * a) (k * b) (acc b) (acc (k * b)) h refl refl

gcd-pos : (a b : ℕ) → 0 < b → 0 < gcd a b
gcd-pos a b h = Nat.pos_of_dvd_of_pos (gcd-dvd a b).1 h

gcd-div-div : (a b : ℕ) → 0 < b → gcd (a / gcd a b) (b / gcd a b) ≡ 1
gcd-div-div a b h = Nat.eq_of_mul-eq-mul_left g g_pos _ _ (sym scaled ∙ sym (Nat.mul-one g))
  where
    g : ℕ
    g = gcd a b

    g_pos : 0 < g
    g_pos = gcd-pos a b h

    scaled : g ≡ g * gcd (a / g) (b / g)
    scaled =
        rw (Nat.mul-div_cancel' g (gcd-dvd a b).0, Nat.mul-div_cancel' g (gcd-dvd a b).1) at
          (gcd_scale g (a / g) (b / g) g_pos)

-- What `Rate::new` establishes: the bounds, and lowest terms.
pub record IsRate (r : Rate) : Type 0 where
  pub den_pos : 0 < r.denominator
  pub den_le : r.denominator ≤ 1_000_000
  pub num_le : magnitude r.numerator ≤ 1_000_000
  pub at_most_64 : magnitude r.numerator ≤ r.denominator * 64
  pub lowest : gcd (magnitude r.numerator) r.denominator ≡ 1

quot-one : (z : ℤ) → quot z 1 ≡ z
quot-one (pos n) = rw (Nat.div-one n)
quot-one (negsuc n) = rw (Nat.div-one (suc n))

-- A rate with these properties is what `Rate::new` makes of its own two numbers.
pub new_rate-of_IsRate : (r : Rate) → IsRate r → new_rate r.numerator r.denominator ≡ ok r
unfolding new_rate
new_rate-of_IsRate r v =
    rw (v.lowest, quot-one r.numerator, Nat.div-one r.denominator) (ground arith)

-- Division by a common factor.
cross_quotient : (n g q d : ℕ) → g * (n / g) ≡ n → g * q ≡ d → n / g * d ≡ n * q
cross_quotient n g q d e e' = rw (← e') (omega (arith, ap (λ (t : ℕ). t * q) e))

quot_cross :
    (z : ℤ) (g q d : ℕ)
    → g * (magnitude z / g) ≡ magnitude z
    → g * q ≡ d
    → quot z g *ℤ pos d ≡ z *ℤ pos q
quot_cross (pos n) g q d e e' =
    rw (pos-*ℤ (n / g) d, pos-*ℤ n q) (ap pos (cross_quotient n g q d e e'))
quot_cross (negsuc n) g q d e e' =
    rw (neg_ℕ-*ℤ (suc n / g) d, neg_ℕ-*ℤ (suc n) q) (ap neg_ℕ (cross_quotient (suc n) g q d e e'))

module _ (n : ℤ) (d : ℕ) (good : bad_rate n d ≡ false) where
  abbrev divisor : ℕ
  divisor = gcd (magnitude n) d

  d_pos : 0 < d
  unfolding bad_rate
  d_pos = ground arith

  divisor_pos : 0 < divisor
  divisor_pos = gcd-pos (magnitude n) d d_pos

  whole_den : divisor * (d / divisor) ≡ d
  whole_den = Nat.mul-div_cancel' divisor (gcd-dvd (magnitude n) d).1

  whole_num : divisor * (magnitude n / divisor) ≡ magnitude n
  whole_num = Nat.mul-div_cancel' divisor (gcd-dvd (magnitude n) d).0

  in_bounds : magnitude n ≤ d * 64
  unfolding bad_rate
  in_bounds = ground arith

  reduced_bound : magnitude n / divisor ≤ d / divisor * 64
  reduced_bound =
      Nat.le_of_mul-le-mul_left {k = divisor}
        (omega (arith, whole_num, ap (λ (t : ℕ). t * 64) whole_den, in_bounds)) divisor_pos

  reduced-IsRate : IsRate (record { numerator = quot n divisor; denominator = d / divisor })
  unfolding bad_rate
  reduced-IsRate = record {
    den_pos = grind (arith, whole_den, d_pos);
    den_le = ground (arith, Nat.div-le_self d divisor);
    num_le = rw (magnitude-quot n divisor) (ground (arith, Nat.div-le_self (magnitude n) divisor));
    at_most_64 = rw (magnitude-quot n divisor) reduced_bound;
    lowest = rw (magnitude-quot n divisor) (gcd-div-div (magnitude n) d d_pos);
  }

-- An accepted rate is in range and in lowest terms, and it is the fraction that was given.
pub new_rate-IsRate :
    (n : ℤ) (d : ℕ) (r : Rate)
    → new_rate n d ≡ ok r
    → IsRate r × (r.numerator *ℤ pos d ≡ n *ℤ pos r.denominator)
unfolding new_rate
new_rate-IsRate n d r e = elim (Bool-cases (bad_rate n d)) [
  | inl bad ↦ absurd (cc (rw bad at e))
  | inr good ↦
      subst (λ (t : Rate). IsRate t × (t.numerator *ℤ pos d ≡ n *ℤ pos t.denominator))
        (cc (rw good at e))
        (
          reduced-IsRate n d good,
          quot_cross n (divisor n d good) (d / divisor n d good) d (whole_num n d good)
              (whole_den n d good),
        )
]
