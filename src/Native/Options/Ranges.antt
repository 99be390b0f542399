-- ===== src/Native/Options/Ranges.antt =====
-- native/src/api.rs and transport/tls.rs: the ranges that the checks of intervals and of pins stand for.
use ethersync.Base.{
  ℕ, ◌≤◌, ◌<◌, ◌≡◌, refl, Bool, true, false, ◌||◌, List, [], ◌∷◌, ltb, ◌==◌, bool_ne, ok, refuse,
  arith, All, ◌⊎◌, length,
}
use ethersync.Native.Pins.{validate_pin, all_hex}
use ethersync.Wire.Messages.{Bytes}
use ethersync.Native.Intervals.{Timing, hour, any_bad, intervals, validate}

pub neither : (x y : Bool) → (x || y) ≡ false → (x ≡ false) × (y ≡ false)
neither true y h = cc
neither false y h = (refl, h)

-- An interval above zero and within an hour.
abbrev pub IsInterval : ℕ → Type 0
IsInterval d = (0 < d) × (d ≤ hour)

pub any_bad-IsInterval : (ds : List ℕ) → any_bad ds ≡ false → All IsInterval ds
any_bad-IsInterval [] h = tt
any_bad-IsInterval (d ∷ ds) h =
    let (good, others) = neither ((d == 0) || ltb hour d) (any_bad ds) h in
    (ground arith, any_bad-IsInterval ds others)

pub refuse_ok : {E : Type 0} (b : Bool) (e : E) → refuse b e ≡ ok tt → b ≡ false
refuse_ok true e h = cc
refuse_ok false e h = refl

IsInterval-any_bad : (ds : List ℕ) → All IsInterval ds → any_bad ds ≡ false
IsInterval-any_bad [] h = refl
IsInterval-any_bad (d ∷ ds) (k, h) = let ih = IsInterval-any_bad ds h in ground arith

-- `0` to `9`, `A` to `F`, `a` to `f`.
abbrev pub IsHexDigit : ℕ → Type 0
IsHexDigit c = ((48 ≤ c) × (c ≤ 57)) ⊎ (((65 ≤ c) × (c ≤ 70)) ⊎ ((97 ≤ c) × (c ≤ 102)))

pub all_hex-digits : (cs : Bytes) → all_hex cs ≡ true → All IsHexDigit cs
all_hex-digits [] h = tt
all_hex-digits (c ∷ cs) h = (ground arith, all_hex-digits cs (ground arith))

pub validate_pin-digits :
    (pin : Bytes) → validate_pin pin ≡ ok tt → (length pin ≡ 64) × All IsHexDigit pin
unfolding validate_pin
validate_pin-digits pin h = (ground arith, all_hex-digits pin (ground arith))

-- The intervals of a timing that is accepted, and a correction policy that is.
pub record IsTiming (t : Timing) : Type 0 where
  pub acquisition_in : IsInterval t.acquisition_probe
  pub steady_in : IsInterval t.steady_probe
  pub heartbeat_in : IsInterval t.heartbeat
  pub publish_in : IsInterval t.tracked_publish
  pub source_in : IsInterval t.source_timeout
  pub connect_in : IsInterval t.connect_timeout
  pub least_in : IsInterval t.retry_min
  pub most_in : IsInterval t.retry_max
  pub ordered : t.retry_min ≤ t.retry_max

pub validate-IsTiming : (t : Timing) → validate t ≡ ok tt → IsTiming t
unfolding validate
validate-IsTiming t h =
    let good = refuse_ok (any_bad (intervals t) || ltb t.retry_max t.retry_min) _ h in
    let (within, order) = neither (any_bad (intervals t)) (ltb t.retry_max t.retry_min) good in
    let (a, (b, (c, (d, (e, (f, (g, (i, _)))))))) = any_bad-IsInterval (intervals t) within in
    record {
      acquisition_in = a;
      steady_in = b;
      heartbeat_in = c;
      publish_in = d;
      source_in = e;
      connect_in = f;
      least_in = g;
      most_in = i;
      ordered = ground arith;
    }

-- And back, from what is accepted to the checks.
pub validate-of_IsTiming : (t : Timing) → IsTiming t → validate t ≡ ok tt
unfolding validate
validate-of_IsTiming t h =
    let good : any_bad (intervals t) ≡ false = IsInterval-any_bad (intervals t) (
      h.acquisition_in,
      (
        h.steady_in,
        (
          h.heartbeat_in,
          (h.publish_in, (h.source_in, (h.connect_in, (h.least_in, (h.most_in, tt))))),
        ),
      ),
    ) in
    let order : ltb t.retry_max t.retry_min ≡ false = let k = h.ordered in ground arith in
    rw (good, order) refl

pub same_family : (a b : Bool) → a ≡ b → bool_ne a b ≡ false
same_family a b h = ground arith

pub digits-all_hex : (cs : Bytes) → All IsHexDigit cs → all_hex cs ≡ true
digits-all_hex [] h = refl
digits-all_hex (c ∷ cs) (d, h) = let ih = digits-all_hex cs h in ground arith
