-- ===== src/Tests/Options.antt =====
-- The checks of options and of certificates at concrete inputs.
use ethersync.Base.{
  ℕ, zero, suc, ◌%◌, ◌<◌, ◌≡◌, ◌↔◌, refl, Bool, true, some, [], ◌∷◌, ok, All, replicate, arith,
}
use ethersync.Base.Int.{ℤ}
use ethersync.Wire.Messages.{Bytes}
use ethersync.Follower.Core.{default_policy, legacy}
use ethersync.Native.Pins.{
  IsDigest, fingerprint, validate_pin, verify_server_cert, verify_server_cert-fingerprint,
}
use ethersync.Native.Options.{
  FollowerOptions, direct, bad_policy, check_trust, check_follower, Checked, check_follower-Checked,
}
use ethersync.Native.Intervals.{default_timing, validate}
use ethersync.Tests.Samples.{decimal_float}

abbrev only_v4 : ℕ → Bool
only_v4 address = true

abbrev plain_options : FollowerOptions ℕ ℤ
plain_options = direct only_v4 0 0 5

plain_options_pass : check_follower only_v4 plain_options ≡ ok tt
unfolding check_follower direct default_timing validate bad_policy check_trust default_policy legacy
plain_options_pass = refl

check_follower-Checked_example :
    (check_follower only_v4 plain_options ≡ ok tt) ↔ Checked only_v4 plain_options
check_follower-Checked_example = check_follower-Checked only_v4 plain_options

-- A digest that tells certificates apart by their first byte.
abbrev first_byte : Bytes → ℕ
first_byte [] = 0
first_byte (b ∷ bs) = b % 256

abbrev digest : Bytes → Bytes
digest cert = first_byte cert ∷ replicate 31 0

first_byte_below : (cert : Bytes) → first_byte cert < 256
first_byte_below [] = omega arith
first_byte_below (b ∷ bs) = omega arith

zeros_below : (n : ℕ) → All (λ b. b < 256) (replicate n 0)
zeros_below zero = tt
zeros_below (suc n) = (omega arith, zeros_below n)

digest-IsDigest : (cert : Bytes) → IsDigest (digest cert)
digest-IsDigest cert = record { thirty_two = refl; bytes = (first_byte_below cert, zeros_below 31) }

verify_server_cert-fingerprint_example :
    (validate_pin (fingerprint digest (1 ∷ 2 ∷ [])) ≡ ok tt)
    × ((verify_server_cert digest (some (fingerprint digest (1 ∷ 2 ∷ []))) (3 ∷ []) ≡ ok tt)
        ↔ (digest (3 ∷ []) ≡ digest (1 ∷ 2 ∷ [])))
verify_server_cert-fingerprint_example =
    verify_server_cert-fingerprint digest (1 ∷ 2 ∷ []) (3 ∷ []) digest-IsDigest
