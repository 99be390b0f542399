-- ===== src/Native/Pins.antt =====
-- native/src/transport/tls.rs: the fingerprint of a certificate, the check of a pin, and the check of a
-- server's certificate against it. Texts are their bytes; the digest (sha2's SHA-256) is a parameter.
use ethersync.Base.{
  ℕ, ◌+◌, ◌*◌, ◌/◌, ◌%◌, ◌<◌, ◌≡◌, ◌↔◌, refl, ap, ◌∙◌, sym, Bool, true, false, not, ◌&&◌, ◌||◌,
  Option, none, some, [], ◌∷◌, map, ltb, leb, ◌==◌, if◌then◌else◌, length, All, arith, Result, ok,
  err, String,
}
use ethersync.Wire.Messages.{Bytes}
use ethersync.Follower.Core.{eq_bytes}
use ethersync.Follower.Monotone.{eq_bytes→≡, eq_bytes_self}

-- A digit of `{b:02x}`, as a character's code.
abbrev pub hex_digit : ℕ → ℕ
hex_digit d = if ltb d 10 then 48 + d else 87 + d

abbrev pub hex : Bytes → Bytes
hex [] = []
hex (b ∷ bs) = hex_digit (b / 16) ∷ hex_digit (b % 16) ∷ hex bs

unfoldable pub fingerprint : (Bytes → Bytes) → Bytes → Bytes
fingerprint digest cert = hex (digest cert)

-- `is_ascii_hexdigit`
abbrev pub is_hex_digit : ℕ → Bool
is_hex_digit c = (leb 48 c && leb c 57) || ((leb 65 c && leb c 70) || (leb 97 c && leb c 102))

abbrev pub all_hex : Bytes → Bool
all_hex [] = true
all_hex (c ∷ cs) = is_hex_digit c && all_hex cs

unfoldable pub validate_pin : Bytes → Result String (Unit {0})
validate_pin pin =
    if not (length pin == 64) || not (all_hex pin)
    then err "certificate pin must contain 64 hexadecimal digits"
    else ok tt

-- `eq_ignore_ascii_case`
abbrev pub lower : ℕ → ℕ
lower c = if leb 65 c && leb c 90 then c + 32 else c

unfoldable pub same_text : Bytes → Bytes → Bool
same_text a b = eq_bytes (map lower a) (map lower b)

-- `pin.is_some_and(|pin| !pin.eq_ignore_ascii_case(..))`
unfoldable pub mismatches : Option Bytes → Bytes → Bool
unfolding same_text
mismatches none print = false
mismatches (some pin) print = not (same_text pin print)

unfoldable pub verify_server_cert :
    (Bytes → Bytes) → Option Bytes → Bytes → Result String (Unit {0})
unfolding mismatches
verify_server_cert digest pin cert =
    if mismatches pin (fingerprint digest cert)
    then err "certificate fingerprint mismatch"
    else ok tt

-- What SHA-256 documents of its results.
pub record IsDigest (d : Bytes) : Type 0 where
  pub thirty_two : length d ≡ 32
  pub bytes : All (λ b. b < 256) d

length-hex : (bs : Bytes) → length (hex bs) ≡ 2 * length bs
length-hex [] = refl
length-hex (b ∷ bs) = omega (arith, length-hex bs)

hex_digit_is_hex : (d : ℕ) → d < 16 → is_hex_digit (hex_digit d) ≡ true
hex_digit_is_hex d h = ground arith

lower-hex_digit : (d : ℕ) → d < 16 → lower (hex_digit d) ≡ hex_digit d
lower-hex_digit d h = ground arith

hex_digit_injective : (a b : ℕ) → a < 16 → b < 16 → hex_digit a ≡ hex_digit b → a ≡ b
hex_digit_injective a b ha hb h = ground arith

all_hex-hex : (bs : Bytes) → All (λ b. b < 256) bs → all_hex (hex bs) ≡ true
all_hex-hex [] h = refl
all_hex-hex (b ∷ bs) (small, rest) =
    rw
      (
        hex_digit_is_hex (b / 16) (omega arith),
        hex_digit_is_hex (b % 16) (omega arith),
        all_hex-hex bs rest,
      )
      refl

abbrev head : Bytes → ℕ
head [] = 0
head (b ∷ bs) = b

abbrev tail : Bytes → Bytes
tail [] = []
tail (b ∷ bs) = bs

hex_injective :
    (xs bs : Bytes)
    → All (λ b. b < 256) xs
    → All (λ b. b < 256) bs
    → map lower (hex xs) ≡ map lower (hex bs)
    → xs ≡ bs
hex_injective [] [] ha hb h = refl
hex_injective [] (b ∷ bs) ha hb h = cc
hex_injective (a ∷ xs) [] ha hb h = cc
hex_injective (a ∷ xs) (b ∷ bs) (sa, ha) (sb, hb) h =
    let high : a / 16 ≡ b / 16 = hex_digit_injective (a / 16) (b / 16) (omega arith) (omega arith) (
      sym (lower-hex_digit (a / 16) (omega arith))
      ∙ ap head h
      ∙ lower-hex_digit (b / 16) (omega arith)) in
    let low : a % 16 ≡ b % 16 = hex_digit_injective (a % 16) (b % 16) (omega arith) (omega arith) (
      sym (lower-hex_digit (a % 16) (omega arith))
      ∙ ap (λ t. head (tail t)) h
      ∙ lower-hex_digit (b % 16) (omega arith)) in
    let same : a ≡ b = omega arith in
    let others = hex_injective xs bs ha hb (ap (λ t. tail (tail t)) h) in rw (same, others) refl

same_text-hex :
    (xs bs : Bytes)
    → All (λ b. b < 256) xs
    → All (λ b. b < 256) bs
    → same_text (hex xs) (hex bs) ≡ true
    → xs ≡ bs
unfolding same_text
same_text-hex xs bs ha hb h =
    hex_injective xs bs ha hb (eq_bytes→≡ (map lower (hex xs)) (map lower (hex bs)) h)

accepted :
    (same : Bool) (e : String)
    → (let r : Result String (Unit {0}) = if not same then err e else ok tt in r ≡ ok tt)
    → same ≡ true
accepted true e h = refl
accepted false e h = cc

-- Where every digest is one of SHA-256, the fingerprint of a certificate is a valid pin, and a
-- connection pinned to it accepts exactly the certificates with the same digest.
pub verify_server_cert-fingerprint :
    (digest : Bytes → Bytes) (cert other : Bytes)
    → ((c : Bytes) → IsDigest (digest c))
    → (validate_pin (fingerprint digest cert) ≡ ok tt)
      × ((verify_server_cert digest (some (fingerprint digest cert)) other ≡ ok tt)
          ↔ (digest other ≡ digest cert))
unfolding validate_pin verify_server_cert fingerprint
verify_server_cert-fingerprint digest cert other d =
    let pin = hex (digest cert) in
    let long : length pin ≡ 64 = omega (arith, length-hex (digest cert), (d cert).thirty_two) in
    let good = all_hex-hex (digest cert) (d cert).bytes in
    (
      rw (long, good) refl,
      (
        (λ h. sym (
            same_text-hex (digest cert) (digest other) (d cert).bytes (d other).bytes
              (accepted (same_text pin (hex (digest other))) _ h))),
        (λ e. rw e (unfold same_text in rw (eq_bytes_self (map lower pin)) refl)),
      ),
    )
