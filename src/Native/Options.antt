-- ===== src/Native/Options.antt =====
-- native/src/api.rs: the checks of an engine's options. Lengths of texts are in bytes, and addresses
-- (std::net) are a type with what the checks ask of them.
use ethersync.Base.{
  ◌↔◌, ℕ, ◌≤◌, ◌<◌, ◌≡◌, refl, Bool, true, false, not, ◌||◌, List, [], ◌∷◌, String, ltb, ◌==◌,
  bool_ne, if◌then◌else◌, Result, ok, err, ◌>>◌, refuse, arith, refuse-eq-ok, >>=-eq-ok, All, sym,
  ◌⊎◌, length,
}
use ethersync.Base.Float.{Float, ◌≼◌, literal}
use ethersync.Native.{NativeError}
use ethersync.Native.Pins.{validate_pin, all_hex}
use ethersync.Wire.Messages.{Bytes}
use ethersync.Timecode.Defs.{Error}
use ethersync.Timecode.Defs.{Position, FrameFormat, from_frames, default_format}
use ethersync.Base.Int.{pos}
use ethersync.Follower.Core.{CorrectionPolicy, default_policy}
use ethersync.FollowerJob.Defs.{FollowerConfig}
use ethersync.Native.Intervals.{Timing, default_timing, hour, any_bad, intervals, validate}
use ethersync.Native.Options.Ranges.{
  neither, IsTiming, IsHexDigit, validate-IsTiming, validate-of_IsTiming, same_family,
  digits-all_hex, validate_pin-digits,
}
pub mod Ranges

-- `Engine::leader`, its checks: of the intervals, the capacity and the lengths of name and identity.
unfoldable pub check_leader : Timing → ℕ → ℕ → ℕ → Result NativeError (Unit {0})
unfolding validate
check_leader t max_followers name_len identity_len = do
  validate t
  refuse
      ((max_followers == 0)
        || (ltb 1024 max_followers
            || ((name_len == 0) || (ltb 63 name_len || ltb 100 identity_len))))
      (NativeError.invalid "leader name, identity or follower capacity")

pub data Trust : Type 0 where
  trusted_lan : Trust
  pinned : Bytes → Trust

abbrev pub pin_checked : Result String (Unit {0}) → Result NativeError (Unit {0})
pin_checked (ok _) = ok tt
pin_checked (err e) = err (NativeError.transport e)

unfoldable pub check_trust : Trust → Result NativeError (Unit {0})
check_trust trusted_lan = ok tt
check_trust (pinned fingerprint) = pin_checked (validate_pin fingerprint)

-- The options of a follower, over the type of addresses.
pub record FollowerOptions (A : Type 0) (F : Type 0) : Type 0 where
  pub address : A
  pub bind : A
  pub trust : Trust
  pub timing : Timing
  pub correction : CorrectionPolicy F
  pub fallback_position : Position
  pub fallback_format : FrameFormat
  pub clock_diagnostics : Bool

-- The part of them that the job uses.
abbrev pub job_config : {A F : Type 0} → FollowerOptions A F → FollowerConfig F
job_config o = record {
  acquisition_probe = o.timing.acquisition_probe;
  steady_probe = o.timing.steady_probe;
  connect_timeout = o.timing.connect_timeout;
  retry_min = o.timing.retry_min;
  retry_max = o.timing.retry_max;
  correction = o.correction;
  fallback_position = o.fallback_position;
  fallback_format = o.fallback_format;
}

-- What the checks of a discovered leader read of it.
pub record DiscoveredLeader (A : Type 0) : Type 0 where
  pub protocol_version : ℕ
  pub addresses : List A
  pub fingerprint : Bytes

-- `contains(&address)`
unfoldable pub contains : {A : Type 0} → (A → A → Bool) → List A → A → Bool
contains eq [] address = false
contains eq (a ∷ addresses) address = eq a address || contains eq addresses address

unfoldable pub bad_policy : {F : Type 0} ⦃fl : Float F⦄ → CorrectionPolicy F → Bool
bad_policy ⦃fl⦄ p =
    not (fl.is_finite p.slew_frames_per_second)
    || ((p.slew_frames_per_second ≼ literal 0 0)
        || (not (fl.is_finite p.hard_threshold_frames)
            || ((p.hard_threshold_frames ≼ literal 0 0)
                || ((p.confirmations == 0) || ltb hour p.settle_time_ns))))

pin_checked-eq-ok : (r : Result String (Unit {0})) → pin_checked r ≡ ok tt → r ≡ ok tt
pin_checked-eq-ok (ok _) h = refl
pin_checked-eq-ok (err e) h = cc

check_trust-pin :
    (trust : Trust) (pin : Bytes)
    → check_trust trust ≡ ok tt
    → trust ≡ pinned pin
    → validate_pin pin ≡ ok tt
unfolding check_trust
check_trust-pin trusted_lan pin h e = cc
check_trust-pin (pinned fingerprint) pin h e =
    let same : fingerprint ≡ pin = cc in
    rw (sym same) (pin_checked-eq-ok (validate_pin fingerprint) h)

check_trust-of_pin :
    (trust : Trust)
    → ((pin : Bytes) → trust ≡ pinned pin → (length pin ≡ 64) × All IsHexDigit pin)
    → check_trust trust ≡ ok tt
unfolding check_trust validate_pin
check_trust-of_pin trusted_lan h = refl
check_trust-of_pin (pinned pin) h =
    let (long, digits) = h pin refl in rw (long, digits-all_hex pin digits) refl

module _ {F : Type 0} ⦃fl : Float F⦄ where
  pub record IsPolicy (p : CorrectionPolicy F) : Type 0 where
    pub slew_finite : fl.is_finite p.slew_frames_per_second ≡ true
    pub slew_positive : (p.slew_frames_per_second ≼ literal 0 0) ≡ false
    pub threshold_finite : fl.is_finite p.hard_threshold_frames ≡ true
    pub threshold_positive : (p.hard_threshold_frames ≼ literal 0 0) ≡ false
    pub confirms : 1 ≤ p.confirmations
    pub settles : p.settle_time_ns ≤ hour

  bad_policy-IsPolicy : (p : CorrectionPolicy F) → bad_policy p ≡ false → IsPolicy p
  unfolding bad_policy
  bad_policy-IsPolicy p h = record {
    slew_finite = ground arith;
    slew_positive = ground arith;
    threshold_finite = ground arith;
    threshold_positive = ground arith;
    confirms = ground arith;
    settles = ground arith;
  }

  bad_policy-of_IsPolicy : (p : CorrectionPolicy F) → IsPolicy p → bad_policy p ≡ false
  unfolding bad_policy
  bad_policy-of_IsPolicy p h =
      let none_zero : (p.confirmations == 0) ≡ false = let k = h.confirms in ground arith in
      let soon : ltb hour p.settle_time_ns ≡ false = let k = h.settles in ground arith in
      rw (h.slew_finite, h.slew_positive, h.threshold_finite, h.threshold_positive, none_zero, soon)
        refl

module _ {A F : Type 0} ⦃fl : Float F⦄ where
  -- `FollowerConfig::direct`, with the wildcard address of each family.
  unfoldable pub direct : (A → Bool) → A → A → A → FollowerOptions A F
  direct is_ipv4 any_v4 any_v6 address = record {
    address = address;
    bind = if is_ipv4 address then any_v4 else any_v6;
    trust = trusted_lan;
    timing = default_timing;
    correction = default_policy;
    fallback_position = from_frames (pos 0);
    fallback_format = default_format;
    clock_diagnostics = false;
  }

  unfoldable pub discovered :
      (A → A → Bool)
      → (A → Bool)
      → A
      → A
      → DiscoveredLeader A
      → A
      → Result NativeError (FollowerOptions A F)
  unfolding direct contains
  discovered eq is_ipv4 any_v4 any_v6 leader address = do
    refuse (not (leader.protocol_version == 1))
        (NativeError.protocol (Error.version leader.protocol_version))
    refuse (not (contains eq leader.addresses address))
        (NativeError.invalid "address is not in discovered service")
    ok (record (direct is_ipv4 any_v4 any_v6 address) { trust = pinned leader.fingerprint })

  -- `Engine::follower`, its checks.
  unfoldable pub check_follower : (A → Bool) → FollowerOptions A F → Result NativeError (Unit {0})
  unfolding validate bad_policy check_trust
  check_follower is_ipv4 o = do
    validate o.timing
    refuse (bad_policy o.correction) (NativeError.invalid "correction policy")
    refuse (bool_ne (is_ipv4 o.bind) (is_ipv4 o.address))
        (NativeError.invalid "bind/address families differ")
    check_trust o.trust

  -- What the accepted options of a follower keep to.
  pub record Checked (is_ipv4 : A → Bool) (o : FollowerOptions A F) : Type 0 where
    pub timing_in : IsTiming o.timing
    pub policy_in : IsPolicy o.correction
    pub one_family : is_ipv4 o.bind ≡ is_ipv4 o.address
    pub pin_in : (pin : Bytes) → o.trust ≡ pinned pin → (length pin ≡ 64) × All IsHexDigit pin

  check_follower-accepted :
      (is_ipv4 : A → Bool) (o : FollowerOptions A F)
      → check_follower is_ipv4 o ≡ ok tt
      → Checked is_ipv4 o
  unfolding check_follower
  check_follower-accepted is_ipv4 o h =
      let (_, timed, h1) = >>=-eq-ok (validate o.timing) _ h in
      let (policy, h2) = refuse-eq-ok (bad_policy o.correction) _ _ h1 in
      let (family, h3) = refuse-eq-ok (bool_ne (is_ipv4 o.bind) (is_ipv4 o.address)) _ _ h2 in
      record {
        timing_in = validate-IsTiming o.timing timed;
        policy_in = bad_policy-IsPolicy o.correction policy;
        one_family = ground arith;
        pin_in = λ pin e. validate_pin-digits pin (check_trust-pin o.trust pin h3 e);
      }

  check_follower-of_Checked :
      (is_ipv4 : A → Bool) (o : FollowerOptions A F)
      → Checked is_ipv4 o
      → check_follower is_ipv4 o ≡ ok tt
  unfolding check_follower
  check_follower-of_Checked is_ipv4 o c =
      let family : bool_ne (is_ipv4 o.bind) (is_ipv4 o.address) ≡ false =
        same_family (is_ipv4 o.bind) (is_ipv4 o.address) c.one_family in
      rw
        (
          validate-of_IsTiming o.timing c.timing_in,
          bad_policy-of_IsPolicy o.correction c.policy_in,
          family,
        )
        (check_trust-of_pin o.trust c.pin_in)

  -- Accepted are exactly the options where each of the eight intervals is above zero and within an hour,
  -- the least wait for a retry is not above the most; the slew and the threshold of the correction policy
  -- are finite and above zero, it asks for at least one confirmation and settles within an hour; the two
  -- addresses are of one family, and a pin has 64 hexadecimal digits.
  pub check_follower-Checked :
      (is_ipv4 : A → Bool) (o : FollowerOptions A F)
      → (check_follower is_ipv4 o ≡ ok tt) ↔ Checked is_ipv4 o
  check_follower-Checked is_ipv4 o =
      (check_follower-accepted is_ipv4 o, check_follower-of_Checked is_ipv4 o)
