-- ===== src/Transport/Defs.antt =====
-- native/src/transport/mod.rs: the transport's errors. Also `Poll` of the standard library.
use ethersync.Base.{ℕ, ◌^◌, Option, none, some, String, ltb, if◌then◌else◌}

pub data TransportError : Type 0 where
  invalid quic web : String → TransportError
  closed : ℕ → String → TransportError
  reset stop : ℕ → TransportError
  http3 : ℕ → String → TransportError

-- `(*code).try_into().ok()`, to 32 bits.
abbrev pub to_u32 : ℕ → Option ℕ
to_u32 code = if ltb code (2 ^ 32) then some code else none

unfoldable pub session_error : TransportError → Option (ℕ × String)
session_error (TransportError.closed code reason) =
    if ltb code (2 ^ 32) then some (code, reason) else none
session_error e = none

unfoldable pub stream_error : TransportError → Option ℕ
stream_error (TransportError.reset code) = to_u32 code
stream_error (TransportError.stop code) = to_u32 code
stream_error e = none

-- `std::task::Poll`
pub data Poll {ℓ} (A : Type ℓ) : Type ℓ where
  ready : A → Poll A
  pending : Poll A
