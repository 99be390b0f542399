-- ===== src/Transport/Quinn.antt =====
-- native/src/transport/quic.rs: the endpoint's state. `Quinn` is what it uses of quinn_proto: the
-- states of a connection and of the endpoint, and the operations on them. The answers of the socket
-- come in order, as `arrivals` and as an argument of what sends.
use ethersync.Base.{ℕ, Bool, Option, none, some, List, [], ◌∷◌, Result, String, if◌then◌else◌, ◌==◌}
use ethersync.Wire.Messages.{Bytes}
use ethersync.Transport.Shared.{Shared}

-- Why a connection was lost: closed by the application at its other end, or something else.
pub data ConnectionError : Type 0 where
  application_closed : ℕ → String → ConnectionError
  other_error : String → ConnectionError

-- What a connection reports.
pub data ProtoEvent : Type 0 where
  connected other : ProtoEvent
  lost : ConnectionError → ProtoEvent
  finished : ℕ → ProtoEvent
  stopped : ℕ → ℕ → ProtoEvent

-- What a received datagram means. A response is what is to be sent.
pub data DatagramEvent (Change Incoming Transmit : Type 0) : Type 0 where
  connection_event : ℕ → Change → DatagramEvent Change Incoming Transmit
  new_connection : Incoming → DatagramEvent Change Incoming Transmit
  response : Transmit → DatagramEvent Change Incoming Transmit

pub record Quinn : Type 1 where
  pub Proto : Type 0
  pub Core : Type 0
  pub Incoming : Type 0
  pub Change : Type 0
  pub Notice : Type 0
  pub Transmit : Type 0
  pub poll_timeout : Proto → Option ℕ
  pub handle_timeout : ℕ → Proto → Proto
  pub apply_change : Change → Proto → Proto
  pub poll_transmit : ℕ → Proto → Option Transmit × Proto
  pub poll_notices : Proto → Option Notice × Proto
  pub poll_event : Proto → Option ProtoEvent × Proto
  pub is_drained : Proto → Bool
  pub handle : ℕ → ℕ → Bytes → Core → Option (DatagramEvent Change Incoming Transmit) × Core
  pub handle_notice : ℕ → Notice → Core → Option Change × Core
  pub ignore : Incoming → Core → Core
  pub accept : Incoming → ℕ → Core → Result (Option Transmit) (ℕ × Proto) × Core
  pub connect : ℕ → ℕ → Core → Result String (ℕ × Proto) × Core

-- What is known of the bytes that a receive put into the buffer.
pub record RecvMeta : Type 0 where
  pub addr : ℕ
  pub len : ℕ
  pub stride : ℕ

-- What a receive returns: bytes in the buffer, no datagram, nothing yet, or an error.
pub data Arrival : Type 0 where
  arrived : RecvMeta → Bytes → Arrival
  no_datagram would_block : Arrival
  failed : String → Arrival

module _ (q : Quinn) where
  open q use {Proto, Core, Transmit}

  pub record Conn : Type 0 where
    pub proto : Proto
    pub shared : Shared

  -- Of the buffers for sending their number is kept, and of a pending connection its handle. The keys
  -- of the hash map come in the order of the list.
  pub record Endpoint : Type 0 where
    pub core : Core
    pub connections : List (ℕ × Conn)
    pub incoming : List ℕ
    pub out : List Transmit
    pub buffer : Bytes
    pub limit : ℕ
    pub next : ℕ
    pub receive_pending : Option (RecvMeta × ℕ)
    pub receive_more : Bool
    pub send_buffers : ℕ
    pub write_blocked : Bool
    pub arrivals : List Arrival

-- `HashMap::get`, `insert`, `remove` and `keys`, over a value of any type.
module _ {V : Type 0} where
  unfoldable pub get : ℕ → List (ℕ × V) → Option V
  get id [] = none
  get id ((i, v) ∷ entries) = if i == id then some v else get id entries

  unfoldable pub insert : ℕ → V → List (ℕ × V) → List (ℕ × V)
  insert id v [] = (id, v) ∷ []
  insert id v ((i, w) ∷ entries) =
      let rest = insert id v entries in if i == id then (id, v) ∷ entries else (i, w) ∷ rest

  unfoldable pub remove : ℕ → List (ℕ × V) → List (ℕ × V)
  remove id [] = []
  remove id ((i, v) ∷ entries) =
      let rest = remove id entries in if i == id then rest else (i, v) ∷ rest

  unfoldable pub keys : List (ℕ × V) → List ℕ
  keys [] = []
  keys ((i, v) ∷ entries) = i ∷ keys entries
