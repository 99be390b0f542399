-- ===== src/Transport/Connections.antt =====
-- native/src/transport/quic.rs: `Connection` and `PendingConnection`. What quinn_proto returns is an
-- argument. A stream that is opened or accepted is its number.
use ethersync.Base.{
  ℕ, Bool, true, false, Option, none, some, List, [], if◌then◌else◌, Result, ok, err, String,
}
use ethersync.Wire.Messages.{Bytes}
use ethersync.Transport.Defs.{TransportError, Poll, ready, pending}
use ethersync.Transport.Shared.{Shared, park, wake, changed, consumed, enter, entered}
use ethersync.Transport.Sending.{SendStream, new_send}
use ethersync.Transport.Receiving.{RecvStream, Readout}

abbrev pub is_some {ℓ} : {A : Type ℓ} → Option A → Bool
is_some none = false
is_some (some a) = true

-- `Connection::close_code`
unfoldable pub close_code : ℕ → String → Shared → Shared
unfolding wake
close_code code reason s =
    if is_some s.error
    then s
    else wake (changed (record s { error = some (TransportError.closed code reason) }))

-- `PendingConnection::close`
unfoldable pub close_pending : Shared → Shared
unfolding close_code
close_pending s = close_code 0 "cancelled" s

abbrev pub ready_unless : Option TransportError → Shared → Result TransportError (Option Shared)
ready_unless (some e) s = err e
ready_unless none s = if s.connected then ok (some s) else ok none

-- `PendingConnection::ready`; the protocol that was negotiated is read from quinn_proto.
unfoldable pub ready_connection : Shared → Result TransportError (Option Shared)
ready_connection s = ready_unless s.error s

unfoldable pub on_stream : ℕ → Option ℕ → Shared → Poll (Result TransportError ℕ) × Shared
on_stream waker (some id) s = (ready (ok id), changed (consumed s))
on_stream waker none s = (pending, park waker s)

-- `Connection::streams`, with the stream that quinn_proto opens or accepts.
unfoldable pub streams : ℕ → Option ℕ → Shared → Poll (Result TransportError ℕ) × Shared
unfolding on_stream
streams waker answer s = entered (enter waker s) (λ t. t) (on_stream waker answer)

abbrev pub with_send :
    Poll (Result TransportError ℕ) × Shared → Poll (Result TransportError SendStream) × Shared
with_send (ready (ok id), s) = let t = new_send s id in (ready (ok t), t.shared)
with_send (ready (err e), s) = (ready (err e), s)
with_send (pending, s) = (pending, s)

-- `poll_open_uni`
unfoldable pub poll_open_uni :
    ℕ → Option ℕ → Shared → Poll (Result TransportError SendStream) × Shared
unfolding streams new_send
poll_open_uni waker answer s = with_send (streams waker answer s)

-- `RecvStream::new`, with what quinn_proto will return for its reads.
unfoldable pub new_recv : Shared → List Readout → RecvStream
new_recv s source = record { ended = false; backlog = []; source = source; shared = s }

abbrev pub with_recv :
    List Readout
    → Poll (Result TransportError ℕ) × Shared
    → Poll (Result TransportError RecvStream) × Shared
with_recv source (ready (ok id), s) = (ready (ok (new_recv s source)), s)
with_recv source (ready (err e), s) = (ready (err e), s)
with_recv source (pending, s) = (pending, s)

-- `poll_accept_uni`
unfoldable pub poll_accept_uni :
    ℕ → Option ℕ → List Readout → Shared → Poll (Result TransportError RecvStream) × Shared
unfolding streams new_recv
poll_accept_uni waker answer source s = with_recv source (streams waker answer s)

-- What sending a datagram returns.
pub data SendAnswer : Type 0 where
  queued blocked : SendAnswer
  refused : String → SendAnswer

unfoldable pub on_send : ℕ → SendAnswer → Shared → Poll (Result TransportError (Unit {0})) × Shared
on_send waker queued s = (ready (ok tt), changed (consumed s))
on_send waker blocked s = (pending, park waker s)
on_send waker (refused reason) s = (ready (err (TransportError.quic reason)), s)

unfoldable pub poll_send_datagram :
    ℕ → SendAnswer → Shared → Poll (Result TransportError (Unit {0})) × Shared
unfolding on_send
poll_send_datagram waker answer s = entered (enter waker s) (λ t. t) (on_send waker answer)

unfoldable pub on_recv : ℕ → Option Bytes → Shared → Poll (Result TransportError Bytes) × Shared
on_recv waker (some bytes) s = (ready (ok bytes), consumed s)
on_recv waker none s = (pending, park waker s)

unfoldable pub poll_recv_datagram :
    ℕ → Option Bytes → Shared → Poll (Result TransportError Bytes) × Shared
unfolding on_recv
poll_recv_datagram waker answer s = entered (enter waker s) (λ t. t) (on_recv waker answer)

-- `Connection::poll_closed`
unfoldable pub poll_lost : ℕ → Shared → Poll TransportError × Shared
poll_lost waker s = elim s.error [ some e ↦ (ready e, s) | none ↦ (pending, park waker s) ]
