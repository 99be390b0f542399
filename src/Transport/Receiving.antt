-- ===== src/Transport/Receiving.antt =====
-- native/src/transport/quic.rs: `RecvStream`, the receiving end of a stream. What quinn_proto returns
-- for the next reads of the stream is given, in order; it has nothing to read once that is used up.
use ethersync.Base.{
  ℕ, Bool, true, false, not, Option, none, some, List, [], ◌∷◌, ◌==◌, if◌then◌else◌, Result, ok,
  err, length, min, take, drop, String,
}
use ethersync.Wire.Messages.{Bytes}
use ethersync.Transport.Defs.{TransportError, Poll, ready, pending}
use ethersync.Transport.Shared.{Shared, park, wake, changed, consumed, enter, entered}

-- What a read of the stream returns, and whether the connection has something to send after it.
pub data Readout : Type 0 where
  chunk : Bytes → Bool → Readout
  end blocked : Bool → Readout
  was_reset : ℕ → Bool → Readout
  refused : String → Readout

pub record RecvStream : Type 0 where
  pub ended : Bool
  pub backlog : Bytes
  pub source : List Readout
  pub shared : Shared

abbrev pub is_empty {ℓ} : {A : Type ℓ} → List A → Bool
is_empty [] = true
is_empty (x ∷ xs) = false

-- `if transmit.should_transmit() { self.shared.changed(); }`
abbrev pub note : Bool → RecvStream → RecvStream
note true r = record r { shared = changed r.shared }
note false r = r

-- The wait for more, with the waker parked.
abbrev pub wait : {A : Type 0} → ℕ → RecvStream → Poll A × RecvStream
wait waker r = (pending, record r { shared = park waker r.shared })

unfoldable pub on_readout :
    ℕ → Readout → RecvStream → Poll (Result TransportError (Option Bytes)) × RecvStream
on_readout waker (chunk bytes transmit) r =
    let noted = note transmit r in
    (ready (ok (some bytes)), record noted { shared = consumed noted.shared })
on_readout waker (end transmit) r = (ready (ok none), record (note transmit r) { ended = true })
on_readout waker (blocked transmit) r = wait waker (note transmit r)
on_readout waker (was_reset code transmit) r =
    (ready (err (TransportError.reset code)), note transmit r)
on_readout waker (refused reason) r = (ready (err (TransportError.quic reason)), r)

abbrev pub next_readout :
    List Readout → ℕ → RecvStream → Poll (Result TransportError (Option Bytes)) × RecvStream
next_readout [] waker r = wait waker r
next_readout (o ∷ os) waker r = on_readout waker o (record r { source = os })

-- `RecvStream::read`
unfoldable pub read : ℕ → RecvStream → Poll (Result TransportError (Option Bytes)) × RecvStream
unfolding on_readout
read waker r =
    if r.ended
    then (ready (ok none), r)
    else entered (enter waker r.shared) (λ s. record r { shared = s })
        (λ s. next_readout r.source waker (record r { shared = s }))

-- The rest of `poll_read`, with bytes in the backlog: at most `len` of them are handed out.
unfoldable pub hand_out : ℕ → RecvStream → Poll (Result TransportError (Option Bytes)) × RecvStream
hand_out len r =
    let n = min len (length r.backlog) in
    let rest = drop n r.backlog in
    let left = record r { backlog = rest } in
    (
      ready (ok (some (take n r.backlog))),
      if is_empty rest then record left { shared = wake left.shared } else left,
    )

abbrev pub refill :
    ℕ
    → Poll (Result TransportError (Option Bytes)) × RecvStream
    → Poll (Result TransportError (Option Bytes)) × RecvStream
refill len (ready (ok (some bytes)), r) = hand_out len (record r { backlog = bytes })
refill len (ready (ok none), r) = (ready (ok none), r)
refill len (ready (err e), r) = (ready (err e), r)
refill len (pending, r) = (pending, r)

-- `RecvStream::poll_read` into `len` bytes, with the bytes instead of their number.
unfoldable pub poll_read :
    ℕ → ℕ → RecvStream → Poll (Result TransportError (Option Bytes)) × RecvStream
unfolding read hand_out
poll_read waker len r =
    if len == 0
    then (ready (ok (some [])), r)
    else if is_empty r.backlog
    then refill len (read waker r)
    else hand_out len r

abbrev pub keep :
    ℕ
    → Poll (Result TransportError (Option Bytes)) × RecvStream
    → Poll (Result TransportError (Unit {0})) × RecvStream
keep waker (ready (ok (some bytes)), r) = wait waker (record r { backlog = bytes })
keep waker (ready (ok none), r) = (ready (ok tt), r)
keep waker (ready (err e), r) = (ready (err e), r)
keep waker (pending, r) = (pending, r)

-- `RecvStream::poll_closed`
unfoldable pub poll_closed : ℕ → RecvStream → Poll (Result TransportError (Unit {0})) × RecvStream
unfolding read
poll_closed waker r =
    if r.ended
    then (ready (ok tt), r)
    else if not (is_empty r.backlog)
    then wait waker r
    else keep waker (read waker r)

-- `RecvStream::stop_code`, and `drop`, which stops a stream that has not ended. The code itself goes
-- to quinn_proto.
unfoldable pub stop_code : RecvStream → RecvStream
stop_code r = record r { ended = true; backlog = []; shared = changed r.shared }

unfoldable pub drop_recv : RecvStream → RecvStream
unfolding stop_code
drop_recv r = if r.ended then r else stop_code r
