-- ===== src/Transport/Budget.antt =====
-- native/src/transport/quic.rs: what the operations of a connection and its streams take of the budget
-- that the endpoint gives a connection for one pass, and that those which have to wait leave a waker.
use ethersync.Base.{
  ℕ, ◌+◌, ◌≤◌, ◌≡◌, refl, Bool, true, false, Option, none, some, List, [], ◌∷◌, ◌==◌, Result, ok,
  err, arith, Bool-cases, inl, inr, if_elim,
}
use ethersync.Wire.Messages.{Bytes}
use ethersync.Transport.Defs.{TransportError, Poll, ready, pending}
use ethersync.Transport.Shared.{
  Shared, park, enter, admit, enter_unless, entered, Parks, parked-park,
}
use ethersync.Transport.Receiving.{
  Readout, chunk, end, blocked, was_reset, refused, RecvStream, note, on_readout, next_readout,
  read,
}
use ethersync.Transport.Sending.{Written, SendStream, try_write, on_written, poll_write}
use ethersync.Transport.Connections.{
  SendAnswer, on_stream, streams, on_send, poll_send_datagram, on_recv, poll_recv_datagram,
}

-- An operation that the transport performed counts as one, any other as none.
abbrev pub moved : {A : Type 0} → Poll (Result TransportError A) → ℕ
moved (ready (ok a)) = 1
moved (ready (err e)) = 0
moved pending = 0

-- The end of a stream is no operation.
abbrev pub moved_read : Poll (Result TransportError (Option Bytes)) → ℕ
moved_read (ready (ok (some bytes))) = 1
moved_read (ready (ok none)) = 0
moved_read (ready (err e)) = 0
moved_read pending = 0

-- What an operation counts for is what it takes of the budget, and one that waits leaves its waker.
record Accounts {A : Type 0} (w : ℕ) (count : ℕ) (poll : Poll A) (before after : Shared)
    : Type 0 where
  spent : count + after.budget ≡ before.budget
  parks : Parks w poll after

park-budget : (w : ℕ) (s : Shared) → (park w s).budget ≡ s.budget
unfolding park
park-budget w s = ground arith

module _ {A S : Type 0} (m : Poll (Result TransportError A) → ℕ) (m-pending : m pending ≡ 0)
    (m-err : (e : TransportError) → m (ready (err e)) ≡ 0) (get : S → Shared) (put : Shared → S)
    (get-put : (s : Shared) → get (put s) ≡ s) (w : ℕ) (s : Shared)
    (next : Shared → Poll (Result TransportError A) × S) where
  Entry : Poll (Result TransportError (Unit {0})) × Shared → Type 0
  Entry r = let p = entered r put next in Accounts w (m p.0) p.0 s (get p.1)

  admit-Accounts :
      (1 ≤ s.budget → Accounts w (m (next s).0) (next s).0 s (get (next s).1)) → Entry (admit w s)
  unfolding Entry admit
  admit-Accounts h = elim (Bool-cases (s.budget == 0)) [
    | inl e ↦
        let t = record s { needs_pass = true } in
        rw e (record {
          spent = rw (m-pending, get-put (park w t)) (omega (arith, park-budget w t));
          parks = rw (get-put (park w t)) (parked-park w t);
        })
    | inr e ↦ rw e (h (ground arith))
  ]

  enter_unless-Accounts :
      (e : Option TransportError)
      → (1 ≤ s.budget → Accounts w (m (next s).0) (next s).0 s (get (next s).1))
      → Entry (enter_unless e w s)
  unfolding Entry
  enter_unless-Accounts (some e) h = record {
    spent = rw (m-err e, get-put s) (omega arith);
    parks = tt;
  }
  enter_unless-Accounts none h = unfold Entry in admit-Accounts h

  entered-Accounts :
      (1 ≤ s.budget → Accounts w (m (next s).0) (next s).0 s (get (next s).1)) → Entry (enter w s)
  unfolding Entry enter
  entered-Accounts h = unfold Entry in enter_unless-Accounts s.error h

streams-Accounts :
    (w : ℕ) (answer : Option ℕ) (s : Shared)
    → Accounts w (moved (streams w answer s).0) (streams w answer s).0 s (streams w answer s).1
unfolding streams on_stream Entry
streams-Accounts w none s =
    entered-Accounts moved refl (λ _. refl) (λ t. t) (λ t. t) (λ _. refl) w s (on_stream w none)
      (λ _. record { spent = omega (arith, park-budget w s); parks = parked-park w s })
streams-Accounts w (some id) s =
    entered-Accounts moved refl (λ _. refl) (λ t. t) (λ t. t) (λ _. refl) w s
      (on_stream w (some id))
      (λ h. record { spent = let k : 1 ≤ s.budget = h in omega arith; parks = tt })

poll_send_datagram-Accounts :
    (w : ℕ) (answer : SendAnswer) (s : Shared)
    → let p = poll_send_datagram w answer s in Accounts w (moved p.0) p.0 s p.1
unfolding poll_send_datagram on_send Entry
poll_send_datagram-Accounts w SendAnswer.queued s =
    entered-Accounts moved refl (λ _. refl) (λ t. t) (λ t. t) (λ _. refl) w s
      (on_send w SendAnswer.queued)
      (λ h. record { spent = let k : 1 ≤ s.budget = h in omega arith; parks = tt })
poll_send_datagram-Accounts w SendAnswer.blocked s =
    entered-Accounts moved refl (λ _. refl) (λ t. t) (λ t. t) (λ _. refl) w s
      (on_send w SendAnswer.blocked)
      (λ _. record { spent = omega (arith, park-budget w s); parks = parked-park w s })
poll_send_datagram-Accounts w (SendAnswer.refused reason) s =
    entered-Accounts moved refl (λ _. refl) (λ t. t) (λ t. t) (λ _. refl) w s
      (on_send w (SendAnswer.refused reason))
      (λ h. record { spent = let k : 1 ≤ s.budget = h in omega arith; parks = tt })

poll_recv_datagram-Accounts :
    (w : ℕ) (answer : Option Bytes) (s : Shared)
    → let p = poll_recv_datagram w answer s in Accounts w (moved p.0) p.0 s p.1
unfolding poll_recv_datagram on_recv Entry
poll_recv_datagram-Accounts w none s =
    entered-Accounts moved refl (λ _. refl) (λ t. t) (λ t. t) (λ _. refl) w s (on_recv w none)
      (λ _. record { spent = omega (arith, park-budget w s); parks = parked-park w s })
poll_recv_datagram-Accounts w (some bytes) s =
    entered-Accounts moved refl (λ _. refl) (λ t. t) (λ t. t) (λ _. refl) w s
      (on_recv w (some bytes))
      (λ h. record { spent = let k : 1 ≤ s.budget = h in omega arith; parks = tt })

on_written-Accounts :
    (w : ℕ) (answer : Written) (t : SendStream)
    → 1 ≤ t.shared.budget
    → let p = on_written w answer t in Accounts w (moved p.0) p.0 t.shared p.1.shared
unfolding on_written
on_written-Accounts w (Written.wrote n) t h = record { spent = omega arith; parks = tt }
on_written-Accounts w Written.blocked t h = record {
  spent = omega (arith, park-budget w t.shared);
  parks = parked-park w t.shared;
}
on_written-Accounts w (Written.stopped code) t h = record { spent = omega arith; parks = tt }
on_written-Accounts w (Written.refused reason) t h = record { spent = omega arith; parks = tt }

poll_write-Accounts :
    (w : ℕ) (answer : Written) (t : SendStream)
    → let p = poll_write w answer t in Accounts w (moved p.0) p.0 t.shared p.1.shared
unfolding poll_write Entry
poll_write-Accounts w answer t =
    entered-Accounts moved refl (λ _. refl) (λ (u : SendStream). u.shared)
      (λ s. record t { shared = s }) (λ _. refl) w t.shared
      (λ s. on_written w answer (record t { shared = s })) (on_written-Accounts w answer t)

note-budget : (b : Bool) (r : RecvStream) → (note b r).shared.budget ≡ r.shared.budget
note-budget true r = refl
note-budget false r = refl

on_readout-Accounts :
    (w : ℕ) (o : Readout) (r : RecvStream)
    → 1 ≤ r.shared.budget
    → let p = on_readout w o r in Accounts w (moved_read p.0) p.0 r.shared p.1.shared
unfolding on_readout
on_readout-Accounts w (chunk bytes b) r h = record {
  spent = omega (arith, note-budget b r);
  parks = tt;
}
on_readout-Accounts w (end b) r h = record { spent = omega (arith, note-budget b r); parks = tt }
on_readout-Accounts w (blocked b) r h =
    let s = (note b r).shared in
    record { spent = omega (arith, note-budget b r, park-budget w s); parks = parked-park w s }
on_readout-Accounts w (was_reset code b) r h = record {
  spent = omega (arith, note-budget b r);
  parks = tt;
}
on_readout-Accounts w (refused reason) r h = record { spent = omega arith; parks = tt }

next_readout-Accounts :
    (w : ℕ) (os : List Readout) (r : RecvStream)
    → 1 ≤ r.shared.budget
    → let p = next_readout os w r in Accounts w (moved_read p.0) p.0 r.shared p.1.shared
next_readout-Accounts w [] r h = record {
  spent = omega (arith, park-budget w r.shared);
  parks = parked-park w r.shared;
}
next_readout-Accounts w (o ∷ os) r h = on_readout-Accounts w o (record r { source = os }) h

read-Accounts :
    (w : ℕ) (r : RecvStream)
    → let p = read w r in Accounts w (moved_read p.0) p.0 r.shared p.1.shared
unfolding read Entry
read-Accounts w r =
    let P = λ (p : Poll (Result TransportError (Option Bytes)) × RecvStream).
      Accounts w (moved_read p.0) p.0 r.shared p.1.shared in
    if_elim P r.ended (λ _. record { spent = omega arith; parks = tt })
      (λ _.
        entered-Accounts moved_read refl (λ _. refl) (λ (u : RecvStream). u.shared)
          (λ s. record r { shared = s }) (λ _. refl) w r.shared
          (λ s. next_readout r.source w (record r { shared = s }))
          (next_readout-Accounts w r.source r))

-- The operations of a connection: open or accept a stream, send or receive a datagram, write to a
-- stream, read from one, or write to one with what it accepts at once. Each has its waker and what quinn_proto returns for it; a stream comes with
-- its own state.
pub data Operation : Type 0 where
  take_stream : ℕ → Option ℕ → Operation
  send_datagram : ℕ → SendAnswer → Operation
  recv_datagram : ℕ → Option Bytes → Operation
  write_some : ℕ → Written → SendStream → Operation
  read_some : ℕ → RecvStream → Operation
  try_some : SendStream → Option ℕ → Operation

-- How many polled operations the transport performs, and what is shared then.
pub perform : Operation → Shared → ℕ × Shared
perform (take_stream w answer) s = let p = streams w answer s in (moved p.0, p.1)
perform (send_datagram w answer) s = let p = poll_send_datagram w answer s in (moved p.0, p.1)
perform (recv_datagram w answer) s = let p = poll_recv_datagram w answer s in (moved p.0, p.1)
perform (write_some w answer t) s =
    let p = poll_write w answer (record t { shared = s }) in (moved p.0, p.1.shared)
perform (read_some w r) s = let p = read w (record r { shared = s }) in (moved_read p.0, p.1.shared)
perform (try_some t accepted) s = (0, (try_write (record t { shared = s }) accepted).1.shared)

pub perform_all : List Operation → Shared → ℕ × Shared
unfolding perform
perform_all [] s = (0, s)
perform_all (o ∷ os) s =
    let first = perform o s in let rest = perform_all os first.1 in (first.0 + rest.0, rest.1)

try_write-budget :
    (t : SendStream) (accepted : Option ℕ)
    → (try_write t accepted).1.shared.budget ≡ t.shared.budget
unfolding try_write
try_write-budget t accepted =
    if_elim (λ (p : ℕ × SendStream). p.1.shared.budget ≡ t.shared.budget) t.ended (λ _. refl)
      (λ _. refl)

perform-budget : (o : Operation) (s : Shared) → (perform o s).0 + (perform o s).1.budget ≡ s.budget
unfolding perform
perform-budget (take_stream w answer) s = (streams-Accounts w answer s).spent
perform-budget (send_datagram w answer) s = (poll_send_datagram-Accounts w answer s).spent
perform-budget (recv_datagram w answer) s = (poll_recv_datagram-Accounts w answer s).spent
perform-budget (write_some w answer t) s =
    (poll_write-Accounts w answer (record t { shared = s })).spent
perform-budget (read_some w r) s = (read-Accounts w (record r { shared = s })).spent
perform-budget (try_some t accepted) s =
    omega (arith, try_write-budget (record t { shared = s }) accepted)

-- Whatever operations follow each other on a connection: each that is polled and that the transport
-- performs takes one of the budget, those that wait or fail, ends of streams and writes by `try_write`
-- take none, so between two passes of the endpoint at most as many polled ones are performed as the
-- budget had left.
pub perform_all-budget :
    (os : List Operation) (s : Shared)
    → (perform_all os s).0 + (perform_all os s).1.budget ≡ s.budget
unfolding perform_all
perform_all-budget [] s = omega arith
perform_all-budget (o ∷ os) s =
    omega (arith, perform-budget o s, perform_all-budget os (perform o s).1)
