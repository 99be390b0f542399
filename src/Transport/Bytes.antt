-- ===== src/Transport/Bytes.antt =====
-- native/src/transport/quic.rs, `RecvStream`: what its reader gets of the bytes that quinn_proto hands
-- over, and that a poll which has to wait leaves its waker.
use ethersync.Base.{
  ℕ, ◌≡◌, refl, sym, ap, ◌∙◌, Bool, true, false, Option, none, some, List, [], ◌∷◌, ◌++◌, ◌==◌,
  Result, ok, err, length, min, take, drop, take-append-drop, if_elim, Bool-cases, inl, inr,
}
use mathlib.Core.List.{append_assoc}
use ethersync.Wire.Messages.{Bytes}
use ethersync.Transport.Defs.{TransportError, Poll, ready, pending}
use ethersync.Transport.Shared.{Shared, enter, entered}
use ethersync.Transport.Receiving.{
  Readout, chunk, end, blocked, was_reset, refused, RecvStream, is_empty, note, on_readout,
  next_readout, read, hand_out, refill, poll_read, keep, poll_closed,
}

-- The bytes that a list of readouts hands over.
abbrev pub handed : List Readout → Bytes
handed [] = []
handed (chunk bytes transmit ∷ os) = bytes ++ handed os
handed (o ∷ os) = handed os

-- What a reader of the stream has still to get.
abbrev pub left : RecvStream → Bytes
left r = r.backlog ++ handed r.source

abbrev pub given : Poll (Result TransportError (Option Bytes)) → Bytes
given (ready (ok (some bytes))) = bytes
given (ready (ok none)) = []
given (ready (err e)) = []
given pending = []

-- A step that hands out bytes loses none, repeats none and keeps their order.
abbrev Conserves : RecvStream → Poll (Result TransportError (Option Bytes)) × RecvStream → Type 0
Conserves r p = given p.0 ++ left p.1 ≡ left r

-- A read leaves the backlog alone.
abbrev Reads : RecvStream → Poll (Result TransportError (Option Bytes)) × RecvStream → Type 0
Reads r p = (given p.0 ++ handed p.1.source ≡ handed r.source) × (p.1.backlog ≡ r.backlog)

note_source :
    (t : Bool) (r : RecvStream) → ((note t r).source ≡ r.source) × ((note t r).backlog ≡ r.backlog)
note_source true r = (refl, refl)
note_source false r = (refl, refl)

on_readout-Reads :
    (w : ℕ) (o : Readout) (os : List Readout) (r : RecvStream)
    → r.source ≡ o ∷ os
    → Reads r (on_readout w o (record r { source = os }))
unfolding on_readout
on_readout-Reads w (chunk bytes true) os r e = (rw e, refl)
on_readout-Reads w (chunk bytes false) os r e = (rw e, refl)
on_readout-Reads w (end true) os r e = (rw e, refl)
on_readout-Reads w (end false) os r e = (rw e, refl)
on_readout-Reads w (blocked true) os r e = (rw e, refl)
on_readout-Reads w (blocked false) os r e = (rw e, refl)
on_readout-Reads w (was_reset c true) os r e = (rw e, refl)
on_readout-Reads w (was_reset c false) os r e = (rw e, refl)
on_readout-Reads w (refused reason) os r e = (rw e, refl)

next_readout-Reads :
    (w : ℕ) (os : List Readout) (r : RecvStream) → r.source ≡ os → Reads r (next_readout os w r)
next_readout-Reads w [] r e = (refl, refl)
next_readout-Reads w (o ∷ os) r e = on_readout-Reads w o os r e

entered-Reads :
    (w : ℕ) (r : RecvStream) (p : Poll (Result TransportError (Unit {0})) × Shared)
    → Reads r (
        entered p
          (λ s. record r { shared = s })
          (λ s. next_readout r.source w (record r { shared = s })))
entered-Reads w r (pending, s) = (refl, refl)
entered-Reads w r (ready (err e), s) = (refl, refl)
entered-Reads w r (ready (ok _), s) = next_readout-Reads w r.source (record r { shared = s }) refl

read-Reads : (w : ℕ) (r : RecvStream) → Reads r (read w r)
unfolding read
read-Reads w r =
    if_elim (Reads r) r.ended (λ _. (refl, refl)) (λ _. entered-Reads w r (enter w r.shared))

hand_out-Conserves : (len : ℕ) (r : RecvStream) → Conserves r (hand_out len r)
unfolding hand_out
hand_out-Conserves len r =
    let n = min len (length r.backlog) in
    let front = take n r.backlog in
    let rest = drop n r.backlog in
    let whole : front ++ (rest ++ handed r.source) ≡ left r =
      sym (append_assoc front rest (handed r.source))
      ∙ ap (λ b. b ++ handed r.source) (take-append-drop n r.backlog) in
    if_elim (λ (x : RecvStream). front ++ left x ≡ left r) (is_empty rest) (λ _. whole) (λ _. whole)

refill-Conserves :
    (len : ℕ) (r : RecvStream) (p : Poll (Result TransportError (Option Bytes)) × RecvStream)
    → r.backlog ≡ []
    → Reads r p
    → Conserves r (refill len p)
refill-Conserves len r (ready (ok (some bytes)), t) e h =
    hand_out-Conserves len (record t { backlog = bytes }) ∙ rw e h.0
refill-Conserves len r (ready (ok none), t) e h = rw (h.1, e) h.0
refill-Conserves len r (ready (err reason), t) e h = rw (h.1, e) h.0
refill-Conserves len r (pending, t) e h = rw (h.1, e) h.0

is_empty-eq : (b : Bytes) → is_empty b ≡ true → b ≡ []
is_empty-eq [] h = refl
is_empty-eq (x ∷ xs) h = cc

poll_read-Conserves : (w len : ℕ) (r : RecvStream) → Conserves r (poll_read w len r)
unfolding poll_read
poll_read-Conserves w len r =
    if_elim (Conserves r) (len == 0) (λ _. refl)
      (λ _.
        if_elim (Conserves r) (is_empty r.backlog)
          (λ h. refill-Conserves len r (read w r) (is_empty-eq r.backlog h) (read-Reads w r))
          (λ _. hand_out-Conserves len r))

keep-left :
    (w : ℕ) (r : RecvStream) (p : Poll (Result TransportError (Option Bytes)) × RecvStream)
    → r.backlog ≡ []
    → Reads r p
    → left (keep w p).1 ≡ left r
keep-left w r (ready (ok (some bytes)), t) e h = rw e h.0
keep-left w r (ready (ok none), t) e h = rw (h.1, e) h.0
keep-left w r (ready (err reason), t) e h = rw (h.1, e) h.0
keep-left w r (pending, t) e h = rw (h.1, e) h.0

poll_closed-left : (w : ℕ) (r : RecvStream) → left (poll_closed w r).1 ≡ left r
unfolding poll_closed
poll_closed-left w r =
    let P = λ (p : Poll (Result TransportError (Unit {0})) × RecvStream). left p.1 ≡ left r in
    if_elim P r.ended (λ _. refl)
      (λ _. elim (Bool-cases (is_empty r.backlog)) [
        | inl h ↦ rw h (keep-left w r (read w r) (is_empty-eq r.backlog h) (read-Reads w r))
        | inr h ↦ rw h refl
      ])

-- What a reader and the endpoint do with a stream: polls, and a change of what the connection shares.
pub data Call : Type 0 where
  read_call : ℕ → ℕ → Call
  closed_call : ℕ → Call
  share : Shared → Call

-- The bytes that a reader gets over some calls.
unfoldable pub run : List Call → RecvStream → Bytes × RecvStream
run [] r = ([], r)
run (read_call w len ∷ cs) r =
    let p = poll_read w len r in let rest = run cs p.1 in (given p.0 ++ rest.0, rest.1)
run (closed_call w ∷ cs) r = run cs (poll_closed w r).1
run (share s ∷ cs) r = run cs (record r { shared = s })

-- Over any polls of a stream that is not stopped, for reading and for its end, in any order and
-- whatever the endpoint does in between, what the reader gets and then what it has still to get are
-- the bytes that the transport hands over: none is lost, repeated or out of order.
pub run_lem : (cs : List Call) (r : RecvStream) → (run cs r).0 ++ left (run cs r).1 ≡ left r
unfolding run
run_lem [] r = refl
run_lem (read_call w len ∷ cs) r =
    let p = poll_read w len r in
    append_assoc (given p.0) (run cs p.1).0 (left (run cs p.1).1)
    ∙ ap (λ b. given p.0 ++ b) (run_lem cs p.1)
    ∙ poll_read-Conserves w len r
run_lem (closed_call w ∷ cs) r = run_lem cs (poll_closed w r).1 ∙ poll_closed-left w r
run_lem (share s ∷ cs) r = run_lem cs (record r { shared = s })
