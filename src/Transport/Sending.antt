-- ===== src/Transport/Sending.antt =====
-- native/src/transport/quic.rs: `SendStream`, the sending end of a stream. What quinn_proto returns is
-- an argument. The slots of `finished` say how streams ended; a stream is known by its number.
use ethersync.Base.{
  ℕ, Bool, true, false, Option, none, some, List, [], ◌∷◌, ◌==◌, if◌then◌else◌, Result, ok, err,
  String,
}
use ethersync.Transport.Defs.{TransportError, Poll, ready, pending}
use ethersync.Transport.Shared.{Shared, park, changed, consumed, enter, entered}

abbrev pub Slot : Type 0
Slot = Option (Result TransportError (Unit {0}))

-- `HashMap::insert`, `remove` and `get` on the slots.
unfoldable pub remove_slot : ℕ → List (ℕ × Slot) → List (ℕ × Slot)
remove_slot id [] = []
remove_slot id ((i, slot) ∷ slots) =
    let rest = remove_slot id slots in if i == id then rest else (i, slot) ∷ rest

unfoldable pub insert_slot : ℕ → Slot → List (ℕ × Slot) → List (ℕ × Slot)
unfolding remove_slot
insert_slot id slot slots = (id, slot) ∷ remove_slot id slots

unfoldable pub get_slot : ℕ → List (ℕ × Slot) → Option Slot
get_slot id [] = none
get_slot id ((i, slot) ∷ slots) = if i == id then some slot else get_slot id slots

-- `get_mut(&id)` and the write of what the stream ended with.
unfoldable pub fill_slot : ℕ → Result TransportError (Unit {0}) → List (ℕ × Slot) → List (ℕ × Slot)
fill_slot id outcome [] = []
fill_slot id outcome ((i, slot) ∷ slots) =
    (i, (if i == id then some outcome else slot)) ∷ fill_slot id outcome slots

pub record SendStream : Type 0 where
  pub id : ℕ
  pub ended : Bool
  pub shared : Shared

-- `SendStream::new`
unfoldable pub new_send : Shared → ℕ → SendStream
unfolding insert_slot
new_send s id = record {
  id = id;
  ended = false;
  shared = record s { finished = insert_slot id none s.finished };
}

-- `SendStream::reset_code`; the code goes to quinn_proto.
unfoldable pub reset_code : SendStream → SendStream
reset_code t = record t { ended = true; shared = changed t.shared }

-- `SendStream::try_write`, with what the stream accepts, `none` for an error.
unfoldable pub try_write : SendStream → Option ℕ → ℕ × SendStream
try_write t accepted =
    if t.ended
    then (0, t)
    else (elim accepted [ none ↦ 0 | some n ↦ n ], record t { shared = changed t.shared })

-- What a write to the stream returns.
pub data Written : Type 0 where
  wrote : ℕ → Written
  blocked : Written
  stopped : ℕ → Written
  refused : String → Written

unfoldable pub on_written : ℕ → Written → SendStream → Poll (Result TransportError ℕ) × SendStream
on_written waker (wrote n) t = (ready (ok n), record t { shared = changed (consumed t.shared) })
on_written waker blocked t = (pending, record t { shared = park waker t.shared })
on_written waker (stopped code) t = (ready (err (TransportError.reset code)), t)
on_written waker (refused reason) t = (ready (err (TransportError.quic reason)), t)

-- `SendStream::poll_write`
unfoldable pub poll_write : ℕ → Written → SendStream → Poll (Result TransportError ℕ) × SendStream
unfolding on_written
poll_write waker answer t =
    entered (enter waker t.shared) (λ s. record t { shared = s })
      (λ s. on_written waker answer (record t { shared = s }))

-- `SendStream::finish`, with the reason why quinn_proto refuses it.
unfoldable pub finish : Option String → SendStream → Result TransportError (Unit {0}) × SendStream
finish refusal t = if t.ended then (ok tt, t) else (elim refusal [
  | some reason ↦ (err (TransportError.quic reason), t)
  | none ↦ (ok tt, record t { ended = true; shared = changed t.shared })
])

-- A connection's error, or the wait for the stream's end.
abbrev pub closed_or_wait :
    Option TransportError → ℕ → SendStream → Poll (Result TransportError (Unit {0})) × SendStream
closed_or_wait (some e) waker t = (ready (err e), t)
closed_or_wait none waker t = (pending, record t { shared = park waker t.shared })

abbrev pub closed_by :
    Option Slot → ℕ → SendStream → Poll (Result TransportError (Unit {0})) × SendStream
closed_by (some (some outcome)) waker t = (ready outcome, t)
closed_by (some none) waker t = closed_or_wait t.shared.error waker t
closed_by none waker t = closed_or_wait t.shared.error waker t

-- `SendStream::poll_closed`
unfoldable pub poll_finished : ℕ → SendStream → Poll (Result TransportError (Unit {0})) × SendStream
unfolding get_slot
poll_finished waker t = closed_by (get_slot t.id t.shared.finished) waker t

-- `drop`: a stream that has not ended is reset, and its slot goes. What stays is shared.
unfoldable pub drop_send : SendStream → Shared
unfolding reset_code remove_slot
drop_send t =
    let u = if t.ended then t else reset_code t in
    record u.shared { finished = remove_slot t.id u.shared.finished }
