-- ===== src/Tests/Transports.antt =====
-- The endpoint, its connections and streams at concrete inputs, over a transport in small: a datagram
-- from the remote 0 asks for connection 7, a connection has as many packets to send as its number, and
-- is drained once it is told so.
use ethersync.Base.{
  arith, ℕ, zero, suc, ◌+◌, ◌≡◌, refl, true, false, Option, none, some, List, [], ◌∷◌, ◌++◌, ok,
}
use ethersync.Transport.Defs.{ready}
use ethersync.Transport.Shared.{Shared, new_shared, enter, admit, park, parked, wake}
use ethersync.Transport.Receiving.{
  RecvStream, chunk, end, read, poll_read, poll_closed, hand_out, on_readout,
}
use ethersync.Transport.Bytes.{Call, read_call, closed_call, run, run_lem, left}
use ethersync.Transport.Connections.{SendAnswer}
use ethersync.Transport.Budget.{
  Operation, take_stream, send_datagram, recv_datagram, try_some, perform_all, perform_all-budget,
}
use ethersync.Transport.Quinn.{
  Quinn, DatagramEvent, new_connection, connection_event, Arrival, arrived, Conn, Endpoint,
}
use ethersync.Transport.Visits.{visit_all}
use ethersync.Transport.Endpoint.{new_endpoint}
use ethersync.Transport.Capacity.{Act, dial, take_incoming, make_step, acts, acts-IsBounded}
use ethersync.Transport.Capacity.Calls.{IsBounded}
use ethersync.Transport.Observers.{logged}
use ethersync.Transport.Segments.{concat, to_come, waiting}
use ethersync.Transport.Arrivals.{acts-fed}
use ethersync.Transport.Wakes.{IsServed, visit_all-wakes}
use ethersync.Transport.Timers.{Timer, Serves, passes, poll_timer, advance, advance-poll_timer}
use ethersync.Transport.Quinn.{insert, get}
use ethersync.Transport.Sending.{new_send}
use ethersync.Transport.Peers.{PeerReads}
use ethersync.Transport.Handshakes.{Runs, steps_peer-Runs}

abbrev next_packet : ℕ → ℕ → Option ℕ × ℕ
next_packet now zero = (none, 0)
next_packet now (suc n) = (some n, n)

abbrev meant : ℕ → Option (DatagramEvent ℕ ℕ ℕ)
meant zero = some (new_connection 7)
meant (suc id) = some (connection_event id 0)

abbrev small : Quinn
small = record {
  Proto = ℕ;
  Core = ℕ;
  Incoming = ℕ;
  Change = ℕ;
  Notice = ℕ;
  Transmit = ℕ;
  poll_timeout = λ p. none;
  handle_timeout = λ now p. p;
  apply_change = λ change p. change;
  poll_transmit = next_packet;
  poll_notices = λ p. (none, p);
  poll_event = λ p. (none, p);
  is_drained = λ p. false;
  handle = λ now addr bytes core. (meant addr, core + 1);
  handle_notice = λ id notice core. (none, core);
  ignore = λ incoming core. core;
  accept = λ id now core. (ok (id, 3), core);
  connect = λ now remote core. (ok (remote, 2), core);
}

-- Five bytes in segments of two.
abbrev five_bytes : Arrival
five_bytes = arrived (record { addr = 0; len = 5; stride = 2 }) (1 ∷ 2 ∷ 3 ∷ 4 ∷ 5 ∷ [])

abbrev some_acts : List Act
some_acts = dial 1 9 ∷ make_step 2 [] ∷ take_incoming ∷ []

acts-IsBounded_example :
    IsBounded 2 (acts small some_acts (new_endpoint small 0 2 (five_bytes ∷ [])))
acts-IsBounded_example = acts-IsBounded small 0 2 (five_bytes ∷ []) some_acts

acts-fed_example :
    concat
        (acts
          (logged small)
          some_acts
          (new_endpoint (logged small) (0, []) 2 (five_bytes ∷ []))).core.1
      ++ to_come
          (acts (logged small) some_acts (new_endpoint (logged small) (0, []) 2 (five_bytes ∷ [])))
    ≡ waiting (five_bytes ∷ [])
acts-fed_example = acts-fed small 0 2 (five_bytes ∷ []) some_acts (refl, tt)

-- A connection whose budget is used up.
abbrev spent : Shared
spent = record new_shared { budget = 0; needs_pass = false }

abbrev waiting_conn : Conn small
waiting_conn = record { proto = 1; shared = (enter 4 spent).1 }

abbrev with_one : Endpoint small
with_one = record (new_endpoint small 0 2 []) { connections = (7, waiting_conn) ∷ [] }

visit_all-wakes_example : IsServed 4 7 (visit_all small 5 with_one)
unfolding enter admit park parked new_endpoint get
visit_all-wakes_example = visit_all-wakes 4 5 7 spent waiting_conn with_one refl refl refl

abbrev stream : RecvStream
stream = record {
  ended = false;
  backlog = [];
  source = chunk (10 ∷ 11 ∷ 12 ∷ []) false ∷ chunk (13 ∷ []) true ∷ end false ∷ [];
  shared = new_shared;
}

abbrev calls : List Call
calls = closed_call 1 ∷ read_call 1 2 ∷ read_call 1 2 ∷ read_call 1 2 ∷ []

run_lem_example : (run calls stream).0 ++ left (run calls stream).1 ≡ left stream
run_lem_example = run_lem calls stream

all_read : (run calls stream).0 ≡ 10 ∷ 11 ∷ 12 ∷ 13 ∷ []
unfolding run read poll_read poll_closed hand_out on_readout enter admit park parked wake
all_read = refl

abbrev operations : List Operation
operations =
    take_stream 1 (some 4)
    ∷ send_datagram 1 SendAnswer.queued
    ∷ recv_datagram 1 none
    ∷ recv_datagram 1 (some (1 ∷ []))
    ∷ try_some (new_send new_shared 4) (some 2)
    ∷ []

perform_all-budget_example :
    (perform_all operations new_shared).0 + (perform_all operations new_shared).1.budget
    ≡ new_shared.budget
perform_all-budget_example = perform_all-budget operations new_shared

abbrev timer : Timer
timer = record { at = some 30; waiters = []; held = true }

advance-poll_timer_example :
    Serves 40 30 6 (advance 40 (passes (22 ∷ 25 ∷ []) (insert 1 (poll_timer 6 20 timer).1 [])))
unfolding poll_timer
advance-poll_timer_example =
    advance-poll_timer [] (22 ∷ 25 ∷ []) 1 6 20 40 30 timer refl refl refl
      (omega arith, (omega arith, tt))

-- Everything is done at once.
abbrev reads : ℕ → PeerReads
reads n = record {
  first_driver = ok none;
  second_driver = ok (some 50);
  now = n;
  secured = ok (some false);
  agreed = ready (ok tt);
  closed = none;
  subscribed = ready (ok tt);
}

steps_peer-Runs_example : Runs true 10 reads 2
steps_peer-Runs_example = steps_peer-Runs true 10 reads 2
