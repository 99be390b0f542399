-- ===== src/Transport/Endpoint.antt =====
-- native/src/transport/quic.rs: `Endpoint`, the socket and the table of connections: its
-- connections, and what it receives.
use ethersync.Base.{
  ℕ, zero, suc, ◌+◌, ◌-◌, Bool, true, false, ◌||◌, Option, none, some, List, [], ◌∷◌, ◌++◌, ltb,
  leb, if◌then◌else◌, Result, ok, err, length, take, drop, min, max, String, earliest,
}
use ethersync.Wire.Messages.{Bytes}
use ethersync.Transport.Defs.{TransportError}
use ethersync.Transport.Shared.{new_shared, wake}
use ethersync.Transport.Quinn.{
  Quinn, DatagramEvent, connection_event, new_connection, response, RecvMeta, Arrival, arrived,
  no_datagram, would_block, failed, Conn, Endpoint, get, insert,
}
use ethersync.Transport.Visits.{out_limit}

module _ (q : Quinn) where
  open q use {Proto, Core, Incoming, Change, Transmit, poll_timeout, apply_change, handle}

  -- A fresh connection.
  abbrev pub new_conn : Proto → Conn q
  new_conn p = record { proto = p; shared = new_shared }

  -- `Endpoint::new`, over a socket that was bound.
  unfoldable pub new_endpoint : Core → ℕ → List Arrival → Endpoint q
  new_endpoint core limit arrivals = record {
    core = core;
    connections = [];
    incoming = [];
    out = [];
    buffer = [];
    limit = limit;
    next = 0;
    receive_pending = none;
    receive_more = false;
    send_buffers = 0;
    write_blocked = false;
    arrivals = arrivals;
  }

  abbrev pub connected_by :
      Result String (ℕ × Proto) × Core → Endpoint q → Result TransportError ℕ × Endpoint q
  connected_by (err reason, core) e = (err (TransportError.quic reason), record e { core = core })
  connected_by (ok (id, p), core) e =
      (ok id, record e { core = core; connections = insert id (new_conn p) e.connections })

  -- `Endpoint::connect`, to a remote whose client configuration stands.
  unfoldable pub connect : ℕ → ℕ → Endpoint q → Result TransportError ℕ × Endpoint q
  connect now remote e =
      if leb e.limit (length e.connections)
      then (err (TransportError.invalid "connection capacity"), e)
      else connected_by (q.connect now remote e.core) e

  -- `pop_front`
  abbrev pub accept_from : List ℕ → Endpoint q → Option ℕ × Endpoint q
  accept_from [] e = (none, e)
  accept_from (id ∷ ids) e = (some id, record e { incoming = ids })

  -- `Endpoint::accept`
  unfoldable pub accept : Endpoint q → Option ℕ × Endpoint q
  accept e = accept_from e.incoming e

  -- `Endpoint::next_deadline` and `needs_pass`.
  unfoldable pub next_deadline : List (ℕ × Conn q) → Option ℕ
  next_deadline [] = none
  next_deadline ((id, c) ∷ cs) = earliest (poll_timeout c.proto) (next_deadline cs)

  unfoldable pub any_needs : List (ℕ × Conn q) → Bool
  any_needs [] = false
  any_needs ((id, c) ∷ cs) = c.shared.needs_pass || any_needs cs

  unfoldable pub needs_pass : Endpoint q → Bool
  unfolding any_needs
  needs_pass e = e.receive_more || any_needs e.connections

  -- `if self.out.len() < 64 { push_back }`
  abbrev pub push_out : Transmit → Endpoint q → Endpoint q
  push_out t e = if ltb (length e.out) out_limit then record e { out = e.out ++ t ∷ [] } else e

  abbrev pub accepted : Result (Option Transmit) (ℕ × Proto) × Core → Endpoint q → Endpoint q
  accepted (ok (id, p), core) e = record e {
    core = core;
    connections = insert id (new_conn p) e.connections;
    incoming = e.incoming ++ id ∷ [];
  }
  accepted (err none, core) e = record e { core = core }
  accepted (err (some t), core) e = push_out t (record e { core = core })

  abbrev pub change_conn : ℕ → Change → Option (Conn q) → Endpoint q → Endpoint q
  change_conn id change none e = e
  change_conn id change (some c) e = record e {
    connections =
        insert id (record { proto = apply_change change c.proto; shared = wake c.shared })
          e.connections;
  }

  -- What is done with what a datagram means.
  unfoldable pub on_datagram :
      ℕ → Option (DatagramEvent Change Incoming Transmit) × Core → Endpoint q → Endpoint q
  on_datagram now (none, core) e = record e { core = core }
  on_datagram now (some (connection_event id change), core) e =
      change_conn id change (get id e.connections) (record e { core = core })
  on_datagram now (some (new_connection incoming), core) e =
      if leb e.limit (length e.connections)
      then record e { core = q.ignore incoming core }
      else accepted (q.accept incoming now core) e
  on_datagram now (some (response t), core) e = push_out t (record e { core = core })

  -- The next segment of the bytes that were received, of at most `stride` bytes, and what is left.
  abbrev pub segment_end : RecvMeta → ℕ → ℕ
  segment_end m start = min (start + max m.stride 1) m.len

  abbrev pub segment : RecvMeta → ℕ → Endpoint q → Bytes
  segment m start e = take (segment_end m start - start) (drop start e.buffer)

  abbrev pub cut : RecvMeta → ℕ → Endpoint q → Endpoint q
  cut m start e = record e {
    receive_pending =
        if ltb (segment_end m start) m.len then some (m, segment_end m start) else none;
  }

  unfoldable pub feed : ℕ → RecvMeta → ℕ → Endpoint q → Endpoint q
  unfolding on_datagram
  feed now m start e =
      on_datagram now (handle now m.addr (segment m start e) e.core) (cut m start e)

  -- One round of the receives: an error, the end of the loop, or leave to go on.
  abbrev pub take_arrival : ℕ → List Arrival → Endpoint q → Result String Bool × Endpoint q
  take_arrival now [] e = (ok false, record e { receive_more = false; arrivals = [] })
  take_arrival now (would_block ∷ more) e =
      (ok false, record e { receive_more = false; arrivals = more })
  take_arrival now (no_datagram ∷ more) e =
      (ok false, record e { receive_more = false; arrivals = more })
  take_arrival now (failed reason ∷ more) e = (err reason, record e { arrivals = more })
  take_arrival now (arrived m bytes ∷ more) e =
      (ok true, feed now m 0 (record e { buffer = bytes; arrivals = more }))

  abbrev pub receive_round :
      ℕ → Option (RecvMeta × ℕ) → Endpoint q → Result String Bool × Endpoint q
  receive_round now none e = take_arrival now e.arrivals e
  receive_round now (some (m, start)) e = (ok true, feed now m start e)

  abbrev pub if_more :
      Result String Bool × Endpoint q
      → (Endpoint q → Result String (Unit {0}) × Endpoint q)
      → Result String (Unit {0}) × Endpoint q
  if_more (err reason, e) next = (err reason, e)
  if_more (ok false, e) next = (ok tt, e)
  if_more (ok true, e) next = next e

  -- `for _ in 0..32`, the receives.
  unfoldable pub receive : ℕ → ℕ → Endpoint q → Result String (Unit {0}) × Endpoint q
  unfolding feed
  receive now zero e = (ok tt, e)
  receive now (suc k) e = if_more (receive_round now e.receive_pending e) (receive now k)

  -- `get_or_insert`
  abbrev pub closed_anyway : Option TransportError → Option TransportError
  closed_anyway (some e) = some e
  closed_anyway none = some (TransportError.closed 0 "endpoint dropped")

  -- `drop`: the connections learn of the end, unless they ended before.
  unfoldable pub drop_endpoint : List (ℕ × Conn q) → List (ℕ × Conn q)
  drop_endpoint [] = []
  drop_endpoint ((id, c) ∷ cs) =
      let closed = closed_anyway c.shared.error in
      (id, record c { shared = wake (record c.shared { error = closed }) }) ∷ drop_endpoint cs
