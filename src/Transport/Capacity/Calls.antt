-- ===== src/Transport/Capacity/Calls.antt =====
-- native/src/transport/quic.rs: the bounds of `Endpoint` where it dials, accepts and receives.
use ethersync.Base.{
  ℕ, zero, suc, ◌≤◌, ◌<◌, ◌≡◌, refl, Bool, true, false, Option, none, some, List, [], ◌∷◌, ltb, leb,
  Result, ok, err, length, arith, length-append, if_elim, String,
}
use ethersync.Transport.Defs.{TransportError}
use ethersync.Transport.Quinn.{
  Quinn, DatagramEvent, connection_event, new_connection, response, RecvMeta, Arrival, arrived,
  no_datagram, would_block, failed, Conn, Endpoint, get,
}
use ethersync.Transport.Visits.{out_limit}
use ethersync.Transport.Endpoint.{
  connected_by, connect, accept_from, segment, cut, push_out, accepted, change_conn, on_datagram,
  feed, take_arrival, receive_round, if_more, receive,
}
use ethersync.Transport.Bounds.{length-insert, length-insert_get}

-- At most as many connections as the limit says, 64 packets that wait and 64 spare buffers.
pub record Within (most l c o s : ℕ) : Type 0 where
  pub limit : l ≡ most
  pub connections : c ≤ most
  pub out : o ≤ 64
  pub send_buffers : s ≤ 64

abbrev pub IsBounded : {q : Quinn} → ℕ → Endpoint q → Type 0
IsBounded most e = Within most e.limit (length e.connections) (length e.out) e.send_buffers

module _ {q : Quinn} (most : ℕ) where
  open q use {Proto, Core, Incoming, Change, Transmit, handle, is_drained}

  pub connected_by-IsBounded :
      (r : Result String (ℕ × Proto) × Core) (e : Endpoint q)
      → IsBounded most e
      → length e.connections < e.limit
      → IsBounded most (connected_by q r e).1
  connected_by-IsBounded (err reason, core) e b h = ground arith
  connected_by-IsBounded (ok (id, p), core) e b h = record {
    limit = b.limit;
    connections = omega (arith, length-insert {V = Conn q} id _ e.connections, b.limit);
    out = b.out;
    send_buffers = b.send_buffers;
  }

  pub connect-IsBounded :
      (now remote : ℕ) (e : Endpoint q)
      → IsBounded most e
      → IsBounded most (connect q now remote e).1
  unfolding connect
  connect-IsBounded now remote e b =
      if_elim (λ (r : Result TransportError ℕ × Endpoint q). IsBounded most r.1)
        (leb e.limit (length e.connections)) (λ _. b)
        (λ h. connected_by-IsBounded (q.connect now remote e.core) e b (ground arith))

  pub accept_from-IsBounded :
      (ids : List ℕ) (e : Endpoint q) → IsBounded most e → IsBounded most (accept_from q ids e).1
  accept_from-IsBounded [] e b = b
  accept_from-IsBounded (id ∷ ids) e b = b

  push_out-IsBounded :
      (t : Transmit) (e : Endpoint q) → IsBounded most e → IsBounded most (push_out q t e)
  push_out-IsBounded t e b =
      if_elim (λ (f : Endpoint q). IsBounded most f) (ltb (length e.out) out_limit)
        (λ h. record {
          limit = b.limit;
          connections = b.connections;
          out =
              let k : length e.out < 64 = ground arith in
              omega (arith, length-append e.out (t ∷ []));
          send_buffers = b.send_buffers;
        })
        (λ _. b)

  accepted-IsBounded :
      (r : Result (Option Transmit) (ℕ × Proto) × Core) (e : Endpoint q)
      → IsBounded most e
      → length e.connections < e.limit
      → IsBounded most (accepted q r e)
  accepted-IsBounded (ok (id, p), core) e b h = record {
    limit = b.limit;
    connections = omega (arith, length-insert {V = Conn q} id _ e.connections, b.limit);
    out = b.out;
    send_buffers = b.send_buffers;
  }
  accepted-IsBounded (err none, core) e b h = b
  accepted-IsBounded (err (some t), core) e b h = push_out-IsBounded t _ b

  change_conn-IsBounded :
      (id : ℕ) (change : Change) (o : Option (Conn q)) (e : Endpoint q)
      → get id e.connections ≡ o
      → IsBounded most e
      → IsBounded most (change_conn q id change o e)
  change_conn-IsBounded id change none e h b = b
  change_conn-IsBounded id change (some c) e h b = record {
    limit = b.limit;
    connections = omega (arith, length-insert_get {V = Conn q} id _ c e.connections h);
    out = b.out;
    send_buffers = b.send_buffers;
  }

  on_datagram-IsBounded :
      (now : ℕ) (r : Option (DatagramEvent Change Incoming Transmit) × Core) (e : Endpoint q)
      → IsBounded most e
      → IsBounded most (on_datagram q now r e)
  unfolding on_datagram
  on_datagram-IsBounded now (none, core) e b = b
  on_datagram-IsBounded now (some (connection_event id change), core) e b =
      change_conn-IsBounded id change (get id e.connections) _ refl b
  on_datagram-IsBounded now (some (new_connection incoming), core) e b =
      if_elim (λ (f : Endpoint q). IsBounded most f) (leb e.limit (length e.connections)) (λ _. b)
        (λ h. accepted-IsBounded (q.accept incoming now core) e b (ground arith))
  on_datagram-IsBounded now (some (response t), core) e b = push_out-IsBounded t _ b

  feed-IsBounded :
      (now : ℕ) (m : RecvMeta) (start : ℕ) (e : Endpoint q)
      → IsBounded most e
      → IsBounded most (feed q now m start e)
  unfolding feed
  feed-IsBounded now m start e b =
      on_datagram-IsBounded now (handle now m.addr (segment q m start e) e.core) (cut q m start e) b

  take_arrival-IsBounded :
      (now : ℕ) (arrivals : List Arrival) (e : Endpoint q)
      → IsBounded most e
      → IsBounded most (take_arrival q now arrivals e).1
  take_arrival-IsBounded now [] e b = b
  take_arrival-IsBounded now (would_block ∷ more) e b = b
  take_arrival-IsBounded now (no_datagram ∷ more) e b = b
  take_arrival-IsBounded now (failed reason ∷ more) e b = b
  take_arrival-IsBounded now (arrived m bytes ∷ more) e b = feed-IsBounded now m 0 _ b

  receive_round-IsBounded :
      (now : ℕ) (o : Option (RecvMeta × ℕ)) (e : Endpoint q)
      → IsBounded most e
      → IsBounded most (receive_round q now o e).1
  receive_round-IsBounded now none e b = take_arrival-IsBounded now e.arrivals e b
  receive_round-IsBounded now (some (m, start)) e b = feed-IsBounded now m start e b

  if_more-IsBounded :
      (r : Result String Bool × Endpoint q)
      (next : Endpoint q → Result String (Unit {0}) × Endpoint q)
      → ((e : Endpoint q) → IsBounded most e → IsBounded most (next e).1)
      → IsBounded most r.1
      → IsBounded most (if_more q r next).1
  if_more-IsBounded (err reason, e) next h b = b
  if_more-IsBounded (ok false, e) next h b = b
  if_more-IsBounded (ok true, e) next h b = h e b

  pub receive-IsBounded :
      (now k : ℕ) (e : Endpoint q) → IsBounded most e → IsBounded most (receive q now k e).1
  unfolding receive
  receive-IsBounded now zero e b = b
  receive-IsBounded now (suc k) e b =
      if_more-IsBounded (receive_round q now e.receive_pending e) (receive q now k)
        (receive-IsBounded now k) (receive_round-IsBounded now e.receive_pending e b)
