-- ===== src/Transport/Capacity.antt =====
-- native/src/transport/quic.rs: the bounds of `Endpoint` over any calls of its owner.
use ethersync.Base.{
  ℕ, zero, suc, ◌≤◌, ◌<◌, ◌≡◌, refl, ap, Bool, true, false, Option, none, some, List, [], ◌∷◌, ltb,
  leb, bool_ne, Result, ok, err, length, arith, length-append, if_elim, String,
}
use ethersync.Transport.Defs.{TransportError}
use ethersync.Transport.Quinn.{
  Quinn, DatagramEvent, connection_event, new_connection, response, RecvMeta, Arrival, arrived,
  no_datagram, would_block, failed, Conn, Endpoint, get, keys,
}
use ethersync.Transport.Visits.{
  out_limit, Visit, end_visit, visit_found, visit, visit_each, turn, turned, visit_all,
}
use ethersync.Transport.Endpoint.{
  new_endpoint, connected_by, connect, accept_from, accept, segment, cut, push_out, accepted,
  change_conn, on_datagram, feed, take_arrival, receive_round, if_more, receive,
}
use ethersync.Transport.Packets.{
  Sent, set_write_blocked, need_all, unblock, popped, if_ok, on_sent, send_out, step,
}
use ethersync.Transport.Bounds.{
  length-insert, length-insert_get, length-remove, visit_conn-Fits, Fits,
}
use ethersync.Transport.Capacity.Calls.{
  IsBounded, Within, connect-IsBounded, accept_from-IsBounded, receive-IsBounded,
}
use ethersync.Transport.Capacity.Passes.{step-IsBounded}
pub mod Calls
mod Passes

-- What the owner of an endpoint does with it: dial, take an incoming connection, or a step.
pub data Act : Type 0 where
  dial : ℕ → ℕ → Act
  take_incoming : Act
  make_step : ℕ → List Sent → Act

module _ (q : Quinn) where
  unfoldable pub act : Act → Endpoint q → Endpoint q
  act (dial now remote) e = (connect q now remote e).1
  act take_incoming e = (accept q e).1
  act (make_step now answers) e = (step q now answers e).1

  unfoldable pub acts : List Act → Endpoint q → Endpoint q
  unfolding act
  acts [] e = e
  acts (a ∷ more) e = acts more (act a e)

act-IsBounded :
    {q : Quinn} (most : ℕ) (a : Act) (e : Endpoint q)
    → IsBounded most e
    → IsBounded most (act q a e)
unfolding act accept
act-IsBounded most (dial now remote) e b = connect-IsBounded most now remote e b
act-IsBounded most take_incoming e b = accept_from-IsBounded most e.incoming e b
act-IsBounded most (make_step now answers) e b = step-IsBounded most now answers e b

acts_from :
    {q : Quinn} (most : ℕ) (done : List Act) (e : Endpoint q)
    → IsBounded most e
    → IsBounded most (acts q done e)
unfolding acts
acts_from most [] e b = b
acts_from {q} most (a ∷ more) e b = acts_from most more (act q a e) (act-IsBounded most a e b)

-- Whatever the owner does, and whatever the socket and quinn_proto answer, a new endpoint never has more
-- connections than its limit, nor more than 64 packets that wait or 64 spare buffers.
pub acts-IsBounded :
    (q : Quinn) (core : q.Core) (limit : ℕ) (arrivals : List Arrival) (done : List Act)
    → IsBounded limit (acts q done (new_endpoint q core limit arrivals))
unfolding new_endpoint
acts-IsBounded q core limit arrivals done =
    acts_from limit done (new_endpoint q core limit arrivals) (record {
      limit = refl;
      connections = omega arith;
      out = omega arith;
      send_buffers = omega arith;
    })
