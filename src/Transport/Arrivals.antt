-- ===== src/Transport/Arrivals.antt =====
-- native/src/transport/quic.rs: over any calls of its owner, `Endpoint` hands to quinn_proto the bytes
-- that arrive, in order.
use ethersync.Base.{
  ℕ, zero, suc, ◌≡◌, refl, sym, ap, ◌∙◌, Bool, true, false, Option, none, some, List, [], ◌∷◌, ◌++◌,
  ltb, leb, bool_ne, Result, ok, err, length, arith, All, if_elim, String,
}
use ethersync.Transport.Defs.{TransportError}
use ethersync.Transport.Quinn.{
  Quinn, RecvMeta, Arrival, arrived, no_datagram, would_block, failed, Conn, Endpoint, get, keys,
}
use ethersync.Transport.Visits.{
  Visit, visit_found, visit, visit_each, turn, turned, visit_all, end_visit,
}
use ethersync.Transport.Observers.{Observer, logged, log_of, visit_conn-Shows}
use ethersync.Transport.Endpoint.{
  new_endpoint, connected_by, connect, accept_from, accept, take_arrival, receive_round, if_more,
  receive,
}
use ethersync.Transport.Packets.{
  Sent, set_write_blocked, unblock, popped, if_ok, on_sent, send_out, step,
}
use ethersync.Transport.Capacity.{Act, dial, take_incoming, make_step, act, acts}
use ethersync.Transport.Segments.{
  concat, Held, held, with_seen, unread, waiting, to_come, IsWhole, IsInside, Moves, Moves-trans,
  feed-Moves,
}

module _ {q : Quinn} (o : Observer q) where
  open q use {Proto, Core, Transmit}

  take_arrival-Moves :
      (now : ℕ) (arrivals : List Arrival) (e : Endpoint q)
      → e.receive_pending ≡ none
      → IsInside e.receive_pending e.buffer
      → All IsWhole arrivals
      → Moves
          (o.seen e.core, e.receive_pending, e.buffer, arrivals)
          (held o (take_arrival q now arrivals e).1)
  take_arrival-Moves now [] e h i w = record { all = refl; inside = i; whole = tt }
  take_arrival-Moves now (would_block ∷ more) e h i w = record {
    all = refl;
    inside = i;
    whole = w.1;
  }
  take_arrival-Moves now (no_datagram ∷ more) e h i w = record {
    all = refl;
    inside = i;
    whole = w.1;
  }
  take_arrival-Moves now (failed reason ∷ more) e h i w = record {
    all = refl;
    inside = i;
    whole = w.1;
  }
  take_arrival-Moves now (arrived m bytes ∷ more) e h i w =
      let fed =
        feed-Moves o now m 0 (record e { buffer = bytes; arrivals = more }) (omega arith) w.0 w.1 in
      record {
        all =
            fed.all
            ∙ ap
                (λ (left : Option (RecvMeta × ℕ)).
                  concat (o.seen e.core) ++ (unread left e.buffer ++ (bytes ++ waiting more)))
                (sym h);
        inside = fed.inside;
        whole = fed.whole;
      }

  receive_round-Moves :
      (now : ℕ) (left : Option (RecvMeta × ℕ)) (e : Endpoint q)
      → e.receive_pending ≡ left
      → IsInside left e.buffer
      → All IsWhole e.arrivals
      → Moves (o.seen e.core, left, e.buffer, e.arrivals) (held o (receive_round q now left e).1)
  receive_round-Moves now none e h i w =
      let i' : IsInside e.receive_pending e.buffer = rw h i in
      rw (← h) (take_arrival-Moves now e.arrivals e h i' w)
  receive_round-Moves now (some (m, start)) e h i w = feed-Moves o now m start e i.0 i.1 w

  receive-Moves :
      (now k : ℕ) (e : Endpoint q)
      → IsInside e.receive_pending e.buffer
      → All IsWhole e.arrivals
      → Moves (held o e) (held o (receive q now k e).1)
  unfolding receive
  receive-Moves now zero e i w = record { all = refl; inside = i; whole = w }
  receive-Moves now (suc k) e i w =
      further (receive_round q now e.receive_pending e)
        (receive_round-Moves now e.receive_pending e refl i w) (receive-Moves now k)
    where
      further :
          (r : Result String Bool × Endpoint q)
          → Moves (held o e) (held o r.1)
          → ((f : Endpoint q)
              → IsInside f.receive_pending f.buffer
              → All IsWhole f.arrivals
              → Moves (held o f) (held o (receive q now k f).1))
          → Moves (held o e) (held o (if_more q r (receive q now k)).1)
      further (err reason, f) a h = a
      further (ok false, f) a h = a
      further (ok true, f) a h = Moves-trans a (h f a.inside a.whole)

  end_visit-held :
      (id : ℕ) (v : Visit q) (e : Endpoint q)
      → o.seen v.core ≡ o.seen e.core
      → held o (end_visit q id v e) ≡ held o e
  unfolding end_visit
  end_visit-held id v e h = ap (with_seen e) h

  visit_found-held :
      (now id : ℕ) (c : Option (Conn q)) (e : Endpoint q)
      → held o (visit_found q now id c e) ≡ held o e
  visit_found-held now id none e = refl
  visit_found-held now id (some c) e =
      end_visit-held id _ e (visit_conn-Shows o e.write_blocked now id _)

  visit_each-held :
      (now : ℕ) (ids : List ℕ) (e : Endpoint q) → held o (visit_each q now ids e) ≡ held o e
  unfolding visit_each visit
  visit_each-held now [] e = refl
  visit_each-held now (id ∷ ids) e =
      visit_each-held now ids (visit q now id e) ∙ visit_found-held now id (get id e.connections) e

  visit_all-held : (now : ℕ) (e : Endpoint q) → held o (visit_all q now e) ≡ held o e
  unfolding visit_all
  visit_all-held now e =
      if_elim (λ (f : Endpoint q). held o f ≡ held o e) (ltb 0 (length (keys e.connections)))
        (λ _. visit_each-held now (turn q e) (turned q e)) (λ _. refl)

  abbrev Still : Endpoint q → Result String (Unit {0}) × Endpoint q → Type 0
  Still e r = held o r.1 ≡ held o e

  set_write_blocked-held :
      (blocked : Bool) (r : Result String (Unit {0})) (e : Endpoint q)
      → Still e (set_write_blocked q blocked r e)
  unfolding set_write_blocked
  set_write_blocked-held blocked r e =
      if_elim (Still e) (bool_ne e.write_blocked blocked) (λ _. refl) (λ _. refl)

  if_ok-held :
      (e : Endpoint q) (r : Result String (Unit {0}) × Endpoint q)
      (next : Endpoint q → Result String (Unit {0}) × Endpoint q)
      → ((f : Endpoint q) → Still f (next f))
      → Still e r
      → Still e (if_ok q r next)
  if_ok-held e (err reason, f) next h s = s
  if_ok-held e (ok _, f) next h s = h f ∙ s

  unblock-held : (s : Sent) (e : Endpoint q) → Still e (unblock q s e)
  unfolding unblock
  unblock-held s e =
      if_elim (Still e) e.write_blocked
        (λ _.
          if_ok-held e (set_write_blocked q false s.reregistered e) _ (λ f. refl)
            (set_write_blocked-held false s.reregistered e))
        (λ _. refl)

  on_sent-held :
      (answer : Option (Result String (Unit {0}))) (s : Sent) (e : Endpoint q)
      (next : Endpoint q → Result String (Unit {0}) × Endpoint q)
      → ((f : Endpoint q) → Still f (next f))
      → Still e (on_sent q answer s e next)
  on_sent-held none s e next h = set_write_blocked-held true s.reregistered e
  on_sent-held (some (err reason)) s e next h = refl
  on_sent-held (some (ok _)) s e next h = if_ok-held e (unblock q s e) next h (unblock-held s e)

  send_out-held :
      (ts : List Transmit) (answers : List Sent) (e : Endpoint q)
      → Still e (send_out q ts answers e)
  unfolding send_out
  send_out-held [] answers e = refl
  send_out-held (t ∷ ts) [] e = set_write_blocked-held true (ok tt) e
  send_out-held (t ∷ ts) (s ∷ answers) e =
      on_sent-held s.answer s e (λ f. send_out q ts answers (popped q ts f))
        (λ f. send_out-held ts answers (popped q ts f))

  connected_by-held :
      (r : Result String (ℕ × Proto) × Core) (e : Endpoint q)
      → o.seen r.1 ≡ o.seen e.core
      → held o (connected_by q r e).1 ≡ held o e
  connected_by-held (err reason, core) e h = ap (with_seen e) h
  connected_by-held (ok (id, p), core) e h = ap (with_seen e) h

  connect-held : (now remote : ℕ) (e : Endpoint q) → held o (connect q now remote e).1 ≡ held o e
  unfolding connect
  connect-held now remote e =
      if_elim (λ (r : Result TransportError ℕ × Endpoint q). held o r.1 ≡ held o e)
        (leb e.limit (length e.connections)) (λ _. refl)
        (λ _. connected_by-held (q.connect now remote e.core) e (o.on_connect now remote e.core))

  accept_from-held : (ids : List ℕ) (e : Endpoint q) → held o (accept_from q ids e).1 ≡ held o e
  accept_from-held [] e = refl
  accept_from-held (id ∷ ids) e = refl

  after :
      (x : Held) (e f : Endpoint q) → held o f ≡ held o e → Moves x (held o e) → Moves x (held o f)
  after x e f h m = rw h m

  step-Moves :
      (now : ℕ) (answers : List Sent) (e : Endpoint q)
      → IsInside e.receive_pending e.buffer
      → All IsWhole e.arrivals
      → Moves (held o e) (held o (step q now answers e).1)
  unfolding step
  step-Moves now answers e i w =
      let started = record e { receive_more = true } in
      sent (receive q now 32 started) (receive-Moves now 32 started i w)
    where
      sent :
          (r : Result String (Unit {0}) × Endpoint q)
          → Moves (held o e) (held o r.1)
          → Moves
              (held o e)
              (held o (if_ok q r (λ f. let g = visit_all q now f in send_out q g.out answers g)).1)
      sent (err reason, f) m = m
      sent (ok _, f) m =
          let g = visit_all q now f in
          after (held o e) f (send_out q g.out answers g).1
            (send_out-held g.out answers g ∙ visit_all-held now f) m

  act-Moves :
      (a : Act) (e : Endpoint q)
      → IsInside e.receive_pending e.buffer
      → All IsWhole e.arrivals
      → Moves (held o e) (held o (act q a e))
  unfolding act accept
  act-Moves (dial now remote) e i w =
      after (held o e) e (connect q now remote e).1 (connect-held now remote e)
        (record { all = refl; inside = i; whole = w })
  act-Moves take_incoming e i w =
      after (held o e) e (accept q e).1 (accept_from-held e.incoming e)
        (record { all = refl; inside = i; whole = w })
  act-Moves (make_step now answers) e i w = step-Moves now answers e i w

  acts-Moves :
      (done : List Act) (e : Endpoint q)
      → IsInside e.receive_pending e.buffer
      → All IsWhole e.arrivals
      → Moves (held o e) (held o (acts q done e))
  unfolding acts
  acts-Moves [] e i w = record { all = refl; inside = i; whole = w }
  acts-Moves (a ∷ more) e i w =
      let m = act-Moves a e i w in Moves-trans m (acts-Moves more (act q a e) m.inside m.whole)

-- Where each receive puts as many bytes into the buffer as it says, and whatever the owner does and
-- quinn_proto answers, the bytes that an endpoint hands to quinn_proto's `handle`, and then those that
-- are still to come, are the bytes that arrive: the limit of a step, and connections that are refused,
-- lose none of them. What `handle` is given is in the log beside quinn_proto's state.
pub acts-fed :
    (q : Quinn) (core : q.Core) (limit : ℕ) (arrivals : List Arrival) (done : List Act)
    → All IsWhole arrivals
    → let e = acts (logged q) done (new_endpoint (logged q) (core, []) limit arrivals) in
      concat e.core.1 ++ to_come e ≡ waiting arrivals
unfolding new_endpoint
acts-fed q core limit arrivals done w =
    (acts-Moves (log_of q) done (new_endpoint (logged q) (core, []) limit arrivals) tt w).all
