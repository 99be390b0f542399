-- ===== src/Transport/Capacity/Passes.antt =====
-- native/src/transport/quic.rs: the bounds of `Endpoint` where it visits its connections and sends.
use ethersync.Base.{
  ℕ, suc, ◌≤◌, ◌≡◌, refl, ap, Bool, true, false, Option, none, some, List, [], ◌∷◌, ltb, bool_ne,
  Result, ok, err, length, arith, if_elim, String,
}
use ethersync.Transport.Quinn.{Quinn, Conn, Endpoint, get, keys}
use ethersync.Transport.Visits.{
  Visit, end_visit, visit_found, visit, visit_each, turn, turned, visit_all,
}
use ethersync.Transport.Endpoint.{receive}
use ethersync.Transport.Packets.{
  Sent, set_write_blocked, need_all, unblock, popped, if_ok, on_sent, send_out, step,
}
use ethersync.Transport.Bounds.{length-insert_get, length-remove, visit_conn-Fits, Fits}
use ethersync.Transport.Capacity.Calls.{IsBounded, receive-IsBounded}

module _ {q : Quinn} where
  length-need_all : (cs : List (ℕ × Conn q)) → length (need_all q cs) ≡ length cs
  unfolding need_all
  length-need_all [] = refl
  length-need_all ((id, c) ∷ cs) = ap suc (length-need_all cs)

module _ {q : Quinn} (most : ℕ) where
  open q use {Transmit, is_drained}

  end_visit-IsBounded :
      (id : ℕ) (v : Visit q) (c : Conn q) (e : Endpoint q)
      → get id e.connections ≡ some c
      → Fits v
      → IsBounded most e
      → IsBounded most (end_visit q id v e)
  unfolding end_visit
  end_visit-IsBounded id v c e found f b = record {
    limit = b.limit;
    connections =
        if_elim (λ (cs : List (ℕ × Conn q)). length cs ≤ most) (is_drained v.conn.proto)
          (λ _. omega (arith, length-remove {V = Conn q} id e.connections, b.connections))
          (λ _.
            omega (
              arith,
              length-insert_get {V = Conn q} id v.conn c e.connections found,
              b.connections,
            ));
    out = f.0;
    send_buffers = f.1;
  }

  visit_found-IsBounded :
      (now id : ℕ) (o : Option (Conn q)) (e : Endpoint q)
      → get id e.connections ≡ o
      → IsBounded most e
      → IsBounded most (visit_found q now id o e)
  visit_found-IsBounded now id none e h b = b
  visit_found-IsBounded now id (some c) e h b =
      end_visit-IsBounded id _ c e h
        (visit_conn-Fits e.write_blocked now id _ (b.out, b.send_buffers)) b

  visit_each-IsBounded :
      (now : ℕ) (ids : List ℕ) (e : Endpoint q)
      → IsBounded most e
      → IsBounded most (visit_each q now ids e)
  unfolding visit_each visit
  visit_each-IsBounded now [] e b = b
  visit_each-IsBounded now (id ∷ ids) e b =
      visit_each-IsBounded now ids (visit q now id e)
        (visit_found-IsBounded now id (get id e.connections) e refl b)

  visit_all-IsBounded :
      (now : ℕ) (e : Endpoint q) → IsBounded most e → IsBounded most (visit_all q now e)
  unfolding visit_all
  visit_all-IsBounded now e b =
      if_elim (λ (f : Endpoint q). IsBounded most f) (ltb 0 (length (keys e.connections)))
        (λ _. visit_each-IsBounded now (turn q e) (turned q e) b) (λ _. b)

  set_write_blocked-IsBounded :
      (blocked : Bool) (r : Result String (Unit {0})) (e : Endpoint q)
      → IsBounded most e
      → IsBounded most (set_write_blocked q blocked r e).1
  unfolding set_write_blocked
  set_write_blocked-IsBounded blocked r e b =
      if_elim (λ (p : Result String (Unit {0}) × Endpoint q). IsBounded most p.1)
        (bool_ne e.write_blocked blocked) (λ _. b) (λ _. b)

  if_ok-IsBounded :
      (r : Result String (Unit {0}) × Endpoint q)
      (next : Endpoint q → Result String (Unit {0}) × Endpoint q)
      → ((e : Endpoint q) → IsBounded most e → IsBounded most (next e).1)
      → IsBounded most r.1
      → IsBounded most (if_ok q r next).1
  if_ok-IsBounded (err reason, e) next h b = b
  if_ok-IsBounded (ok _, e) next h b = h e b

  unblock-IsBounded :
      (s : Sent) (e : Endpoint q) → IsBounded most e → IsBounded most (unblock q s e).1
  unfolding unblock
  unblock-IsBounded s e b =
      if_elim (λ (p : Result String (Unit {0}) × Endpoint q). IsBounded most p.1) e.write_blocked
        (λ _.
          if_ok-IsBounded (set_write_blocked q false s.reregistered e)
            (λ f. (ok tt, record f { connections = need_all q f.connections }))
            (λ f c. record {
              limit = c.limit;
              connections = omega (arith, length-need_all f.connections, c.connections);
              out = c.out;
              send_buffers = c.send_buffers;
            })
            (set_write_blocked-IsBounded false s.reregistered e b))
        (λ _. b)

  on_sent-IsBounded :
      (o : Option (Result String (Unit {0}))) (s : Sent) (e : Endpoint q)
      (next : Endpoint q → Result String (Unit {0}) × Endpoint q)
      → ((f : Endpoint q) → IsBounded most f → IsBounded most (next f).1)
      → IsBounded most e
      → IsBounded most (on_sent q o s e next).1
  on_sent-IsBounded none s e next h b = set_write_blocked-IsBounded true s.reregistered e b
  on_sent-IsBounded (some (err reason)) s e next h b = b
  on_sent-IsBounded (some (ok _)) s e next h b =
      if_ok-IsBounded (unblock q s e) next h (unblock-IsBounded s e b)

  send_out-IsBounded :
      (ts : List Transmit) (answers : List Sent) (e : Endpoint q)
      → length ts ≤ 64
      → IsBounded most e
      → IsBounded most (send_out q ts answers e).1
  unfolding send_out
  send_out-IsBounded [] answers e n b = b
  send_out-IsBounded (t ∷ ts) [] e n b = set_write_blocked-IsBounded true (ok tt) e b
  send_out-IsBounded (t ∷ ts) (s ∷ answers) e n b =
      on_sent-IsBounded s.answer s e (λ f. send_out q ts answers (popped q ts f))
        (λ f c. send_out-IsBounded ts answers (popped q ts f) (omega arith) (record {
          limit = c.limit;
          connections = c.connections;
          out = omega arith;
          send_buffers = let k = c.send_buffers in ground arith;
        }))
        b

  pub step-IsBounded :
      (now : ℕ) (answers : List Sent) (e : Endpoint q)
      → IsBounded most e
      → IsBounded most (step q now answers e).1
  unfolding step
  step-IsBounded now answers e b =
      let started = record e { receive_more = true } in
      if_ok-IsBounded (receive q now 32 started)
        (λ f. let g = visit_all q now f in send_out q g.out answers g)
        (λ f c.
          let g = visit_all-IsBounded now f c in
          send_out-IsBounded (visit_all q now f).out answers (visit_all q now f) g.out g)
        (receive-IsBounded most now 32 started b)
