-- ===== src/Transport/Wakes.antt =====
-- native/src/transport/quic.rs: an operation that was put off for the budget is woken by the next pass
-- of the endpoint over its connections.
use ethersync.Base.{
  ℕ, ◌%◌, ◌≡◌, refl, ◌∙◌, Bool, true, false, not, Option, none, some, List, [], ◌∷◌, ◌==◌, ltb, leb,
  if◌then◌else◌, length, arith, if_elim, Bool-cases, ◌⊎◌, inl, inr, ==_iff, ◌≢◌,
}
use ethersync.Transport.Defs.{TransportError, pending}
use ethersync.Transport.Shared.{
  Shared, parked, park, wake, admit, enter, enter_unless, parked-park, operations,
}
use ethersync.Transport.Quinn.{
  Quinn, ProtoEvent, connected, other, lost, finished, stopped, Conn, Endpoint, get, keys,
}
use ethersync.Transport.Visits.{
  out_limit, flag, due, rounds, Visit, with_proto, begin_visit, sent_by, send_round, answered,
  noticed, notice_round, on_event, reported, event_round, visit_conn, end_visit, visit_found, visit,
  visit_each, turn, turned, visit_all,
}
use ethersync.Transport.Bounds.{rounds-Keeps}
use ethersync.Transport.Tables.{
  parked-append_left, parked-append_right, parked-rotate_left, parked-keys, get-insert_self,
  get-insert_ne, get-remove_self, get-remove_ne,
}
use ethersync.Transport.Wakes.Calls.{Called, PutOff, CalledIn, visit_conn-Called}
pub mod Calls

module _ {q : Quinn} (w : ℕ) where
  open q use {is_drained}

  -- The connection is gone, or its waker was called.
  abbrev pub IsServed : ℕ → Endpoint q → Type 0
  IsServed id e =
      (get id e.connections ≡ none) ⊎ ((c : Conn q) × (get id e.connections ≡ some c) × Called w c)

  end_visit-IsServed :
      (id : ℕ) (v : Visit q) (e : Endpoint q) → CalledIn w v → IsServed id (end_visit q id v e)
  unfolding end_visit
  end_visit-IsServed id v e h =
      if_elim
        (λ (cs : List (ℕ × Conn q)).
          (get id cs ≡ none) ⊎ ((c : Conn q) × (get id cs ≡ some c) × Called w c))
        (is_drained v.conn.proto) (λ _. inl (get-remove_self id e.connections))
        (λ _. inr (v.conn, get-insert_self id v.conn e.connections, h))

  -- A visit of another connection leaves this one alone.
  end_visit-get :
      (id j : ℕ) (v : Visit q) (e : Endpoint q)
      → j ≢ id
      → get id (end_visit q j v e).connections ≡ get id e.connections
  unfolding end_visit
  end_visit-get id j v e h =
      if_elim (λ (cs : List (ℕ × Conn q)). get id cs ≡ get id e.connections)
        (is_drained v.conn.proto) (λ _. get-remove_ne id j e.connections h)
        (λ _. get-insert_ne id j v.conn e.connections h)

  visit_found-get :
      (now id j : ℕ) (o : Option (Conn q)) (e : Endpoint q)
      → j ≢ id
      → get id (visit_found q now j o e).connections ≡ get id e.connections
  visit_found-get now id j none e h = refl
  visit_found-get now id j (some c) e h = end_visit-get id j _ e h

  visit_found-IsServed :
      (now id : ℕ) (o : Option (Conn q)) (e : Endpoint q)
      → get id e.connections ≡ o
      → ((c : Conn q) → o ≡ some c → PutOff w c ⊎ Called w c)
      → IsServed id (visit_found q now id o e)
  visit_found-IsServed now id none e h p = inl h
  visit_found-IsServed now id (some c) e h p =
      let start : Visit q = record {
        conn = c;
        core = e.core;
        out = e.out;
        send_buffers = e.send_buffers;
      } in
      end_visit-IsServed id (visit_conn q e.write_blocked now id start) e
        (visit_conn-Called w e.write_blocked now id start (p c refl))

  some_eq : {c d : Conn q} → some c ≡ some d → c ≡ d
  some_eq h = cc

  served_again :
      (now id : ℕ) (e : Endpoint q)
      → IsServed id e
      → (c : Conn q) → get id e.connections ≡ some c
      → PutOff w c ⊎ Called w c
  served_again now id e (inl gone) c h = cc
  served_again now id e (inr (d, found, called)) c h = let same : c ≡ d = cc in inr (rw same called)

  visit-IsServed : (now id j : ℕ) (e : Endpoint q) → IsServed id e → IsServed id (visit q now j e)
  unfolding visit
  visit-IsServed now id j e s = elim (Bool-cases (j == id)) [
    | inl same ↦
        let e' : j ≡ id = (==_iff j id).0 same in
        rw e' (visit_found-IsServed now id (get id e.connections) e refl (served_again now id e s))
    | inr different ↦
        let kept =
          visit_found-get now id j (get j e.connections) e
            (λ h. cc (different, (==_iff j id).1 h)) in
        elim s [
          | inl gone ↦ inl (kept ∙ gone)
          | inr (c, found, called) ↦ inr (c, kept ∙ found, called)
        ]
  ]

  -- What was served stays served.
  visit_each-IsServed :
      (now id : ℕ) (ids : List ℕ) (e : Endpoint q)
      → IsServed id e
      → IsServed id (visit_each q now ids e)
  unfolding visit_each
  visit_each-IsServed now id [] e s = s
  visit_each-IsServed now id (j ∷ ids) e s =
      visit_each-IsServed now id ids (visit q now j e) (visit-IsServed now id j e s)

  visit_each-serves :
      (now id : ℕ) (ids : List ℕ) (e : Endpoint q) (c : Conn q)
      → parked id ids ≡ true
      → get id e.connections ≡ some c
      → PutOff w c
      → IsServed id (visit_each q now ids e)
  unfolding visit_each visit parked
  visit_each-serves now id [] e c m found p = cc
  visit_each-serves now id (j ∷ ids) e c m found p = elim (Bool-cases (j == id)) [
    | inl same ↦
        let e' : j ≡ id = (==_iff j id).0 same in
        visit_each-IsServed now id ids (visit q now j e) (
          rw e' (
            visit_found-IsServed now id (get id e.connections) e refl
              (λ d h. let same : d ≡ c = cc in inl (rw same p))))
    | inr different ↦
        visit_each-serves now id ids (visit q now j e) c (rw different at m)
          (visit_found-get now id j (get j e.connections) e (λ h. cc (different, (==_iff j id).1 h))
            ∙ found)
          p
  ]

  visit_all-serves :
      (now id : ℕ) (e : Endpoint q) (c : Conn q)
      → get id e.connections ≡ some c
      → PutOff w c
      → IsServed id (visit_all q now e)
  unfolding visit_all
  visit_all-serves now id e c found p =
      let ids = keys e.connections in
      let m : parked id ids ≡ true = parked-keys id c e.connections found in
      if_elim (IsServed id) (ltb 0 (length ids))
        (λ _.
          visit_each-serves now id (turn q e) (turned q e) c
            (parked-rotate_left id (e.next % length ids) ids m) found p)
        (λ none'. nothing ids m none')
    where
      nothing : (ids : List ℕ) → parked id ids ≡ true → ltb 0 (length ids) ≡ false → IsServed id e
      nothing [] m h = absurd (unfold parked in ground arith)
      nothing (x ∷ xs) m h = absurd (ground arith)

-- An operation that has to wait because the budget is used up asks for a pass and leaves its waker.
enter_unless-PutOff :
    (w : ℕ) (s : Shared) (e : Option TransportError)
    → (enter_unless e w s).0 ≡ pending
    → let t = (enter_unless e w s).1 in (t.needs_pass ≡ true) × (parked w t.waiters ≡ true)
unfolding admit park
enter_unless-PutOff w s (some e) h = cc
enter_unless-PutOff w s none h = ground (arith, parked-park w (record s { needs_pass = true }))

-- Whatever else the connections and quinn_proto do: an operation of a connection that was put off
-- because the budget was used up is woken by the next pass of the endpoint over its connections, unless
-- the connection is drained and gone.
pub visit_all-wakes :
    {q : Quinn} (w now id : ℕ) (s : Shared) (c : Conn q) (e : Endpoint q)
    → get id e.connections ≡ some c
    → c.shared ≡ (enter w s).1
    → (enter w s).0 ≡ pending
    → IsServed w id (visit_all q now e)
unfolding enter
visit_all-wakes w now id s c e found shared off =
    let p = enter_unless-PutOff w s s.error off in visit_all-serves w now id e c found (rw shared p)
