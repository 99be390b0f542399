-- ===== src/Transport/Visits.antt =====
-- native/src/transport/quic.rs, `Endpoint::step`: what it does for one connection, and then for each.
use ethersync.Base.{
  ℕ, zero, suc, ◌+◌, ◌-◌, ◌%◌, Bool, true, false, not, Option, none, some, List, [], ◌∷◌, ◌++◌,
  ◌==◌, ltb, leb, if◌then◌else◌, ok, err, length, take, drop,
}
use ethersync.Transport.Defs.{TransportError}
use ethersync.Transport.Shared.{Shared, wake, operations}
use ethersync.Transport.Sending.{fill_slot}
use ethersync.Transport.Quinn.{
  Quinn, ConnectionError, application_closed, other_error, ProtoEvent, connected, other, lost,
  finished, stopped, Conn, Endpoint, get, insert, remove, keys,
}

abbrev pub out_limit : ℕ
out_limit = 64

-- `Vec::rotate_left`
unfoldable pub rotate_left {ℓ} : {A : Type ℓ} → ℕ → List A → List A
rotate_left n xs = drop n xs ++ take n xs

abbrev pub flag : Bool → Shared → Shared
flag true s = record s { needs_pass = true }
flag false s = s

-- `deadline <= now`
abbrev pub due : Option ℕ → ℕ → Bool
due none now = false
due (some at) now = leb at now

abbrev pub loss : ConnectionError → TransportError
loss (application_closed code reason) = TransportError.closed code reason
loss (other_error reason) = TransportError.quic reason

-- What the application is told of an event.
unfoldable pub on_event : ProtoEvent → Shared → Shared
on_event connected s = wake (record s { connected = true })
on_event (lost e) s = wake (record s { error = some (loss e) })
on_event (finished id) s = wake (record s { finished = fill_slot id (ok tt) s.finished })
on_event (stopped id code) s =
    wake (record s { finished = fill_slot id (err (TransportError.reset code)) s.finished })
on_event other s = wake s

module _ (q : Quinn) where
  open q use {
    Proto, Core, Transmit, Notice, Change, poll_timeout, handle_timeout, apply_change,
    poll_transmit, poll_notices, poll_event, is_drained, handle_notice,
  }

  -- A connection under way, with what of the endpoint its visit changes.
  pub record Visit : Type 0 where
    pub conn : Conn q
    pub core : Core
    pub out : List Transmit
    pub send_buffers : ℕ

  abbrev pub with_shared : (Shared → Shared) → Visit → Visit
  with_shared f v = record v { conn = record v.conn { shared = f v.conn.shared } }

  abbrev pub with_proto : Proto → Visit → Visit
  with_proto p v = record v { conn = record v.conn { proto = p } }

  -- The flags, the budget and the timer.
  unfoldable pub begin_visit : ℕ → Visit → Visit
  begin_visit now v =
      let s = v.conn.shared in
      let fresh = record s { needs_pass = false; budget = operations } in
      let started = with_shared (λ _. if s.needs_pass then wake fresh else fresh) v in
      if due (poll_timeout v.conn.proto) now
      then with_shared wake (with_proto (handle_timeout now v.conn.proto) started)
      else started

  -- A packet to send, or none.
  abbrev pub sent_by : Bool → Option Transmit × Proto → Visit → Bool × Visit
  sent_by final (some t, p) v =
      let u =
        with_proto p (record v { out = v.out ++ t ∷ []; send_buffers = v.send_buffers - 1 }) in
      (true, with_shared (flag final) u)
  sent_by final (none, p) v =
      (false, with_proto p (record v { send_buffers = v.send_buffers - 1 + 1 }))

  -- One round of the sends, the last where it says so: whether to go on, and the visit.
  unfoldable pub send_round : Bool → ℕ → Bool → Visit → Bool × Visit
  send_round write_blocked now final v =
      if leb out_limit (length v.out)
      then (false, with_shared (flag (not write_blocked)) v)
      else sent_by final (poll_transmit now v.conn.proto) v

  -- What the connection has to tell the endpoint, and what the endpoint answers.
  abbrev pub answered : Option Change × Core → Visit → Visit
  answered (none, core) v = record v { core = core }
  answered (some c, core) v = with_proto (apply_change c v.conn.proto) (record v { core = core })

  abbrev pub noticed : ℕ → Bool → Option Notice × Proto → Visit → Bool × Visit
  noticed id final (none, p) v = (false, with_proto p v)
  noticed id final (some n, p) v =
      (true, with_shared (flag final) (answered (handle_notice id n v.core) (with_proto p v)))

  unfoldable pub notice_round : ℕ → Bool → Visit → Bool × Visit
  notice_round id final v = noticed id final (poll_notices v.conn.proto) v

  abbrev pub reported : Bool → Option ProtoEvent × Proto → Visit → Bool × Visit
  reported final (none, p) v = (false, with_proto p v)
  reported final (some e, p) v =
      (true, with_shared (flag final) (with_shared (on_event e) (with_proto p v)))

  unfoldable pub event_round : Bool → Visit → Bool × Visit
  unfolding on_event
  event_round final v = reported final (poll_event v.conn.proto) v

  -- `for operation in 0..8`, with a break.
  abbrev pub go_on : Bool × Visit → (Visit → Visit) → Visit
  go_on (true, v) next = next v
  go_on (false, v) next = v

  abbrev pub rounds : ℕ → (Bool → Visit → Bool × Visit) → Visit → Visit
  rounds zero round v = v
  rounds (suc k) round v = go_on (round (k == 0) v) (rounds k round)

  -- What is done for one connection.
  unfoldable pub visit_conn : Bool → ℕ → ℕ → Visit → Visit
  unfolding begin_visit send_round notice_round event_round
  visit_conn write_blocked now id v =
      let begun = begin_visit now v in
      let sent = rounds 8 (send_round write_blocked now) begun in
      rounds 8 event_round (rounds 8 (notice_round id) sent)

  -- The connection is put back, or removed where it is drained.
  unfoldable pub end_visit : ℕ → Visit → Endpoint q → Endpoint q
  end_visit id v e = record e {
    core = v.core;
    out = v.out;
    send_buffers = v.send_buffers;
    connections =
        if is_drained v.conn.proto then remove id e.connections else insert id v.conn e.connections;
  }

  abbrev pub visit_found : ℕ → ℕ → Option (Conn q) → Endpoint q → Endpoint q
  visit_found now id none e = e
  visit_found now id (some c) e =
      let start : Visit = record {
        conn = c;
        core = e.core;
        out = e.out;
        send_buffers = e.send_buffers;
      } in
      end_visit id (visit_conn e.write_blocked now id start) e

  -- One connection of the endpoint; each is there when its turn comes.
  unfoldable pub visit : ℕ → ℕ → Endpoint q → Endpoint q
  unfolding visit_conn end_visit
  visit now id e = visit_found now id (get id e.connections) e

  unfoldable pub visit_each : ℕ → List ℕ → Endpoint q → Endpoint q
  unfolding visit
  visit_each now [] e = e
  visit_each now (id ∷ ids) e = visit_each now ids (visit now id e)

  -- All connections, from the next one in turn.
  abbrev pub turn : Endpoint q → List ℕ
  turn e = let ids = keys e.connections in rotate_left (e.next % length ids) ids

  abbrev pub turned : Endpoint q → Endpoint q
  turned e = record e { next = (e.next + 1) % length (keys e.connections) }

  unfoldable pub visit_all : ℕ → Endpoint q → Endpoint q
  unfolding visit_each rotate_left
  visit_all now e =
      if ltb 0 (length (keys e.connections)) then visit_each now (turn e) (turned e) else e
