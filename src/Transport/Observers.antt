-- ===== src/Transport/Observers.antt =====
-- native/src/transport/quic.rs: what quinn_proto gets to see of the datagrams. An observer tells from the
-- state of quinn_proto's endpoint which bytes its `handle` was given; any quinn_proto can be given one,
-- that keeps a log beside its state.
use ethersync.Base.{
  ℕ, ◌≡◌, refl, ◌∙◌, Bool, Option, none, some, List, [], ◌∷◌, ◌++◌, leb, length, if_elim,
}
use ethersync.Wire.Messages.{Bytes}
use ethersync.Transport.Quinn.{Quinn, ProtoEvent}
use ethersync.Transport.Visits.{
  out_limit, due, Visit, with_proto, begin_visit, sent_by, send_round, answered, noticed,
  notice_round, reported, event_round, rounds, visit_conn,
}
use ethersync.Transport.Bounds.{rounds-Keeps}

-- Only `handle` adds to what was seen, and it adds the bytes that it is given.
pub record Observer (q : Quinn) : Type 0 where
  pub seen : q.Core → List Bytes
  pub on_handle :
      (now addr : ℕ) (bytes : Bytes) (core : q.Core)
      → seen (q.handle now addr bytes core).1 ≡ seen core ++ bytes ∷ []
  pub on_notice :
      (id : ℕ) (n : q.Notice) (core : q.Core) → seen (q.handle_notice id n core).1 ≡ seen core
  pub on_ignore : (i : q.Incoming) (core : q.Core) → seen (q.ignore i core) ≡ seen core
  pub on_accept :
      (i : q.Incoming) (now : ℕ) (core : q.Core) → seen (q.accept i now core).1 ≡ seen core
  pub on_connect : (now remote : ℕ) (core : q.Core) → seen (q.connect now remote core).1 ≡ seen core

-- The same quinn_proto with a log of what `handle` is given.
abbrev pub logged : Quinn → Quinn
logged q = record {
  Proto = q.Proto;
  Core = q.Core × List Bytes;
  Incoming = q.Incoming;
  Change = q.Change;
  Notice = q.Notice;
  Transmit = q.Transmit;
  poll_timeout = q.poll_timeout;
  handle_timeout = q.handle_timeout;
  apply_change = q.apply_change;
  poll_transmit = q.poll_transmit;
  poll_notices = q.poll_notices;
  poll_event = q.poll_event;
  is_drained = q.is_drained;
  handle = λ now addr bytes core.
      let r = q.handle now addr bytes core.0 in (r.0, (r.1, core.1 ++ bytes ∷ []));
  handle_notice = λ id n core. let r = q.handle_notice id n core.0 in (r.0, (r.1, core.1));
  ignore = λ i core. (q.ignore i core.0, core.1);
  accept = λ i now core. let r = q.accept i now core.0 in (r.0, (r.1, core.1));
  connect = λ now remote core. let r = q.connect now remote core.0 in (r.0, (r.1, core.1));
}

abbrev pub log_of : (q : Quinn) → Observer (logged q)
log_of q = record {
  seen = λ core. core.1;
  on_handle = λ now addr bytes core. refl;
  on_notice = λ id n core. refl;
  on_ignore = λ i core. refl;
  on_accept = λ i now core. refl;
  on_connect = λ now remote core. refl;
}

module _ {q : Quinn} (o : Observer q) where
  open q use {Proto, Core, Transmit, Notice, Change, poll_timeout, poll_transmit, poll_notices}

  -- A visit that has shown nothing more.
  abbrev Shows : List Bytes → Visit q → Type 0
  Shows l v = o.seen v.core ≡ l

  begin_visit-Shows : (now : ℕ) (v : Visit q) → Shows (o.seen v.core) (begin_visit q now v)
  unfolding begin_visit
  begin_visit-Shows now v =
      if_elim (Shows (o.seen v.core)) (due (poll_timeout v.conn.proto) now) (λ _. refl) (λ _. refl)

  sent_by-Shows :
      (l : List Bytes) (final : Bool) (r : Option Transmit × Proto) (v : Visit q)
      → Shows l v
      → Shows l (sent_by q final r v).1
  sent_by-Shows l final (some t, p) v h = h
  sent_by-Shows l final (none, p) v h = h

  send_round-Shows :
      (l : List Bytes) (blocked : Bool) (now : ℕ) (final : Bool) (v : Visit q)
      → Shows l v
      → Shows l (send_round q blocked now final v).1
  unfolding send_round
  send_round-Shows l blocked now final v h =
      if_elim (λ (r : Bool × Visit q). Shows l r.1) (leb out_limit (length v.out)) (λ _. h)
        (λ _. sent_by-Shows l final (poll_transmit now v.conn.proto) v h)

  answered-seen :
      (r : Option Change × Core) (v : Visit q) → o.seen (answered q r v).core ≡ o.seen r.1
  answered-seen (none, core) v = refl
  answered-seen (some c, core) v = refl

  noticed-Shows :
      (l : List Bytes) (id : ℕ) (final : Bool) (r : Option Notice × Proto) (v : Visit q)
      → Shows l v
      → Shows l (noticed q id final r v).1
  noticed-Shows l id final (none, p) v h = h
  noticed-Shows l id final (some n, p) v h =
      answered-seen (q.handle_notice id n v.core) (with_proto q p v) ∙ o.on_notice id n v.core ∙ h

  reported-Shows :
      (l : List Bytes) (final : Bool) (r : Option ProtoEvent × Proto) (v : Visit q)
      → Shows l v
      → Shows l (reported q final r v).1
  reported-Shows l final (none, p) v h = h
  reported-Shows l final (some e, p) v h = h

  pub visit_conn-Shows :
      (blocked : Bool) (now id : ℕ) (v : Visit q)
      → o.seen (visit_conn q blocked now id v).core ≡ o.seen v.core
  unfolding visit_conn notice_round event_round
  visit_conn-Shows blocked now id v =
      let l = o.seen v.core in
      let begun = begin_visit q now v in
      let sent = rounds q 8 (send_round q blocked now) begun in
      let told = rounds q 8 (notice_round q id) sent in
      rounds-Keeps (Shows l) 8 (event_round q)
        (λ final u g. reported-Shows l final (q.poll_event u.conn.proto) u g) told
        (rounds-Keeps (Shows l) 8 (notice_round q id)
          (λ final u g. noticed-Shows l id final (poll_notices u.conn.proto) u g) sent
          (rounds-Keeps (Shows l) 8 (send_round q blocked now) (send_round-Shows l blocked now)
            begun (begin_visit-Shows now v)))
