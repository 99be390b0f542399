-- ===== src/Transport/Wakes/Calls.antt =====
-- native/src/transport/quic.rs: the visit of a connection wakes those that asked for it.
use ethersync.Base.{
  ℕ, ◌≡◌, refl, Bool, true, false, not, Option, none, some, leb, if◌then◌else◌, length, if_elim,
  ◌⊎◌, inl, inr,
}
use ethersync.Transport.Shared.{Shared, parked, wake, operations}
use ethersync.Transport.Quinn.{Quinn, ProtoEvent, connected, other, lost, finished, stopped, Conn}
use ethersync.Transport.Visits.{
  out_limit, flag, due, rounds, Visit, with_proto, begin_visit, sent_by, send_round, answered,
  noticed, notice_round, on_event, reported, event_round, visit_conn,
}
use ethersync.Transport.Bounds.{rounds-Keeps}
use ethersync.Transport.Tables.{parked-append_left, parked-append_right}

flag-woken : (b : Bool) (s : Shared) → (flag b s).woken ≡ s.woken
flag-woken true s = refl
flag-woken false s = refl

wake-Called : (w : ℕ) (s : Shared) → parked w s.woken ≡ true → parked w (wake s).woken ≡ true
unfolding wake
wake-Called w s h = parked-append_left w s.woken s.waiters h

on_event-Called :
    (w : ℕ) (e : ProtoEvent) (s : Shared)
    → parked w s.woken ≡ true
    → parked w (on_event e s).woken ≡ true
unfolding on_event wake
on_event-Called w connected s h = parked-append_left w s.woken s.waiters h
on_event-Called w (lost e) s h = parked-append_left w s.woken s.waiters h
on_event-Called w (finished id) s h = parked-append_left w s.woken s.waiters h
on_event-Called w (stopped id code) s h = parked-append_left w s.woken s.waiters h
on_event-Called w other s h = parked-append_left w s.woken s.waiters h

module _ {q : Quinn} (w : ℕ) where
  open q use {
    Proto, Core, Transmit, Notice, Change, poll_timeout, poll_transmit, poll_notices, poll_event,
    handle_notice,
  }

  abbrev pub Called : Conn q → Type 0
  Called c = parked w c.shared.woken ≡ true

  -- It waits for a pass that will take place.
  abbrev pub PutOff : Conn q → Type 0
  PutOff c = (c.shared.needs_pass ≡ true) × (parked w c.shared.waiters ≡ true)

  abbrev pub CalledIn : Visit q → Type 0
  CalledIn v = Called v.conn

  sent_by-Called :
      (final : Bool) (r : Option Transmit × Proto) (v : Visit q)
      → CalledIn v
      → CalledIn (sent_by q final r v).1
  sent_by-Called final (some t, p) v h = rw (flag-woken final v.conn.shared) h
  sent_by-Called final (none, p) v h = h

  send_round-Called :
      (blocked : Bool) (now : ℕ) (final : Bool) (v : Visit q)
      → CalledIn v
      → CalledIn (send_round q blocked now final v).1
  unfolding send_round
  send_round-Called blocked now final v h =
      if_elim (λ (r : Bool × Visit q). CalledIn r.1) (leb out_limit (length v.out))
        (λ _. rw (flag-woken (not blocked) v.conn.shared) h)
        (λ _. sent_by-Called final (poll_transmit now v.conn.proto) v h)

  answered-Called :
      (r : Option Change × Core) (v : Visit q) → CalledIn v → CalledIn (answered q r v)
  answered-Called (none, core) v h = h
  answered-Called (some c, core) v h = h

  noticed-Called :
      (id : ℕ) (final : Bool) (r : Option Notice × Proto) (v : Visit q)
      → CalledIn v
      → CalledIn (noticed q id final r v).1
  noticed-Called id final (none, p) v h = h
  noticed-Called id final (some n, p) v h =
      let u = answered q (handle_notice id n v.core) (with_proto q p v) in
      rw (flag-woken final u.conn.shared)
        (answered-Called (handle_notice id n v.core) (with_proto q p v) h)

  reported-Called :
      (final : Bool) (r : Option ProtoEvent × Proto) (v : Visit q)
      → CalledIn v
      → CalledIn (reported q final r v).1
  reported-Called final (none, p) v h = h
  reported-Called final (some e, p) v h =
      rw (flag-woken final (on_event e v.conn.shared)) (on_event-Called w e v.conn.shared h)

  begin_visit-Called :
      (now : ℕ) (v : Visit q) → PutOff v.conn ⊎ CalledIn v → CalledIn (begin_visit q now v)
  unfolding begin_visit
  begin_visit-Called now v h =
      let s = v.conn.shared in
      let fresh = record s { needs_pass = false; budget = operations } in
      let started : parked w (if s.needs_pass then wake fresh else fresh).woken ≡ true =
        begun s h in
      if_elim CalledIn (due (poll_timeout v.conn.proto) now) (λ _. wake-Called w _ started)
        (λ _. started)
    where
      begun :
          (s : Shared)
          → (((s.needs_pass ≡ true) × (parked w s.waiters ≡ true)) ⊎ (parked w s.woken ≡ true))
          → let fresh = record s { needs_pass = false; budget = operations } in
            parked w (if s.needs_pass then wake fresh else fresh).woken ≡ true
      begun s (inl (n, p)) =
          let fresh = record s { needs_pass = false; budget = operations } in
          rw n (unfold wake in parked-append_right w s.woken s.waiters p)
      begun s (inr p) =
          let fresh = record s { needs_pass = false; budget = operations } in
          if_elim (λ (t : Shared). parked w t.woken ≡ true) s.needs_pass
            (λ _. wake-Called w fresh p) (λ _. p)

  pub visit_conn-Called :
      (blocked : Bool) (now id : ℕ) (v : Visit q)
      → PutOff v.conn ⊎ CalledIn v
      → CalledIn (visit_conn q blocked now id v)
  unfolding visit_conn notice_round event_round
  visit_conn-Called blocked now id v h =
      let begun = begin_visit q now v in
      let sent = rounds q 8 (send_round q blocked now) begun in
      let told = rounds q 8 (notice_round q id) sent in
      rounds-Keeps CalledIn 8 (event_round q)
        (λ final u g. reported-Called final (poll_event u.conn.proto) u g) told
        (rounds-Keeps CalledIn 8 (notice_round q id)
          (λ final u g. noticed-Called id final (poll_notices u.conn.proto) u g) sent
          (rounds-Keeps CalledIn 8 (send_round q blocked now) (send_round-Called blocked now) begun
            (begin_visit-Called now v h)))
