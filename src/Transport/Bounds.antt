-- ===== src/Transport/Bounds.antt =====
-- native/src/transport/quic.rs: the bounds that `Endpoint` keeps over its connections and its queues.
use ethersync.Base.{
  ℕ, zero, suc, ◌+◌, ◌≤◌, ◌<◌, ◌≡◌, refl, ap, Bool, true, false, Option, none, some, List, [], ◌∷◌,
  ◌==◌, leb, length, arith, length-append, if_elim, Bool-cases, inl, inr,
}
use ethersync.Transport.Quinn.{Quinn, ProtoEvent, get, insert, remove}
use ethersync.Transport.Visits.{
  out_limit, due, Visit, with_proto, begin_visit, sent_by, send_round, answered, noticed,
  notice_round, reported, event_round, go_on, rounds, visit_conn,
}

module _ {V : Type 0} where
  pub length-insert : (id : ℕ) (v : V) (es : List (ℕ × V)) → length (insert id v es) ≤ length es + 1
  unfolding insert
  length-insert id v [] = omega arith
  length-insert id v ((i, w) ∷ es) =
      if_elim (λ (xs : List (ℕ × V)). length xs ≤ suc (length es) + 1) (i == id) (λ _. omega arith)
        (λ _. omega (arith, length-insert id v es))

  pub length-insert_get :
      (id : ℕ) (v w : V) (es : List (ℕ × V))
      → get id es ≡ some w
      → length (insert id v es) ≡ length es
  unfolding insert get
  length-insert_get id v w [] h = cc
  length-insert_get id v w ((i, u) ∷ es) h = elim (Bool-cases (i == id)) [
    | inl e ↦ rw e refl
    | inr e ↦ rw e (ap suc (length-insert_get id v w es (rw e at h)))
  ]

  pub length-remove : (id : ℕ) (es : List (ℕ × V)) → length (remove id es) ≤ length es
  unfolding remove
  length-remove id [] = omega arith
  length-remove id ((i, w) ∷ es) =
      if_elim (λ (xs : List (ℕ × V)). length xs ≤ suc (length es)) (i == id)
        (λ _. omega (arith, length-remove id es)) (λ _. omega (arith, length-remove id es))

module _ {q : Quinn} where
  open q use {
    Proto, Core, Transmit, Notice, Change, poll_timeout, handle_timeout, apply_change,
    poll_transmit, poll_notices, poll_event, is_drained, handle_notice,
  }

  -- At most 64 packets wait, and at most 64 buffers are kept.
  abbrev pub Fits : Visit q → Type 0
  Fits v = (length v.out ≤ 64) × (v.send_buffers ≤ 64)

  go_on-Keeps :
      (P : Visit q → Type 0) (r : Bool × Visit q) (next : Visit q → Visit q)
      → ((v : Visit q) → P v → P (next v))
      → P r.1
      → P (go_on q r next)
  go_on-Keeps P (true, u) next h p = h u p
  go_on-Keeps P (false, u) next h p = p

  -- What each round keeps, the rounds keep.
  pub rounds-Keeps :
      (P : Visit q → Type 0) (k : ℕ) (round : Bool → Visit q → Bool × Visit q)
      → ((final : Bool) (v : Visit q) → P v → P (round final v).1)
      → (v : Visit q) → P v
      → P (rounds q k round v)
  rounds-Keeps P zero round h v p = p
  rounds-Keeps P (suc k) round h v p =
      go_on-Keeps P (round (k == 0) v) (rounds q k round) (rounds-Keeps P k round h)
        (h (k == 0) v p)

  sent_by-Fits :
      (final : Bool) (r : Option Transmit × Proto) (v : Visit q)
      → Fits v
      → length v.out < 64
      → Fits (sent_by q final r v).1
  sent_by-Fits final (some t, p) v (a, b) h =
      (omega (arith, length-append v.out (t ∷ [])), omega arith)
  sent_by-Fits final (none, p) v (a, b) h = (a, omega arith)

  send_round-Fits :
      (blocked : Bool) (now : ℕ) (final : Bool) (v : Visit q)
      → Fits v
      → Fits (send_round q blocked now final v).1
  unfolding send_round
  send_round-Fits blocked now final v f =
      if_elim (λ (r : Bool × Visit q). Fits r.1) (leb out_limit (length v.out)) (λ _. f)
        (λ h. sent_by-Fits final (poll_transmit now v.conn.proto) v f (ground arith))

  noticed-Fits :
      (id : ℕ) (final : Bool) (r : Option Notice × Proto) (v : Visit q)
      → Fits v
      → Fits (noticed q id final r v).1
  noticed-Fits id final (none, p) v f = f
  noticed-Fits id final (some n, p) v f =
      answered-Fits (handle_notice id n v.core) (with_proto q p v) f
    where
      answered-Fits : (r : Option Change × Core) (u : Visit q) → Fits u → Fits (answered q r u)
      answered-Fits (none, core) u g = g
      answered-Fits (some c, core) u g = g

  reported-Fits :
      (final : Bool) (r : Option ProtoEvent × Proto) (v : Visit q)
      → Fits v
      → Fits (reported q final r v).1
  reported-Fits final (none, p) v f = f
  reported-Fits final (some e, p) v f = f

  begin_visit-Fits : (now : ℕ) (v : Visit q) → Fits v → Fits (begin_visit q now v)
  unfolding begin_visit
  begin_visit-Fits now v f = if_elim Fits (due (poll_timeout v.conn.proto) now) (λ _. f) (λ _. f)

  pub visit_conn-Fits :
      (blocked : Bool) (now id : ℕ) (v : Visit q) → Fits v → Fits (visit_conn q blocked now id v)
  unfolding visit_conn notice_round event_round
  visit_conn-Fits blocked now id v f =
      rounds-Keeps Fits 8 (event_round q)
        (λ final u g. reported-Fits final (poll_event u.conn.proto) u g) _
        (rounds-Keeps Fits 8 (notice_round q id)
          (λ final u g. noticed-Fits id final (poll_notices u.conn.proto) u g) _
          (rounds-Keeps Fits 8 (send_round q blocked now) (send_round-Fits blocked now) _
            (begin_visit-Fits now v f)))
