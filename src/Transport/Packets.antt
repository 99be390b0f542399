-- ===== src/Transport/Packets.antt =====
-- native/src/transport/quic.rs: what `Endpoint::step` sends, and the step.
use ethersync.Base.{
  ℕ, ◌+◌, Bool, true, false, Option, none, some, List, [], ◌∷◌, ltb, bool_ne, if◌then◌else◌, Result,
  ok, err, String,
}
use ethersync.Transport.Quinn.{Quinn, Conn, Endpoint}
use ethersync.Transport.Visits.{visit_all}
use ethersync.Transport.Endpoint.{receive}

-- What a send to the socket returns; `reregistered` is the result of a change of interest then.
pub record Sent : Type 0 where
  pub answer : Option (Result String (Unit {0}))
  pub reregistered : Result String (Unit {0})

module _ (q : Quinn) where
  open q use {Transmit}

  -- `Endpoint::set_write_blocked`
  unfoldable pub set_write_blocked :
      Bool → Result String (Unit {0}) → Endpoint q → Result String (Unit {0}) × Endpoint q
  set_write_blocked blocked reregistered e =
      if bool_ne e.write_blocked blocked
      then (reregistered, record e { write_blocked = blocked })
      else (ok tt, e)

  -- `for c in self.connections.values() { c.needs_pass.set(true) }`
  unfoldable pub need_all : List (ℕ × Conn q) → List (ℕ × Conn q)
  need_all [] = []
  need_all ((id, c) ∷ cs) =
      (id, record c { shared = record c.shared { needs_pass = true } }) ∷ need_all cs

  -- `?` on a result of the system.
  abbrev pub if_ok :
      Result String (Unit {0}) × Endpoint q
      → (Endpoint q → Result String (Unit {0}) × Endpoint q)
      → Result String (Unit {0}) × Endpoint q
  if_ok (err reason, e) next = (err reason, e)
  if_ok (ok _, e) next = next e

  -- A packet went out: the connections go on if they were blocked.
  unfoldable pub unblock : Sent → Endpoint q → Result String (Unit {0}) × Endpoint q
  unfolding set_write_blocked need_all
  unblock s e =
      if e.write_blocked
      then if_ok (set_write_blocked false s.reregistered e)
          (λ f. (ok tt, record f { connections = need_all f.connections }))
      else (ok tt, e)

  -- Its buffer is kept.
  abbrev pub popped : List Transmit → Endpoint q → Endpoint q
  popped ts e = record e {
    out = ts;
    send_buffers = if ltb e.send_buffers 64 then e.send_buffers + 1 else e.send_buffers;
  }

  -- What an answer of the socket to a packet leads to.
  abbrev pub on_sent :
      Option (Result String (Unit {0}))
      → Sent
      → Endpoint q
      → (Endpoint q → Result String (Unit {0}) × Endpoint q)
      → Result String (Unit {0}) × Endpoint q
  on_sent none s e next = set_write_blocked true s.reregistered e
  on_sent (some (err reason)) s e next = (err reason, e)
  on_sent (some (ok _)) s e next = if_ok (unblock s e) next

  -- `while let Some(..) = self.out.front()`, with the socket's answers; without one it blocks.
  unfoldable pub send_out :
      List Transmit → List Sent → Endpoint q → Result String (Unit {0}) × Endpoint q
  unfolding unblock
  send_out [] answers e = (ok tt, e)
  send_out (t ∷ ts) [] e = set_write_blocked true (ok tt) e
  send_out (t ∷ ts) (s ∷ answers) e = on_sent s.answer s e (λ f. send_out ts answers (popped ts f))

  -- `Endpoint::step`
  unfoldable pub step : ℕ → List Sent → Endpoint q → Result String (Unit {0}) × Endpoint q
  unfolding receive visit_all send_out
  step now answers e =
      if_ok (receive q now 32 (record e { receive_more = true }))
        (λ f. let g = visit_all q now f in send_out g.out answers g)
