-- ===== src/Transport/Segments.antt =====
-- native/src/transport/quic.rs: what `Endpoint` hands to quinn_proto of the bytes that it receives.
use ethersync.Base.{
  ℕ, zero, suc, ◌-◌, ◌≤◌, ◌≡◌, refl, sym, ap, ◌∙◌, Option, none, some, List, [], ◌∷◌, ◌++◌, ltb,
  leb, Result, ok, err, length, arith, All, if_elim, ltb_false→le, take, drop, take-append-drop,
}
use mathlib.Core.List.{append_assoc, append-nil}
use ethersync.Wire.Messages.{Bytes}
use ethersync.Transport.Quinn.{
  Quinn, DatagramEvent, connection_event, new_connection, response, RecvMeta, Arrival, arrived,
  Conn, Endpoint, get,
}
use ethersync.Transport.Visits.{out_limit}
use ethersync.Transport.Observers.{Observer}
use ethersync.Transport.Endpoint.{
  segment_end, segment, cut, push_out, accepted, change_conn, on_datagram, feed,
}

abbrev pub concat : List Bytes → Bytes
concat [] = []
concat (b ∷ bs) = b ++ concat bs

concat-append : (bs : List Bytes) (b : Bytes) → concat (bs ++ b ∷ []) ≡ concat bs ++ b
concat-append [] b = append-nil b
concat-append (c ∷ bs) b =
    ap (λ x. c ++ x) (concat-append bs b) ∙ sym (append_assoc c (concat bs) b)

take_nothing : (n : ℕ) → ◌≡◌ {A = Bytes} (take n [] ++ []) []
take_nothing zero = refl
take_nothing (suc n) = refl

-- The part of a list from `start` to `end`, and then the rest.
part-rest :
    (start end : ℕ) (b : Bytes)
    → start ≤ end
    → take (end - start) (drop start b) ++ drop end b ≡ drop start b
part-rest zero end b h = let e : end - 0 ≡ end = omega arith in rw e (take-append-drop end b)
part-rest (suc start) zero b h = absurd (omega arith)
part-rest (suc start) (suc end) [] h = take_nothing (suc end - suc start)
part-rest (suc start) (suc end) (x ∷ b) h =
    let e : suc end - suc start ≡ end - start = omega arith in
    rw e (part-rest start end b (omega arith))

drop_all : (b : Bytes) (n : ℕ) → length b ≤ n → drop n b ≡ []
drop_all [] zero h = refl
drop_all [] (suc n) h = refl
drop_all (x ∷ b) zero h = absurd (omega arith)
drop_all (x ∷ b) (suc n) h = drop_all b n (omega arith)

abbrev pub Held : Type 0
Held = List Bytes × Option (RecvMeta × ℕ) × Bytes × List Arrival

-- What of an endpoint concerns the bytes that it receives.
abbrev pub held : {q : Quinn} → Observer q → Endpoint q → Held
held o e = (o.seen e.core, e.receive_pending, e.buffer, e.arrivals)

-- That of an endpoint once quinn_proto has seen what is given.
abbrev pub with_seen : {q : Quinn} → Endpoint q → List Bytes → Held
with_seen e l = (l, e.receive_pending, e.buffer, e.arrivals)

-- The bytes of the last receive that were not handed over yet, and those that are still to arrive.
abbrev pub unread : Option (RecvMeta × ℕ) → Bytes → Bytes
unread none buffer = []
unread (some (m, start)) buffer = drop start buffer

abbrev pub waiting : List Arrival → Bytes
waiting [] = []
waiting (arrived m bytes ∷ more) = bytes ++ waiting more
waiting (a ∷ more) = waiting more

abbrev pub to_come : {q : Quinn} → Endpoint q → Bytes
to_come e = unread e.receive_pending e.buffer ++ waiting e.arrivals

-- A receive says how many bytes it put into the buffer.
abbrev pub IsWhole : Arrival → Type 0
IsWhole (arrived m bytes) = length bytes ≡ m.len
IsWhole a = Unit {0}

abbrev pub IsInside : Option (RecvMeta × ℕ) → Bytes → Type 0
IsInside none buffer = Unit {0}
IsInside (some (m, start)) buffer = (start ≤ m.len) × (length buffer ≡ m.len)

-- From `x` to `y` bytes were only handed over, and all of them in order.
pub record Moves (x y : Held) : Type 0 where
  pub all :
      concat y.0 ++ (unread y.1 y.2 ++ waiting y.3) ≡ concat x.0 ++ (unread x.1 x.2 ++ waiting x.3)
  pub inside : IsInside y.1 y.2
  pub whole : All IsWhole y.3

module _ {q : Quinn} (o : Observer q) where
  open q use {Proto, Core, Incoming, Change, Transmit, handle}

  push_out-held : (t : Transmit) (e : Endpoint q) → held o (push_out q t e) ≡ held o e
  push_out-held t e =
      if_elim (λ (f : Endpoint q). held o f ≡ held o e) (ltb (length e.out) out_limit) (λ _. refl)
        (λ _. refl)

  accepted-held :
      (r : Result (Option Transmit) (ℕ × Proto) × Core) (e : Endpoint q)
      → held o (accepted q r e) ≡ with_seen e (o.seen r.1)
  accepted-held (ok (id, p), core) e = refl
  accepted-held (err none, core) e = refl
  accepted-held (err (some t), core) e = push_out-held t (record e { core = core })

  change_conn-held :
      (id : ℕ) (change : Change) (c : Option (Conn q)) (e : Endpoint q)
      → held o (change_conn q id change c e) ≡ held o e
  change_conn-held id change none e = refl
  change_conn-held id change (some c) e = refl

  on_datagram-held :
      (now : ℕ) (r : Option (DatagramEvent Change Incoming Transmit) × Core) (e : Endpoint q)
      → held o (on_datagram q now r e) ≡ with_seen e (o.seen r.1)
  unfolding on_datagram
  on_datagram-held now (none, core) e = refl
  on_datagram-held now (some (connection_event id change), core) e =
      change_conn-held id change (get id e.connections) (record e { core = core })
  on_datagram-held now (some (new_connection incoming), core) e =
      if_elim (λ (f : Endpoint q). held o f ≡ with_seen e (o.seen core))
        (leb e.limit (length e.connections)) (λ _. ap (with_seen e) (o.on_ignore incoming core))
        (λ _.
          accepted-held (q.accept incoming now core) e
          ∙ ap (with_seen e) (o.on_accept incoming now core))
  on_datagram-held now (some (response t), core) e = push_out-held t (record e { core = core })

  -- The segment and what is then left of the buffer are what was left of it before.
  segment-unread :
      (m : RecvMeta) (start : ℕ) (e : Endpoint q)
      → start ≤ m.len
      → length e.buffer ≡ m.len
      → segment q m start e ++ unread (cut q m start e).receive_pending e.buffer
        ≡ drop start e.buffer
  segment-unread m start e h l =
      let end = segment_end q m start in
      let front = segment q m start e in
      let whole = part-rest start end e.buffer (omega arith) in
      if_elim
        (λ (left : Option (RecvMeta × ℕ)). front ++ unread left e.buffer ≡ drop start e.buffer)
        (ltb end m.len) (λ _. whole)
        (λ done.
          ap (λ x. front ++ x)
            (sym (drop_all e.buffer end (omega (arith, ltb_false→le end m.len done))))
          ∙ whole)

  cut-IsInside :
      (m : RecvMeta) (start : ℕ) (e : Endpoint q)
      → length e.buffer ≡ m.len
      → IsInside (cut q m start e).receive_pending e.buffer
  cut-IsInside m start e l =
      if_elim (λ (left : Option (RecvMeta × ℕ)). IsInside left e.buffer)
        (ltb (segment_end q m start) m.len) (λ _. (omega arith, l)) (λ _. tt)

  pub feed-Moves :
      (now : ℕ) (m : RecvMeta) (start : ℕ) (e : Endpoint q)
      → start ≤ m.len
      → length e.buffer ≡ m.len
      → All IsWhole e.arrivals
      → Moves (o.seen e.core, some (m, start), e.buffer, e.arrivals) (held o (feed q now m start e))
  unfolding feed
  feed-Moves now m start e h l w =
      let c = cut q m start e in
      let front = segment q m start e in
      let next = unread c.receive_pending e.buffer in
      let moved : Moves (o.seen e.core, some (m, start), e.buffer, e.arrivals)
          (with_seen c (o.seen e.core ++ front ∷ [])) =
        record {
          all =
              ap (λ x. x ++ (next ++ waiting e.arrivals)) (concat-append (o.seen e.core) front)
              ∙ append_assoc (concat (o.seen e.core)) front (next ++ waiting e.arrivals)
              ∙ ap (λ x. concat (o.seen e.core) ++ x)
                  (sym (append_assoc front next (waiting e.arrivals))
                    ∙ ap (λ x. x ++ waiting e.arrivals) (segment-unread m start e h l));
          inside = cut-IsInside m start e l;
          whole = w;
        } in
      rw
        (on_datagram-held now (handle now m.addr front e.core) c
          ∙ ap (with_seen c) (o.on_handle now m.addr front e.core))
        moved

pub Moves-trans : {x y z : Held} → Moves x y → Moves y z → Moves x z
Moves-trans a b = record { all = b.all ∙ a.all; inside = b.inside; whole = b.whole }
