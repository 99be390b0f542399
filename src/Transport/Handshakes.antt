-- ===== src/Transport/Handshakes.antt =====
-- native/src/network.rs: the stages of a `Peer`, which is never used before it may be.
use ethersync.Base.{
  ℕ, zero, suc, ◌≤◌, ◌≡◌, refl, ◌∙◌, Bool, true, false, not, ◌&&◌, Option, none, some, ◌==◌, leb,
  Result, ok, err, ◌>>=◌, arith, if_elim,
}
use ethersync.Native.{NativeError}
use ethersync.Transport.Defs.{Poll, ready, pending}
use ethersync.Transport.Peers.{
  Peer, PeerReads, new_peer, transport_error, poll_drivers, check_deadline, secured_by, secure,
  agreed_by, agree_on, agree, closed_by, check_closed, subscribed_by, subscribe, step_peer,
  securing, agreeing, subscribing, using, IsAt, IsPeer,
}
use ethersync.Transport.Handshakes.Stages.{
  Gives, Gives-bind, Gives-any, Keeps, poll_drivers-Keeps, check_deadline-Keeps, secure-Keeps,
  agree-Keeps, check_closed-Keeps, subscribe-Keeps,
}
pub mod Stages

Keeps-trans : {p t u : Peer} → Keeps p t → Keeps t u → Keeps p u
Keeps-trans a b = record {
  stage = b.stage;
  leader = b.leader ∙ a.leader;
  deadline = b.deadline ∙ a.deadline;
}

-- What follows a stage of a step that keeps the peer.
then-Keeps :
    {p t : Peer} (m : Result NativeError Peer) → Keeps p t → Gives (Keeps t) m → Gives (Keeps p) m
then-Keeps (ok u) k g = Keeps-trans k g
then-Keeps (err e) k g = tt

-- What a step leaves: a peer at one of its stages, and where it says that the peer may be used, its
-- handshakes are over, its session stands and all its subscriptions do.
pub record Stepped (p : Peer) (r : Bool × Peer) : Type 0 where
  pub keeps : Keeps p r.1
  pub usable : r.0 ≡ true → IsAt using r.1

usable-IsAt : (p : Peer) → IsPeer p → not (p.incoming == 0) ≡ true → IsAt using p
usable-IsAt p (securing, s) h = let e = s.4 in absurd (ground arith)
usable-IsAt p (agreeing, s) h = let e = s.4 in absurd (ground arith)
usable-IsAt p (subscribing, s) h = let e = s.4 in absurd (ground arith)
usable-IsAt p (using, s) h = s

-- A step of a peer at one of its stages either ends it with an error, or leaves a peer of the same side and
-- deadline at one of its stages; and it says that the peer may be used only where the session stands
-- and the leader's one subscription, or the follower's two.
pub step_peer-Stepped : (r : PeerReads) (p : Peer) → IsPeer p → Gives (Stepped p) (step_peer r p)
unfolding step_peer
step_peer-Stepped r p s =
    Gives-bind (Keeps p) (Stepped p) (poll_drivers r p) _ (poll_drivers-Keeps r p s) λ a ka.
      Gives-bind (Keeps p) (Stepped p) (check_deadline r a) _
        (then-Keeps (check_deadline r a) ka (check_deadline-Keeps r a ka.stage))
        λ b kb.
          Gives-bind (Keeps p) (Stepped p) (secure r b) _
            (then-Keeps (secure r b) kb (secure-Keeps r b kb.stage))
            λ c kc.
              Gives-bind (Keeps p) (Stepped p) (agree r c) _
                (then-Keeps (agree r c) kc (agree-Keeps r c kc.stage))
                λ d kd.
                  Gives-bind (Keeps p) (Stepped p) (check_closed r d) _
                    (then-Keeps (check_closed r d) kd (check_closed-Keeps r d kd.stage))
                    λ e ke.
                      Gives-bind (Keeps p) (Stepped p) (subscribe r e) _
                        (then-Keeps (subscribe r e) ke (subscribe-Keeps r e ke.stage))
                        λ f kf. record { keeps = kf; usable = usable-IsAt f kf.stage }

-- Steps of one peer, until one of them ends it.
pub steps_peer : Bool → ℕ → (ℕ → PeerReads) → ℕ → Result NativeError (Bool × Peer)
steps_peer leader deadline reads zero = ok (false, new_peer leader deadline)
steps_peer leader deadline reads (suc n) =
    steps_peer leader deadline reads n >>= λ before. step_peer (reads n) before.1

Stepped-trans :
    {p t : Peer} (m : Result NativeError (Bool × Peer))
    → Keeps p t
    → Gives (Stepped t) m
    → Gives (Stepped p) m
Stepped-trans (ok (b, u)) k g = record { keeps = Keeps-trans k g.keeps; usable = g.usable }
Stepped-trans (err e) k g = tt

steps_from :
    (leader : Bool) (deadline : ℕ) (reads : ℕ → PeerReads) (n : ℕ)
    → Gives (Stepped (new_peer leader deadline)) (steps_peer leader deadline reads n)
unfolding steps_peer new_peer
steps_from leader deadline reads zero = record {
  keeps = record {
    stage = (securing, (refl, refl, refl, refl, refl));
    leader = refl;
    deadline = refl;
  };
  usable = λ h. absurd (ground arith);
}
steps_from leader deadline reads (suc n) =
    let new = new_peer leader deadline in
    Gives-bind (Stepped new) (Stepped new) (steps_peer leader deadline reads n) _
      (steps_from leader deadline reads n)
      λ before k.
        Stepped-trans (step_peer (reads n) before.1) k.keeps
          (step_peer-Stepped (reads n) before.1 k.keeps.stage)

-- A session that stands after a step was not closed when the step looked.
abbrev pub StaysOpen : PeerReads → Peer → Type 0
StaysOpen r p = p.session ≡ true → r.closed ≡ none

check_closed-StaysOpen : (r : PeerReads) (p : Peer) → Gives (StaysOpen r) (check_closed r p)
unfolding check_closed
check_closed-StaysOpen r p =
    if_elim (Gives (StaysOpen r)) p.session (λ _. unless r.closed refl)
      (λ h s. absurd (ground arith))
  where
    unless : (o : Option NativeError) → r.closed ≡ o → Gives (StaysOpen r) (closed_by o p)
    unless none h = λ _. h
    unless (some e) h = tt

subscribed_by-StaysOpen :
    (r : PeerReads) (a : Poll (Result NativeError (Unit {0}))) (p : Peer)
    → StaysOpen r p
    → Gives (StaysOpen r) (subscribed_by a p)
subscribed_by-StaysOpen r pending p h = h
subscribed_by-StaysOpen r (ready (err e)) p h = tt
subscribed_by-StaysOpen r (ready (ok _)) p h = h

subscribe-StaysOpen :
    (r : PeerReads) (p : Peer) → StaysOpen r p → Gives (StaysOpen r) (subscribe r p)
unfolding subscribe
subscribe-StaysOpen r p h =
    if_elim (Gives (StaysOpen r)) p.subscriptions (λ _. subscribed_by-StaysOpen r r.subscribed p h)
      (λ _. h)

any_then :
    {A B : Type 0} (Q : B → Type 0) (m : Result NativeError A) (f : A → Result NativeError B)
    → ((a : A) → Gives Q (f a))
    → Gives Q (m >>= f)
any_then Q m f h = Gives-bind (λ _. Unit {0}) Q m f (Gives-any m) (λ a _. h a)

step_peer-StaysOpen :
    (r : PeerReads) (p : Peer) → Gives (λ (x : Bool × Peer). StaysOpen r x.1) (step_peer r p)
unfolding step_peer
step_peer-StaysOpen r p =
    let Q = λ (x : Bool × Peer). StaysOpen r x.1 in
    any_then Q (poll_drivers r p) _ λ a. any_then Q (check_deadline r a) _ λ b.
      any_then Q (secure r b) _ λ c. any_then Q (agree r c) _ λ d.
        Gives-bind (StaysOpen r) Q (check_closed r d) _ (check_closed-StaysOpen r d)
          λ e k. Gives-bind (StaysOpen r) Q (subscribe r e) _ (subscribe-StaysOpen r e k) λ f g. g

Gives-ok :
    {A : Type 0} (P : A → Type 0) (m : Result NativeError A) (a : A) → m ≡ ok a → Gives P m → P a
Gives-ok P (ok b) a e g = let same : b ≡ a = cc in rw (← same) g
Gives-ok P (err reason) a e g = absurd (ground arith)

-- The drivers change neither the subscriptions nor the deadline.
poll_drivers_same :
    (r : PeerReads) (p : Peer)
    → Gives (λ t. (t.incoming ≡ p.incoming) × (t.deadline ≡ p.deadline)) (poll_drivers r p)
unfolding poll_drivers
poll_drivers_same r p =
    let P = λ (t : Peer). (t.incoming ≡ p.incoming) × (t.deadline ≡ p.deadline) in
    Gives-bind (λ _. Unit {0}) P r.first_driver _ (Gives-any r.first_driver)
      λ first _.
        Gives-bind (λ _. Unit {0}) P r.second_driver _ (Gives-any r.second_driver)
          λ second _. (refl, refl)

late_bind :
    {A B : Type 0} (P : A → Type 0) (m : Result NativeError A) (f : A → Result NativeError B)
    → Gives P m
    → ((a : A) → P a → (e : NativeError) × (f a ≡ err e))
    → (e : NativeError) × ((m >>= f) ≡ err e)
late_bind P (ok a) f h k = k a h
late_bind P (err e) f h k = (e, refl)

check_deadline_late :
    (r : PeerReads) (p : Peer)
    → p.incoming ≡ 0
    → p.deadline ≤ r.now
    → check_deadline r p ≡ err (transport_error "connection/subscription timeout")
unfolding check_deadline
check_deadline_late r p e l = ground arith

step_peer_late :
    (r : PeerReads) (p : Peer)
    → p.incoming ≡ 0
    → p.deadline ≤ r.now
    → (e : NativeError) × (step_peer r p ≡ err e)
unfolding step_peer
step_peer_late r p e l =
    late_bind (λ t. (t.incoming ≡ p.incoming) × (t.deadline ≡ p.deadline)) (poll_drivers r p) _
      (poll_drivers_same r p)
      λ a h.
        let i : a.incoming ≡ 0 = h.0 ∙ e in
        let d : a.deadline ≤ r.now = omega (arith, h.1) in
        (transport_error "connection/subscription timeout", rw (check_deadline_late r a i d) refl)

-- What any steps of a new peer lead to.
pub record Runs (leader : Bool) (deadline : ℕ) (reads : ℕ → PeerReads) (n : ℕ) : Type 0 where
  pub stepped : Gives (Stepped (new_peer leader deadline)) (steps_peer leader deadline reads n)
  pub late :
      (usable : Bool) (p : Peer)
      → steps_peer leader deadline reads n ≡ ok (usable, p)
      → p.incoming ≡ 0
      → deadline ≤ (reads n).now
      → (e : NativeError) × (steps_peer leader deadline reads (suc n) ≡ err e)
  pub open' :
      (usable : Bool) (p : Peer)
      → steps_peer leader deadline reads (suc n) ≡ ok (usable, p)
      → StaysOpen (reads n) p

deadline_of :
    (p t : Peer) (b : Bool) (m : Result NativeError (Bool × Peer))
    → m ≡ ok (b, t)
    → Gives (Stepped p) m
    → t.deadline ≡ p.deadline
deadline_of p t b (ok (c, u)) e g = let same : u ≡ t = cc in rw (← same) g.keeps.deadline
deadline_of p t b (err reason) e g = absurd (ground arith)

-- Over any steps of a new peer, whatever the transport brings: it stays of its side and deadline, it is
-- said to be usable only where its session stands and all its subscriptions do, the leader's one or the
-- follower's two; a session stands after a step only if nothing had closed it; and a peer without
-- subscriptions at its deadline or later is ended by the next step.
pub steps_peer-Runs :
    (leader : Bool) (deadline : ℕ) (reads : ℕ → PeerReads) (n : ℕ) → Runs leader deadline reads n
unfolding steps_peer
steps_peer-Runs leader deadline reads n =
    let stepped = steps_from leader deadline reads n in
    record {
      stepped = stepped;
      late = λ usable p e i l.
          let d =
            deadline_of (new_peer leader deadline) p usable (steps_peer leader deadline reads n) e
              stepped in
          let d' : p.deadline ≡ deadline = d ∙ new_deadline in
          let (reason, h) = step_peer_late (reads n) p i (omega (arith, d')) in (reason, rw e h);
      open' = λ usable p e.
          Gives-ok (λ (x : Bool × Peer). StaysOpen (reads n) x.1)
            (steps_peer leader deadline reads (suc n)) (usable, p) e
            (any_then (λ (x : Bool × Peer). StaysOpen (reads n) x.1)
              (steps_peer leader deadline reads n) (λ before. step_peer (reads n) before.1)
              (λ before. step_peer-StaysOpen (reads n) before.1));
    }
  where
    new_deadline : (new_peer leader deadline).deadline ≡ deadline
    new_deadline = unfold new_peer in refl
