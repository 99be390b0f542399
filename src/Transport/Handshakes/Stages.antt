-- ===== src/Transport/Handshakes/Stages.antt =====
-- native/src/network.rs: each stage of a step of a `Peer` keeps its side and its deadline, and leaves it
-- at one of its stages.
use ethersync.Base.{
  ℕ, ◌≡◌, refl, Bool, true, not, ◌&&◌, Option, none, some, ◌==◌, leb, Result, ok, err, ◌>>=◌, arith,
  if_elim,
}
use ethersync.Native.{NativeError}
use ethersync.Transport.Defs.{Poll, ready, pending}
use ethersync.Transport.Peers.{
  Peer, PeerReads, poll_drivers, check_deadline, secured_by, secure, agreed_by, agree_on, agree,
  closed_by, check_closed, subscribed_by, subscribe, securing, agreeing, subscribing, using, IsAt,
  IsPeer,
}

-- What holds of the result where there is one.
abbrev pub Gives {ℓ} : {A : Type ℓ} → (A → Type 0) → Result NativeError A → Type 0
Gives P (ok a) = P a
Gives P (err e) = Unit {0}

pub Gives-bind {ℓ κ} :
    {A : Type ℓ} {B : Type κ} (P : A → Type 0) (Q : B → Type 0) (m : Result NativeError A)
    (f : A → Result NativeError B)
    → Gives P m
    → ((a : A) → P a → Gives Q (f a))
    → Gives Q (m >>= f)
Gives-bind P Q (ok a) f h k = k a h
Gives-bind P Q (err e) f h k = tt

pub Gives-any {ℓ} : {A : Type ℓ} (m : Result NativeError A) → Gives (λ _. Unit {0}) m
Gives-any (ok a) = tt
Gives-any (err e) = tt

-- A peer keeps its stages, its side and its deadline.
pub record Keeps (p p' : Peer) : Type 0 where
  pub stage : IsPeer p'
  pub leader : p'.leader ≡ p.leader
  pub deadline : p'.deadline ≡ p.deadline

record_driver : (p : Peer) (d : Option ℕ) → IsPeer p → IsPeer (record p { driver_deadline = d })
record_driver p d (securing, s) = (securing, s)
record_driver p d (agreeing, s) = (agreeing, s)
record_driver p d (subscribing, s) = (subscribing, s)
record_driver p d (using, s) = (using, s)

pub poll_drivers-Keeps : (r : PeerReads) (p : Peer) → IsPeer p → Gives (Keeps p) (poll_drivers r p)
unfolding poll_drivers
poll_drivers-Keeps r p s =
    Gives-bind (λ _. Unit {0}) (Keeps p) r.first_driver _ (Gives-any r.first_driver)
      λ first _.
        Gives-bind (λ _. Unit {0}) (Keeps p) r.second_driver _ (Gives-any r.second_driver)
          λ second _. record { stage = record_driver p _ s; leader = refl; deadline = refl }

same_peer : (p : Peer) → IsPeer p → Keeps p p
same_peer p s = record { stage = s; leader = refl; deadline = refl }

pub check_deadline-Keeps :
    (r : PeerReads) (p : Peer) → IsPeer p → Gives (Keeps p) (check_deadline r p)
unfolding check_deadline
check_deadline-Keeps r p s =
    if_elim (Gives (Keeps p)) ((p.incoming == 0) && leb p.deadline r.now) (λ _. tt)
      (λ _. same_peer p s)

secured_by-Keeps : (h : Option Bool) (p : Peer) → IsAt securing p → Keeps p (secured_by h p)
secured_by-Keeps none p s = same_peer p (securing, s)
secured_by-Keeps (some h3) p (t, n, se, su, i) = record {
  stage = (agreeing, (refl, (h3, refl), se, su, i));
  leader = refl;
  deadline = refl;
}

-- Only at its first stage is a peer in its TLS handshake.
securing-IsAt : (p : Peer) → IsPeer p → p.tls ≡ true → IsAt securing p
securing-IsAt p (securing, s) h = s
securing-IsAt p (agreeing, s) h = cc (h, s.0)
securing-IsAt p (subscribing, s) h = cc (h, s.0)
securing-IsAt p (using, s) h = cc (h, s.0)

pub secure-Keeps : (r : PeerReads) (p : Peer) → IsPeer p → Gives (Keeps p) (secure r p)
unfolding secure
secure-Keeps r p s =
    if_elim (Gives (Keeps p)) p.tls
      (λ h.
        Gives-bind (λ _. Unit {0}) (Keeps p) r.secured _ (Gives-any r.secured)
          λ h3 _. secured_by-Keeps h3 p (securing-IsAt p s h))
      (λ _. same_peer p s)

agreeing-IsAt : (p : Peer) (h3 : Bool) → IsPeer p → p.handshake ≡ some h3 → IsAt agreeing p
agreeing-IsAt p h3 (securing, s) h = absurd (ground arith)
agreeing-IsAt p h3 (agreeing, s) h = s
agreeing-IsAt p h3 (subscribing, s) h = absurd (ground arith)
agreeing-IsAt p h3 (using, s) h = absurd (ground arith)

agreed_by-Keeps :
    (a : Poll (Result NativeError (Unit {0}))) (p : Peer)
    → IsAt agreeing p
    → Gives (Keeps p) (agreed_by a p)
agreed_by-Keeps pending p s = same_peer p (agreeing, s)
agreed_by-Keeps (ready (err e)) p s = tt
agreed_by-Keeps (ready (ok _)) p (t, n, se, su, i) = record {
  stage = (subscribing, (t, refl, refl, refl, i));
  leader = refl;
  deadline = refl;
}

agree_on-Keeps :
    (o : Option Bool) (r : PeerReads) (p : Peer)
    → p.handshake ≡ o
    → IsPeer p
    → Gives (Keeps p) (agree_on o r p)
agree_on-Keeps none r p h s = same_peer p s
agree_on-Keeps (some h3) r p h s =
    if_elim (Gives (Keeps p)) (h3 && not p.leader) (λ _. tt)
      (λ _. agreed_by-Keeps r.agreed p (agreeing-IsAt p h3 s h))

pub agree-Keeps : (r : PeerReads) (p : Peer) → IsPeer p → Gives (Keeps p) (agree r p)
unfolding agree
agree-Keeps r p s = agree_on-Keeps p.handshake r p refl s

pub check_closed-Keeps : (r : PeerReads) (p : Peer) → IsPeer p → Gives (Keeps p) (check_closed r p)
unfolding check_closed
check_closed-Keeps r p s =
    if_elim (Gives (Keeps p)) p.session (λ _. unless r.closed) (λ _. same_peer p s)
  where
    unless : (o : Option NativeError) → Gives (Keeps p) (closed_by o p)
    unless none = same_peer p s
    unless (some e) = tt

subscribing-IsAt : (p : Peer) → IsPeer p → p.subscriptions ≡ true → IsAt subscribing p
subscribing-IsAt p (securing, s) h = cc (h, s.3)
subscribing-IsAt p (agreeing, s) h = cc (h, s.3)
subscribing-IsAt p (subscribing, s) h = s
subscribing-IsAt p (using, s) h = cc (h, s.3)

subscribed_by-Keeps :
    (a : Poll (Result NativeError (Unit {0}))) (p : Peer)
    → IsAt subscribing p
    → Gives (Keeps p) (subscribed_by a p)
subscribed_by-Keeps pending p s = same_peer p (subscribing, s)
subscribed_by-Keeps (ready (err e)) p s = tt
subscribed_by-Keeps (ready (ok _)) p (t, n, se, su, i) = record {
  stage = (using, (t, n, se, refl, refl));
  leader = refl;
  deadline = refl;
}

pub subscribe-Keeps : (r : PeerReads) (p : Peer) → IsPeer p → Gives (Keeps p) (subscribe r p)
unfolding subscribe
subscribe-Keeps r p s =
    if_elim (Gives (Keeps p)) p.subscriptions
      (λ h. subscribed_by-Keeps r.subscribed p (subscribing-IsAt p s h)) (λ _. same_peer p s)
