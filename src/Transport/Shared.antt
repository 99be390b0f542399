-- ===== src/Transport/Shared.antt =====
-- native/src/transport/quic.rs: `Shared`, what a connection's handles and its endpoint have in
-- common. A waker is a number, equal where `will_wake` holds, and `woken` lists the wakers that were
-- called; the protocol's own state (quinn_proto) is kept apart.
use ethersync.Base.{
  ℕ, ◌-◌, ◌≡◌, Bool, true, false, ◌||◌, Option, none, some, List, [], ◌∷◌, ◌++◌, ◌==◌,
  if◌then◌else◌, Result, ok, err, arith, ==_iff, if_elim,
}
use ethersync.Transport.Defs.{TransportError, Poll, ready, pending}

abbrev pub operations : ℕ
operations = 8

pub record Shared : Type 0 where
  pub error : Option TransportError
  pub waiters : List ℕ
  pub woken : List ℕ
  pub budget : ℕ
  pub needs_pass : Bool
  pub connected : Bool
  pub finished : List (ℕ × Option (Result TransportError (Unit {0})))

abbrev pub new_shared : Shared
new_shared = record {
  error = none;
  waiters = [];
  woken = [];
  budget = operations;
  needs_pass = true;
  connected = false;
  finished = [];
}

-- `iter().any(|w| w.will_wake(..))`
unfoldable pub parked : ℕ → List ℕ → Bool
parked waker [] = false
parked waker (w ∷ ws) = (w == waker) || parked waker ws

-- `Shared::park`
unfoldable pub park : ℕ → Shared → Shared
park waker s = if parked waker s.waiters then s else record s { waiters = s.waiters ++ waker ∷ [] }

-- `Shared::wake`
unfoldable pub wake : Shared → Shared
wake s = record s { waiters = []; woken = s.woken ++ s.waiters }

-- `Shared::changed` and `Shared::consumed`
abbrev pub changed : Shared → Shared
changed s = record s { needs_pass = true }

abbrev pub consumed : Shared → Shared
consumed s = record s { budget = s.budget - 1 }

-- A refusal of an operation past the budget, or leave to go on.
unfoldable pub admit : ℕ → Shared → Poll (Result TransportError (Unit {0})) × Shared
admit waker s =
    if s.budget == 0
    then (pending, park waker (record s { needs_pass = true }))
    else (ready (ok tt), s)

abbrev pub enter_unless :
    Option TransportError → ℕ → Shared → Poll (Result TransportError (Unit {0})) × Shared
enter_unless (some e) waker s = (ready (err e), s)
enter_unless none waker s = admit waker s

-- `Shared::enter`
unfoldable pub enter : ℕ → Shared → Poll (Result TransportError (Unit {0})) × Shared
unfolding admit
enter waker s = enter_unless s.error waker s

-- What follows `ready!(self.shared.enter(cx))?`, where the state around the shared one is put back.
abbrev pub entered :
    {A S : Type 0}
    → Poll (Result TransportError (Unit {0})) × Shared
    → (Shared → S)
    → (Shared → Poll (Result TransportError A) × S)
    → Poll (Result TransportError A) × S
entered (pending, s) put next = (pending, put s)
entered (ready (err e), s) put next = (ready (err e), put s)
entered (ready (ok _), s) put next = next s

pub parked-append : (w : ℕ) (ws : List ℕ) → parked w (ws ++ w ∷ []) ≡ true
unfolding parked
parked-append w [] = ground (arith, ==_iff w w)
parked-append w (v ∷ ws) = ground (arith, parked-append w ws)

-- Parking leaves the waker among the waiters.
pub parked-park : (w : ℕ) (s : Shared) → parked w (park w s).waiters ≡ true
unfolding park
parked-park w s = ground (arith, parked-append w s.waiters)

-- What a poll that returns "pending" leaves: its waker is among the waiters.
abbrev pub Parks : {A : Type 0} → ℕ → Poll A → Shared → Type 0
Parks w (ready _) s = Unit
Parks w pending s = parked w s.waiters ≡ true

admit-Parks : (w : ℕ) (s : Shared) → Parks w (admit w s).0 (admit w s).1
unfolding admit
admit-Parks w s =
    if_elim (λ (r : Poll (Result TransportError (Unit {0})) × Shared). Parks w r.0 r.1)
      (s.budget == 0) (λ _. parked-park w (record s { needs_pass = true })) (λ _. tt)

enter_unless-Parks :
    (e : Option TransportError) (w : ℕ) (s : Shared)
    → Parks w (enter_unless e w s).0 (enter_unless e w s).1
enter_unless-Parks (some e) w s = tt
enter_unless-Parks none w s = admit-Parks w s

pub enter-Parks : (w : ℕ) (s : Shared) → Parks w (enter w s).0 (enter w s).1
unfolding enter
enter-Parks w s = enter_unless-Parks s.error w s

pub entered-Parks :
    {A S : Type 0} (get : S → Shared) (w : ℕ) (r : Poll (Result TransportError (Unit {0})) × Shared)
    (put : Shared → S) (next : Shared → Poll (Result TransportError A) × S)
    → ((s : Shared) → get (put s) ≡ s)
    → Parks w r.0 r.1
    → ((s : Shared) → Parks w (next s).0 (get (next s).1))
    → Parks w (entered r put next).0 (get (entered r put next).1)
entered-Parks get w (pending, s) put next e p h = rw (e s) p
entered-Parks get w (ready (err _), s) put next e p h = tt
entered-Parks get w (ready (ok _), s) put next e p h = h s
