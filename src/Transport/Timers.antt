-- ===== src/Transport/Timers.antt =====
-- native/src/transport/runtime.rs: `Timers`, a table of timers with their wakers, and `Runtime`, which
-- polls the machines of the connections. A waker is a number; what is woken is returned.
use ethersync.Base.{
  All, ==_iff, ℕ, ◌≤◌, ◌<◌, ◌≡◌, refl, ◌∙◌, Bool, true, false, Option, none, some, List, [], ◌∷◌,
  ◌++◌, ◌==◌, leb, if◌then◌else◌, Result, ok, err, min, earliest, arith, Bool-cases, inl, inr,
  if_elim,
}
use ethersync.Transport.Defs.{Poll, ready, pending}
use ethersync.Transport.Shared.{parked, parked-append}
use ethersync.Transport.Visits.{due}
use ethersync.Transport.Quinn.{get, insert}
use ethersync.Transport.Tables.{parked-append_left, parked-append_right, get-insert_self}

-- `TimerState`, and whether its `Timer` is still held.
pub record Timer : Type 0 where
  pub at : Option ℕ
  pub waiters : List ℕ
  pub held : Bool

abbrev pub new_timer : Timer
new_timer = record { at = none; waiters = []; held = true }

abbrev pub same_at : Option ℕ → Option ℕ → Bool
same_at none none = true
same_at none (some b) = false
same_at (some a) none = false
same_at (some a) (some b) = a == b

-- `Timer::set`, with what it wakes.
unfoldable pub set_timer : Option ℕ → Timer → List ℕ × Timer
set_timer at t =
    if same_at t.at at then ([], t) else (t.waiters, record t { at = at; waiters = [] })

-- `Timer::poll`
unfoldable pub poll_timer : ℕ → ℕ → Timer → Poll (Unit {0}) × Timer
poll_timer waker now t =
    if due t.at now
    then (ready tt, t)
    else (pending, record t { waiters = t.waiters ++ waker ∷ [] })

-- What a pass over the timers yields: the next deadline, what it wakes, the timers that are left.
pub record Advanced : Type 0 where
  pub next : Option ℕ
  pub wakes : List ℕ
  pub timers : List (ℕ × Timer)

abbrev pub advance_one : ℕ → ℕ → Timer → Option ℕ → Advanced → Advanced
advance_one now id t none rest = record rest { timers = (id, t) ∷ rest.timers }
advance_one now id t (some at) rest =
    if leb at now
    then record rest {
      wakes = t.waiters ++ rest.wakes;
      timers = (id, record t { waiters = [] }) ∷ rest.timers;
    }
    else record rest { next = earliest (some at) rest.next; timers = (id, t) ∷ rest.timers }

-- `Timers::advance`: timers that are no longer held go.
unfoldable pub advance : ℕ → List (ℕ × Timer) → Advanced
advance now [] = record { next = none; wakes = []; timers = [] }
advance now ((id, t) ∷ ts) =
    let rest = advance now ts in if t.held then advance_one now id t t.at rest else rest

-- `Runtime`, over the type of the machines. A machine that is polled says when to poll it next, or fails.
pub record Runtime (M : Type 0) : Type 0 where
  pub is_ready : Bool
  pub deadline : Option ℕ
  pub machines : List M

module _ {M : Type 0} where
  unfoldable pub spawn : M → Runtime M → Runtime M
  spawn m r = record r { machines = r.machines ++ m ∷ []; is_ready = true }

  abbrev pub poll_result : Result (Unit {0}) (Option ℕ) × M → Option ℕ × List M → Option ℕ × List M
  poll_result (ok at, m) rest = (earliest at rest.0, m ∷ rest.1)
  poll_result (err _, m) rest = rest

  unfoldable pub poll_machines : (M → Result (Unit {0}) (Option ℕ) × M) → List M → Option ℕ × List M
  poll_machines poll [] = (none, [])
  poll_machines poll (m ∷ ms) = poll_result (poll m) (poll_machines poll ms)

  -- `Runtime::step`, with the machines that are spawned while it polls.
  unfoldable pub step_runtime :
      (M → Result (Unit {0}) (Option ℕ) × M) → List M → Runtime M → Runtime M
  unfolding poll_machines
  step_runtime poll spawned r =
      let polled = poll_machines poll r.machines in
      let again : Bool = elim spawned [ [] ↦ false | m ∷ ms ↦ true ] in
      record r { is_ready = again; deadline = polled.0; machines = polled.1 ++ spawned }

-- What the next pass over the timers does for one with a deadline and a waker.
pub record Serves (now at w : ℕ) (r : Advanced) : Type 0 where
  pub wakes : at ≤ now → parked w r.wakes ≡ true
  pub next : now < at → (n : ℕ) × (r.next ≡ some n) × (n ≤ at)

earliest-le :
    (a : Option ℕ) (b n at : ℕ)
    → b ≡ n
    → n ≤ at
    → (m : ℕ) × (earliest a (some b) ≡ some m) × (m ≤ at)
earliest-le none b n at e l = (b, refl, omega arith)
earliest-le (some a) b n at e l = (min a b, refl, omega arith)

-- A timer before it in the table takes nothing away.
advance_one-Serves :
    (now at w id : ℕ) (t : Timer) (o : Option ℕ) (rest : Advanced)
    → Serves now at w rest
    → Serves now at w (advance_one now id t o rest)
advance_one-Serves now at w id t none rest s = record { wakes = s.wakes; next = s.next }
advance_one-Serves now at w id t (some other) rest s =
    if_elim (Serves now at w) (leb other now)
      (λ _. record {
        wakes = λ l. parked-append_right w t.waiters rest.wakes (s.wakes l);
        next = s.next;
      })
      (λ _. record { wakes = s.wakes; next = λ l. further (s.next l) })
  where
    further :
        ((n : ℕ) × (rest.next ≡ some n) × (n ≤ at))
        → (n : ℕ) × (earliest (some other) rest.next ≡ some n) × (n ≤ at)
    further (n, e, l) = let (m, f, k) = earliest-le (some other) n n at refl l in (m, rw e f, k)

earliest-own : (at : ℕ) (o : Option ℕ) → (m : ℕ) × (earliest (some at) o ≡ some m) × (m ≤ at)
earliest-own at none = (at, refl, omega arith)
earliest-own at (some b) = (min at b, refl, omega arith)

advance_own :
    (now at w id : ℕ) (t : Timer) (rest : Advanced)
    → parked w t.waiters ≡ true
    → Serves now at w (advance_one now id t (some at) rest)
advance_own now at w id t rest p = elim (Bool-cases (leb at now)) [
  | inl e ↦ rw e (record {
    wakes = λ _. parked-append_left w t.waiters rest.wakes p;
    next = λ l. absurd (ground arith);
  })
  | inr e ↦
      rw e (record { wakes = λ l. absurd (ground arith); next = λ _. earliest-own at rest.next })
]

own_at :
    (now at w id : ℕ) (t : Timer) (o : Option ℕ) (rest : Advanced)
    → o ≡ some at
    → parked w t.waiters ≡ true
    → Serves now at w (advance_one now id t o rest)
own_at now at w id t none rest e p = absurd (ground arith)
own_at now at w id t (some a) rest e p =
    let same : a ≡ at = cc in rw same (advance_own now at w id t rest p)

advance-Serves :
    (now at w id : ℕ) (ts : List (ℕ × Timer)) (t : Timer)
    → get id ts ≡ some t
    → t.held ≡ true
    → t.at ≡ some at
    → parked w t.waiters ≡ true
    → Serves now at w (advance now ts)
unfolding get advance
advance-Serves now at w id [] t found held e p = absurd (ground arith)
advance-Serves now at w id ((i, u) ∷ ts) t found held e p = elim (Bool-cases (i == id)) [
  | inl here ↦
      let same : u ≡ t = let f : some u ≡ some t = rw here at found in cc in
      rw same (kept t.held held (own_at now at w i t t.at (advance now ts) e p))
  | inr later ↦
      let rest = advance-Serves now at w id ts t (rw later at found) held e p in
      if_elim (Serves now at w) u.held
        (λ _. advance_one-Serves now at w i u u.at (advance now ts) rest) (λ _. rest)
]
  where
    kept :
        (b : Bool)
        → b ≡ true
        → Serves now at w (advance_one now i t t.at (advance now ts))
        → Serves now at w (if b then advance_one now i t t.at (advance now ts) else advance now ts)
    kept true h s = s
    kept false h s = cc

poll_timer-parked :
    (w now : ℕ) (t : Timer)
    → (poll_timer w now t).0 ≡ pending
    → (parked w (poll_timer w now t).1.waiters ≡ true)
      × ((poll_timer w now t).1.at ≡ t.at)
      × ((poll_timer w now t).1.held ≡ t.held)
unfolding poll_timer
poll_timer-parked w now t h = ground (arith, parked-append w t.waiters)

-- A pass before its deadline leaves a timer as it is.
advance_one-skips :
    (now i id : ℕ) (u t : Timer) (o : Option ℕ) (rest : Advanced)
    → (i == id) ≡ false
    → get id rest.timers ≡ some t
    → get id (advance_one now i u o rest).timers ≡ some t
unfolding get
advance_one-skips now i id u t none rest e found = rw e found
advance_one-skips now i id u t (some at) rest e found =
    if_elim (λ (r : Advanced). get id r.timers ≡ some t) (leb at now) (λ _. rw e found)
      (λ _. rw e found)

advance_one-own :
    (now id at : ℕ) (t : Timer) (o : Option ℕ) (rest : Advanced)
    → o ≡ some at
    → now < at
    → get id (advance_one now id t o rest).timers ≡ some t
unfolding get
advance_one-own now id at t none rest e l = absurd (ground arith)
advance_one-own now id at t (some a) rest e l =
    let same : a ≡ at = cc in
    let later : leb a now ≡ false = ground arith in
    let here : (id == id) ≡ true = ground arith in rw (later, here) refl

advance-keeps :
    (now at id : ℕ) (ts : List (ℕ × Timer)) (t : Timer)
    → get id ts ≡ some t
    → t.held ≡ true
    → t.at ≡ some at
    → now < at
    → get id (advance now ts).timers ≡ some t
unfolding get advance
advance-keeps now at id [] t found held e l = absurd (ground arith)
advance-keeps now at id ((i, u) ∷ ts) t found held e l = elim (Bool-cases (i == id)) [
  | inl here ↦
      let same : u ≡ t = let f : some u ≡ some t = rw here at found in cc in
      let number : i ≡ id = (==_iff i id).0 here in
      rw (same, number)
        (if_elim (λ (r : Advanced). get id r.timers ≡ some t) t.held
          (λ _. advance_one-own now id at t t.at (advance now ts) e l)
          (λ gone. absurd (ground arith)))
  | inr later ↦
      let rest = advance-keeps now at id ts t (rw later at found) held e l in
      if_elim (λ (r : Advanced). get id r.timers ≡ some t) u.held
        (λ _. advance_one-skips now i id u t u.at (advance now ts) later rest) (λ _. rest)
]

-- Passes over the timers, one after the other.
abbrev pub passes : List ℕ → List (ℕ × Timer) → List (ℕ × Timer)
passes [] ts = ts
passes (now ∷ later) ts = passes later (advance now ts).timers

passes-keeps :
    (earlier : List ℕ) (at id : ℕ) (ts : List (ℕ × Timer)) (t : Timer)
    → get id ts ≡ some t
    → t.held ≡ true
    → t.at ≡ some at
    → All (λ n. n < at) earlier
    → get id (passes earlier ts) ≡ some t
passes-keeps [] at id ts t found held e l = found
passes-keeps (now ∷ later) at id ts t found held e (l, ls) =
    passes-keeps later at id (advance now ts).timers t (advance-keeps now at id ts t found held e l)
      held e ls

-- A timer with a deadline, whose owner polled it before that and had to wait: after any passes over
-- the timers at times before the deadline, the next pass wakes the owner if the deadline has come, and
-- else asks to be called again by the deadline.
pub advance-poll_timer :
    (ts : List (ℕ × Timer)) (earlier : List ℕ) (id w polled_at now at : ℕ) (t : Timer)
    → t.held ≡ true
    → t.at ≡ some at
    → (poll_timer w polled_at t).0 ≡ pending
    → All (λ n. n < at) earlier
    → Serves now at w (advance now (passes earlier (insert id (poll_timer w polled_at t).1 ts)))
advance-poll_timer ts earlier id w polled_at now at t held e h before =
    let p = poll_timer-parked w polled_at t h in
    let u = (poll_timer w polled_at t).1 in
    advance-Serves now at w id (passes earlier (insert id u ts)) u
      (passes-keeps earlier at id (insert id u ts) u (get-insert_self id u ts) (p.2 ∙ held)
        (p.1 ∙ e) before)
      (p.2 ∙ held) (p.1 ∙ e) p.0
