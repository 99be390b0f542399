-- ===== src/Worker/Laws.antt =====
-- native/src/worker.rs: how long `run` waits after a pass, and when it ends.
use ethersync.Base.{
  ℕ, zero, suc, ◌+◌, ◌≤◌, ◌<◌, ◌≡◌, refl, Bool, true, false, ◌||◌, Option, none, some, List, [],
  ◌∷◌, ◌++◌, ok, err, max, String, earliest, All, Bool-cases, ◌⊎◌, inl, inr, arith, if_elim,
}
use ethersync.Worker.Loop.{
  Jobs, Pass, Worker, pass_limit, note_lateness, factory_made, take_factories, first_deadline,
  any_ready, until, timeout, step_jobs, work, finish_pass, one_pass, run, Polled, events,
  interrupted, failed, after_poll, ended, going,
}

module _ (j : Jobs) where
  open j use {J, deadline, ready}

  -- A wait that ends, by the time that a job wants to be stepped.
  abbrev pub EndsBy : ℕ → Option ℕ → ℕ → Type 0
  EndsBy now none at = ⊥
  EndsBy now (some wait) at = now + wait ≤ max now at

  -- The wait after a pass that leaves some jobs and a queue.
  pub record Wakes (p : Pass j) (jobs : List J) (queue : List (ℕ → Option J)) (wait : Option ℕ)
      : Type 0 where
    pub for_ready : All (λ x. ready x ≡ true → wait ≡ some 0) jobs
    pub for_deadline : All (λ x. (at : ℕ) → deadline x ≡ some at → EndsBy p.now wait at) jobs
    pub for_notice : p.notified ≡ true → wait ≡ some 0
    pub for_queue : (queue ≡ []) ⊎ (wait ≡ some 0)

  All-any_ready : (jobs : List J) → any_ready j jobs ≡ false → All (λ x. ready x ≡ false) jobs
  unfolding any_ready
  All-any_ready [] h = tt
  All-any_ready (x ∷ jobs) h = elim (Bool-cases (ready x)) [
    | inl e ↦ let f : true ≡ false = rw e at h in absurd (ground arith)
    | inr e ↦ (e, All-any_ready jobs (rw e at h))
  ]

  EndsBy-earliest_left :
      (now at : ℕ) (a b : Option ℕ) → a ≡ some at → EndsBy now (until j (earliest a b) now) at
  EndsBy-earliest_left now at none b h = absurd (ground arith)
  EndsBy-earliest_left now at (some a) none h = let e : a ≡ at = cc in omega arith
  EndsBy-earliest_left now at (some a) (some b) h = let e : a ≡ at = cc in omega arith

  EndsBy-earliest_right :
      (now at : ℕ) (a b : Option ℕ)
      → EndsBy now (until j b now) at
      → EndsBy now (until j (earliest a b) now) at
  EndsBy-earliest_right now at a none h = absurd h
  EndsBy-earliest_right now at none (some b) h = h
  EndsBy-earliest_right now at (some a) (some b) h = omega arith

  -- A list of jobs of which each is in time, in time for the earliest of all.
  abbrev InTime : ℕ → Option ℕ → List J → Type 0
  InTime now wait jobs = All (λ x. (at : ℕ) → deadline x ≡ some at → EndsBy now wait at) jobs

  InTime-earliest :
      (now : ℕ) (a b : Option ℕ) (jobs : List J)
      → InTime now (until j b now) jobs
      → InTime now (until j (earliest a b) now) jobs
  InTime-earliest now a b [] h = tt
  InTime-earliest now a b (x ∷ jobs) (h, t) =
      ((λ at e. EndsBy-earliest_right now at a b (h at e)), InTime-earliest now a b jobs t)

  first_deadline-InTime :
      (now : ℕ) (jobs : List J) → InTime now (until j (first_deadline j jobs) now) jobs
  unfolding first_deadline
  first_deadline-InTime now [] = tt
  first_deadline-InTime now (x ∷ jobs) = (
    (λ at e. EndsBy-earliest_left now at (deadline x) (first_deadline j jobs) e),
    InTime-earliest now (deadline x) (first_deadline j jobs) jobs (first_deadline-InTime now jobs),
  )

  at_once : (now : ℕ) (jobs : List J) → InTime now (some 0) jobs
  at_once now [] = tt
  at_once now (x ∷ jobs) = ((λ at e. omega arith), at_once now jobs)

  all_zero : (jobs : List J) → All (λ x. ready x ≡ true → ◌≡◌ {A = Option ℕ} (some 0) (some 0)) jobs
  all_zero [] = tt
  all_zero (x ∷ jobs) = ((λ _. refl), all_zero jobs)

  none_ready :
      (wait : Option ℕ) (jobs : List J)
      → All (λ x. ready x ≡ false) jobs
      → All (λ x. ready x ≡ true → wait ≡ some 0) jobs
  none_ready wait [] h = tt
  none_ready wait (x ∷ jobs) (h, t) = ((λ e. absurd (ground arith)), none_ready wait jobs t)

  neither : (a b : Bool) → (a || b) ≡ false → (a ≡ false) × (b ≡ false)
  neither true b h = cc
  neither false b h = (refl, h)

  -- The wait is right for any jobs, where more factories wait only if that is said.
  timeout-Wakes :
      (p : Pass j) (more : Bool) (jobs : List J) (queue : List (ℕ → Option J))
      → (queue ≡ []) ⊎ (more ≡ true)
      → Wakes p jobs queue (timeout j more p jobs)
  unfolding timeout
  timeout-Wakes p more jobs queue q =
      if_elim (Wakes p jobs queue) (more || (p.notified || any_ready j jobs))
        (λ _. record {
          for_ready = all_zero jobs;
          for_deadline = at_once p.now jobs;
          for_notice = λ _. refl;
          for_queue = inr refl;
        })
        (λ h.
          let (quiet, rest) = neither more (p.notified || any_ready j jobs) h in
          let (unnoticed, idle) = neither p.notified (any_ready j jobs) rest in
          record {
            for_ready =
                none_ready (until j (first_deadline j jobs) p.now) jobs (All-any_ready jobs idle);
            for_deadline = first_deadline-InTime p.now jobs;
            for_notice = λ e. absurd (ground arith);
            for_queue = elim q [ inl e ↦ inl e | inr e ↦ absurd (ground arith) ];
          })

  take_factories-queue :
      (k : ℕ) (queue : List (ℕ → Option J)) (w : Worker j)
      → let r = take_factories j (suc k) queue w in (r.1.queue ≡ []) ⊎ (r.0 ≡ true)
  unfolding take_factories
  take_factories-queue k [] w = inl refl
  take_factories-queue zero (f ∷ queue) w = inr refl
  take_factories-queue (suc k) (f ∷ queue) w = take_factories-queue k queue (factory_made j f w)

  -- After a pass the loop does not wait at all where a job is ready, a notification came in or a
  -- factory is left in the channel, and else no longer than until the first deadline of a job that is
  -- left: every deadline is met by the time that the wait ends, or has passed before it began.
  pub pass-Wakes :
      (p : Pass j) (w : Worker j)
      → let done = work j p w in Wakes p done.1.jobs done.1.queue (finish_pass j p done.0 done.1).0
  unfolding work finish_pass step_jobs
  pass-Wakes p w =
      let late : Worker j = record w {
        counters = note_lateness j w.scheduled_deadline p.began w.counters;
      } in
      let filled = take_factories j pass_limit (w.queue ++ p.arrived) late in
      timeout-Wakes p filled.0 (step_jobs j p filled.1).jobs filled.1.queue
        (take_factories-queue 63 (w.queue ++ p.arrived) late)

  -- A poll that brought events, or was interrupted.
  abbrev pub IsCalm : Polled → Type 0
  IsCalm events = Unit
  IsCalm interrupted = Unit
  IsCalm (failed reason) = ⊥

  -- The passes before the `n`-th go on.
  abbrev pub GoesOn : (ℕ → Pass j) → ℕ → Type 0
  GoesOn passes n = (m : ℕ) → m < n → ((passes m).stop ≡ false) × IsCalm (passes m).polled

  -- The worker at the end of a pass.
  abbrev after_pass : Pass j → Worker j → Worker j
  after_pass p w = let done = work j p w in (finish_pass j p done.0 done.1).1

  after_poll-going : (o : Polled) (w : Worker j) → IsCalm o → after_poll j o w ≡ going w
  after_poll-going events w h = refl
  after_poll-going interrupted w h = refl
  after_poll-going (failed reason) w h = absurd h

  one_pass-going :
      (p : Pass j) (w : Worker j)
      → p.stop ≡ false
      → IsCalm p.polled
      → one_pass j p w ≡ going (after_pass p w)
  unfolding one_pass
  one_pass-going p w s h = rw s (after_poll-going p.polled (after_pass p w) h)

  one_pass-stopped :
      (p : Pass j) (w : Worker j) → p.stop ≡ true → one_pass j p w ≡ ended (ok tt) (work j p w).1
  unfolding one_pass
  one_pass-stopped p w s = rw s refl

  one_pass-failed :
      (p : Pass j) (w : Worker j) (reason : String)
      → p.stop ≡ false
      → p.polled ≡ failed reason
      → one_pass j p w ≡ ended (err reason) (after_pass p w)
  unfolding one_pass
  one_pass-failed p w reason s e = rw (s, e) refl

  -- How the loop ends with the `n`-th pass, and not before it.
  pub record Ends (passes : ℕ → Pass j) (n : ℕ) (w : Worker j) : Type 0 where
    pub not_before : run j n passes w ≡ none
    pub by_stop :
        (passes n).stop ≡ true → (v : Worker j) × (run j (suc n) passes w ≡ some (ok tt, v))
    pub by_error :
        (reason : String)
        → (passes n).stop ≡ false
        → (passes n).polled ≡ failed reason
        → (v : Worker j) × (run j (suc n) passes w ≡ some (err reason, v))
    pub goes_on : (passes n).stop ≡ false → IsCalm (passes n).polled → run j (suc n) passes w ≡ none

  -- The loop goes on for as long as the stop flag is not seen and each poll brings events or is
  -- interrupted, and ends with the first pass where that is not so: well by the flag, which comes first,
  -- else with the error of the poll that failed otherwise.
  pub run-Ends : (n : ℕ) (passes : ℕ → Pass j) (w : Worker j) → GoesOn passes n → Ends passes n w
  unfolding run
  run-Ends zero passes w h = record {
    not_before = refl;
    by_stop = λ s. ((work j (passes 0) w).1, rw (one_pass-stopped (passes 0) w s, run) refl);
    by_error = λ reason s e.
        (after_pass (passes 0) w, rw (one_pass-failed (passes 0) w reason s e, run) refl);
    goes_on = λ s c. rw (one_pass-going (passes 0) w s c, run) refl;
  }
  run-Ends (suc n) passes w h =
      let (s, c) = h 0 (omega arith) in
      let on = one_pass-going (passes 0) w s c in
      let rest =
        run-Ends n (λ m. passes (suc m)) (after_pass (passes 0) w)
          (λ m l. h (suc m) (omega arith)) in
      record {
        not_before = rw (on, run) rest.not_before;
        by_stop = λ s'. let (u, r) = rest.by_stop s' in (u, rw (on, run) r);
        by_error = λ reason s' e'. let (u, r) = rest.by_error reason s' e' in (u, rw (on, run) r);
        goes_on = λ s' c'. rw (on, run) (rest.goes_on s' c');
      }
