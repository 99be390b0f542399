-- ===== src/Worker/Loop.antt =====
-- native/src/worker.rs: `run`. A job is a type with the operations of the trait `Job`; a factory makes
-- one for its token, or none. What the clocks, the channel and the other threads bring to a pass is a
-- record.
use ethersync.Base.{
  ℕ, zero, suc, ◌+◌, ◌-◌, ◌^◌, ◌%◌, Bool, true, false, ◌||◌, Option, none, some, List, [], ◌∷◌,
  ◌++◌, ltb, if◌then◌else◌, Result, ok, err, min, max, length, String, earliest,
}
use ethersync.Transport.Visits.{rotate_left}

-- The trait `Job`: a step, which says whether the job stays; its deadline; and whether it is ready.
pub record Jobs : Type 1 where
  pub J : Type 0
  pub In : Type 0
  pub step : In → J → Bool × J
  pub deadline : J → Option ℕ
  pub ready : J → Bool

-- The counters of `Signal`.
pub record Counters : Type 0 where
  pub passes : ℕ
  pub max_pass_ns : ℕ
  pub max_deadline_lateness_ns : ℕ

-- What the poll returned.
pub data Polled : Type 0 where
  events interrupted : Polled
  failed : String → Polled

-- What a pass meets: the time when it begins, what is in the channel, what the jobs read, the stop
-- flag, whether a notification came in during the pass, the time when its timeout is computed, how long
-- it took, and what the poll returned.
pub record Pass (j : Jobs) : Type 0 where
  pub began : ℕ
  pub arrived : List (ℕ → Option j.J)
  pub input : j.In
  pub stop : Bool
  pub notified : Bool
  pub now : ℕ
  pub elapsed_ns : ℕ
  pub polled : Polled

abbrev pub pass_limit : ℕ
pass_limit = 64

-- `x.min(u64::MAX as u128) as u64`
abbrev pub to_u64 : ℕ → ℕ
to_u64 x = min x (2 ^ 64 - 1)

module _ (j : Jobs) where
  open j use {J, In, step, deadline, ready}

  pub record Worker : Type 0 where
    pub jobs : List J
    pub queue : List (ℕ → Option J)
    pub token : ℕ
    pub scheduled_deadline : Option ℕ
    pub counters : Counters

  abbrev pub start_worker : Worker
  start_worker = record {
    jobs = [];
    queue = [];
    token = 1;
    scheduled_deadline = none;
    counters = record { passes = 0; max_pass_ns = 0; max_deadline_lateness_ns = 0 };
  }

  -- How late a pass is.
  abbrev pub note_lateness : Option ℕ → ℕ → Counters → Counters
  note_lateness none began c = c
  note_lateness (some at) began c = record c {
    max_deadline_lateness_ns = max c.max_deadline_lateness_ns (to_u64 (began - at));
  }

  abbrev pub add_made : Option J → List J → List J
  add_made none jobs = jobs
  add_made (some new) jobs = jobs ++ new ∷ []

  abbrev pub factory_made : (ℕ → Option J) → Worker → Worker
  factory_made factory w = record w {
    jobs = add_made (factory w.token) w.jobs;
    token = w.token + 1;
  }

  -- `for operation in 0..64`, with `factory_more`. The queue is taken from its front.
  unfoldable pub take_factories : ℕ → List (ℕ → Option J) → Worker → Bool × Worker
  take_factories zero queue w = (false, record w { queue = queue })
  take_factories (suc k) [] w = (false, record w { queue = [] })
  take_factories (suc zero) (factory ∷ queue) w =
      (true, record (factory_made factory w) { queue = queue })
  take_factories (suc (suc k)) (factory ∷ queue) w =
      take_factories (suc k) queue (factory_made factory w)

  abbrev pub kept : Bool × J → List J → List J
  kept (true, job) jobs = job ∷ jobs
  kept (false, job) jobs = jobs

  -- `jobs.retain_mut(|(job, _)| job.step(&mut cx))`
  unfoldable pub retain_steps : In → List J → List J
  retain_steps input [] = []
  retain_steps input (job ∷ jobs) = kept (step input job) (retain_steps input jobs)

  -- `if jobs.len() > 1 { jobs.rotate_left(1) }`
  unfoldable pub rotated : List J → List J
  unfolding rotate_left
  rotated jobs = if ltb 1 (length jobs) then rotate_left 1 jobs else jobs

  unfoldable pub first_deadline : List J → Option ℕ
  first_deadline [] = none
  first_deadline (job ∷ jobs) = earliest (deadline job) (first_deadline jobs)

  unfoldable pub any_ready : List J → Bool
  any_ready [] = false
  any_ready (job ∷ jobs) = ready job || any_ready jobs

  -- `deadline.map(|at| at.saturating_duration_since(Instant::now()))`
  abbrev pub until : Option ℕ → ℕ → Option ℕ
  until none now = none
  until (some at) now = some (at - now)

  -- The wait of the poll: none at all where there is work, none given where nothing is due.
  unfoldable pub timeout : Bool → Pass j → List J → Option ℕ
  unfolding first_deadline any_ready
  timeout factory_more p jobs =
      if factory_more || (p.notified || any_ready jobs)
      then some 0
      else until (first_deadline jobs) p.now

  -- The jobs take their turn.
  unfoldable pub step_jobs : Pass j → Worker → Worker
  unfolding retain_steps rotated
  step_jobs p w = record w { jobs = retain_steps p.input (rotated w.jobs) }

  -- A pass up to the check of the stop flag, with `factory_more`.
  unfoldable pub work : Pass j → Worker → Bool × Worker
  unfolding take_factories step_jobs
  work p w =
      let late = record w { counters = note_lateness w.scheduled_deadline p.began w.counters } in
      let filled = take_factories pass_limit (w.queue ++ p.arrived) late in
      (filled.0, step_jobs p filled.1)

  -- What follows it: the timeout of the poll, and the worker then.
  unfoldable pub finish_pass : Pass j → Bool → Worker → Option ℕ × Worker
  unfolding timeout first_deadline
  finish_pass p factory_more w = (
    timeout factory_more p w.jobs,
    record w {
      scheduled_deadline = first_deadline w.jobs;
      counters = record w.counters {
        passes = (w.counters.passes + 1) % 2 ^ 64;
        max_pass_ns = max w.counters.max_pass_ns (to_u64 p.elapsed_ns);
      };
    },
  )

  -- How the loop goes on after a pass: it ends, by the stop flag or by an error, or it goes on.
  pub data Next : Type 0 where
    ended : Result String (Unit {0}) → Worker → Next
    going : Worker → Next

  abbrev pub after_poll : Polled → Worker → Next
  after_poll events w = going w
  after_poll interrupted w = going w
  after_poll (failed reason) w = ended (err reason) w

  unfoldable pub one_pass : Pass j → Worker → Next
  unfolding work finish_pass
  one_pass p w =
      let done = work p w in
      if p.stop then ended (ok tt) done.1 else after_poll p.polled (finish_pass p done.0 done.1).1

  -- `run`, over the passes in order, with fuel: nothing where it is used up before the loop ends.
  unfoldable pub run : ℕ → (ℕ → Pass j) → Worker → Option (Result String (Unit {0}) × Worker)
  unfolding one_pass
  run zero passes w = none
  run (suc fuel) passes w = elim (one_pass (passes 0) w) [
    | ended result v ↦ some (result, v)
    | going v ↦ run fuel (λ n. passes (suc n)) v
  ]
