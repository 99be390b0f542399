-- ===== src/Tests/Engines.antt =====
-- The worker's loop, an engine's stop flags and discovery at concrete inputs.
use ethersync.Base.{
  ◌↔◌, ℕ, zero, suc, ◌+◌, ◌≡◌, refl, Bool, true, false, none, some, List, [], ◌∷◌, arith, leb,
  replicate,
}
use ethersync.Worker.Loop.{Jobs, Pass, interrupted, start_worker, work, finish_pass}
use ethersync.Worker.Laws.{Wakes, Ends, pass-Wakes, run-Ends}
use ethersync.Native.Stops.{
  Engine, new_engine, open_control, shutdown, fresh, next, opens, shuts, register_stop, retain_live,
  set_flags,
}
use ethersync.Native.Stopped.{Reach-told}
use ethersync.Native.Discovery.{
  SocketAddr, Interface, v4, v6, local_endpoints, ServiceEvent, removed, resolved, poll,
}
use ethersync.Native.Endpoints.{Increasing, listed, local_endpoints_lem}
use ethersync.Native.Endpoints.Eligible.{IsOffered}
use ethersync.Native.Leaders.{last_said, otherwise, poll-last_said}
use ethersync.Transport.Quinn.{get}

-- A job is the number of steps that it has left.
abbrev fewer : ℕ → Bool × ℕ
fewer zero = (false, 0)
fewer (suc n) = (true, n)

abbrev countdowns : Jobs
countdowns = record {
  J = ℕ;
  In = ℕ;
  step = λ input n. fewer n;
  deadline = λ n. some (100 + n);
  ready = λ n. false;
}

abbrev pass_at : ℕ → Pass countdowns
pass_at n = record {
  began = n;
  arrived = (λ token. some 5) ∷ [];
  input = 0;
  stop = leb 3 n;
  notified = false;
  now = n;
  elapsed_ns = 10;
  polled = interrupted;
}

pass-Wakes_example :
    Wakes countdowns
      (pass_at 1)
      (work countdowns (pass_at 1) (start_worker countdowns)).1.jobs
      (work countdowns (pass_at 1) (start_worker countdowns)).1.queue
      (finish_pass countdowns
        (pass_at 1)
        (work countdowns (pass_at 1) (start_worker countdowns)).0
        (work countdowns (pass_at 1) (start_worker countdowns)).1).0
pass-Wakes_example = pass-Wakes countdowns (pass_at 1) (start_worker countdowns)

run-Ends_example : Ends countdowns pass_at 3 (start_worker countdowns)
run-Ends_example = run-Ends countdowns 3 pass_at (start_worker countdowns) λ m l. (ground arith, tt)

abbrev one_open : Engine
one_open = shutdown (open_control new_engine).1

Reach-told_example : one_open.flags 0 ≡ true
unfolding shutdown open_control register_stop retain_live set_flags
Reach-told_example =
    Reach-told one_open (next (next fresh (opens new_engine)) (shuts (open_control new_engine).1))
      refl 0 (omega arith)

abbrev any_v4 : SocketAddr
any_v4 = record { ip = v4 0; port = 1234; scope = 0 }

abbrev interfaces : List Interface
interfaces =
    record { is_oper_up = true; ip = v4 167772162; index = some 2 }
    ∷ record { is_oper_up = true; ip = v4 2130706433; index = some 1 }
    ∷ record { is_oper_up = true; ip = v4 167772162; index = some 3 }
    ∷ record { is_oper_up = false; ip = v4 167772259; index = some 9 }
    ∷ record { is_oper_up = true; ip = v6 1; index = some 1 }
    ∷ []

local_endpoints_lem_example :
    Increasing (local_endpoints any_v4 interfaces)
    × ((x : SocketAddr)
        → (listed x (local_endpoints any_v4 interfaces) ≡ true) ↔ IsOffered any_v4 interfaces x)
local_endpoints_lem_example = local_endpoints_lem any_v4 interfaces

abbrev events : List ServiceEvent
events =
    removed 3
    ∷ resolved (record {
      fullname = 3;
      port = 1234;
      id = some 8;
      fp = some (replicate 64 b'0');
      version = some 1;
      name = none;
      addresses = some (v4 167772162, 2) ∷ none ∷ [];
    })
    ∷ []

poll-last_said_example : get 3 (poll events []) ≡ otherwise (last_said 3 events) (get 3 [])
poll-last_said_example = poll-last_said 3 events []
