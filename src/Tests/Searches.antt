-- ===== src/Tests/Searches.antt =====
-- The search for a boundary at concrete inputs.
use ethersync.Base.{ℕ, ◌+◌, ◌≤◌, ◌<◌, true, ◌≡◌, ◌⊎◌, refl, Bool, false, none, some, leb, arith}
use ethersync.Base.Int.{ℤ}
use ethersync.Wire.Validate.{i64_max}
use ethersync.Follower.View.{View, is_uninitialized, evaluate}
use ethersync.Leader.Job.{leader_view}
use ethersync.Boundary.Next.{next_boundary}
use ethersync.Boundary.Deadlines.{Decided, next_boundary_lem}
use ethersync.Tests.Samples.{decimal_float, ones, running}
use ethersync.Boundary.{search, first, IsStep, first_lem}

abbrev from_10 : ℕ → Bool
from_10 t = leb 10 t

first_is_10 : first 0 100 from_10 ≡ some 10
unfolding first search
first_is_10 = refl

first_lem_example :
    ((first 0 100 from_10 ≡ none) × ((100 < 0) ⊎ (from_10 100 ≡ false)))
    ⊎ ((from_10 100 ≡ true) × ((t : ℕ) × (first 0 100 from_10 ≡ some t) × IsStep from_10 0 100 t))
first_lem_example = first_lem 0 100 from_10 (omega arith)

-- A view of the leader's own clock on a running timeline.
abbrev running_view : View ℤ
running_view = leader_view (running ones 1) 1_500_000_000

next_boundary_lem_example :
    ((next_boundary running_view 1_500_000_000 ≡ none)
      × ((i64_max < 1_500_000_000 + 1)
          ⊎ (is_uninitialized (evaluate running_view 1_500_000_000).status.synchronization ≡ true)))
    ⊎ ((1_500_000_000 + 1 ≤ i64_max)
        × (is_uninitialized (evaluate running_view 1_500_000_000).status.synchronization ≡ false)
        × Decided running_view 1_500_000_000 (next_boundary running_view 1_500_000_000))
next_boundary_lem_example = next_boundary_lem running_view 1_500_000_000
