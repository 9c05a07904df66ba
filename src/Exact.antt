-- ===== src/Exact.antt =====
-- src/solver/exact/frontier.rs and stats.rs: the states of the exact search, the pruning of those
-- that another one dominates, and the result.
pub mod Masks
pub mod Sums
pub mod Search
pub mod Solve
mod Tests
use troute.Prelude.{
  ℕ, ◌+◌, ◌-◌, ◌*◌, ◌^◌, ◌≤◌, ◌<◌, Bool, true, false, if◌then◌else◌, ltb, leb, Option, none, some,
  List,
}
use troute.Solver.Types.{SolverSolution, SolutionMetrics, time_slot_minutes}

pub record FrontierPoint : Type 0 where
  pub time_slot : ℕ
  pub cost : ℕ

-- The trait `FrontierPolicy`.
pub record FrontierPolicy : Type 0 where
  pub dominates : FrontierPoint → FrontierPoint → Bool

-- `TimeCostFrontierPolicy::dominates`. An overflow of the `u64` is "not dominated".
unfoldable pub time_cost_dominates : FrontierPoint → FrontierPoint → Bool
time_cost_dominates left right =
    if ltb right.time_slot left.time_slot
    then false
    else let reproduced = left.cost + (right.time_slot - left.time_slot) * time_slot_minutes in
      if ltb reproduced (2 ^ 64) then leb reproduced right.cost else false

abbrev pub time_cost_frontier_policy : FrontierPolicy
time_cost_frontier_policy = record { dominates = time_cost_dominates }

pub record ParetoState : Type 0 where
  pub time_slot : ℕ
  pub travel_minutes : ℕ
  pub wait_minutes : ℕ
  pub visited_optional_count : ℕ
  pub visited_optional_priority : ℕ
  pub score : ℕ
  pub frontier_cost : ℕ
  pub predecessor : Option ℕ
  pub location : ℕ

unfoldable pub frontier_point : ParetoState → FrontierPoint
frontier_point state = record { time_slot = state.time_slot; cost = state.frontier_cost }

pub record ExactSolverStats : Type 0 where
  pub generated_states : ℕ
  pub frontier_states : ℕ
  pub frontier_cells : ℕ

pub record ExactSolveResult : Type 0 where
  pub solution : SolverSolution
  pub metrics : SolutionMetrics
  pub stats : ExactSolverStats
