-- ===== src/Solver/Types.antt =====
-- src/solver/core: inputs, solutions, metrics and errors. `time_slot_minutes` and
-- `exact_max_locations` are the constants of src/solver.rs.
use troute.Prelude.{ℕ, Bool, String, List}
use troute.Domain.{OptimizationProblem, StartPolicy}
use troute.Matrix.{TravelTimeMatrix}

abbrev pub exact_max_locations : ℕ
exact_max_locations = 15

abbrev pub time_slot_minutes : ℕ
time_slot_minutes = 1

-- `cancelled` is what the token answers. A token never goes back to not cancelled.
pub record SolverInput : Type 0 where
  pub matrix : TravelTimeMatrix
  pub problem : OptimizationProblem
  pub cancelled : Bool

pub record SolverSolution : Type 0 where
  pub visit_order : List ℕ

pub record SolutionMetrics : Type 0 where
  pub start_policy : StartPolicy
  pub visited_optional_count : ℕ
  pub visited_optional_priority : ℕ
  pub start_time_slot : ℕ
  pub finish_time_slot : ℕ
  pub travel_minutes : ℕ
  pub wait_minutes : ℕ
  pub score : ℕ

pub data SolverError : Type 0 where
  cancelled no_feasible_route proven_infeasible timed_out invalid_visit_order : SolverError
  unsupported perfect_matching_failed invalid_configuration failed : String → SolverError
  unsupported_location_count : (maximum actual : ℕ) → SolverError
  unsupported_matching_vertex_count : (maximum actual : ℕ) → SolverError
  matrix_size_mismatch : (matrix locations : ℕ) → SolverError
