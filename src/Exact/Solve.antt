-- ===== src/Exact/Solve.antt =====
-- src/solver/exact/bit_dp.rs: the checks of the input, the test of feasibility from one start, and
-- the choice of the start.
pub mod Sound
use troute.Prelude.{
  ℕ, zero, suc, ◌+◌, ◌-◌, ◌*◌, ◌/◌, ◌%◌, ◌^◌, ltb, leb, ◌==◌, if◌then◌else◌, Bool, true, false, not,
  ◌||◌, ◌&&◌, Option, none, some, Result, ok, err, List, length, get_or, set, replicate,
}
use troute.Prelude.Options.{is_some}
use troute.Prelude.Results.{◌>>=◌, ◌>>◌}
use troute.Prelude.Loops.{for_range}
use troute.Domain.{StartPolicy, TimeOfDay}
use troute.Matrix
use troute.Solver.Types.{
  SolverInput, SolverSolution, SolutionMetrics, SolverError, exact_max_locations,
}
use troute.Solver.Objective.{ObjectivePolicy}
use troute.Solver.Transition.{initial_service, transition_time, minutes_to_slot_ceil, slots_per_day}
use troute.Solver.Evaluate.{evaluate_solution, selected_start_time}
use troute.Exact.{FrontierPolicy, ExactSolveResult}
use troute.Exact.Masks.{test_bit, set_bit}
use troute.Exact.Search.{
  index, location_count, full_mask, end_location, is_partial, search_at_start,
}

-- `finish_slot < current`, or no finish so far.
abbrev pub improves : Option ℕ → ℕ → Bool
improves none finish = true
improves (some current) finish = ltb finish current

unfoldable pub validate : SolverInput → Result (Unit {0}) SolverError
validate input =
    let locations = length input.problem.locations in
    if input.cancelled
    then err SolverError.cancelled
    else if ltb exact_max_locations locations
    then err (SolverError.unsupported_location_count exact_max_locations locations)
    else if locations == 0
    then err SolverError.no_feasible_route
    else if not (Matrix.size input.matrix == locations)
    then err (SolverError.matrix_size_mismatch (Matrix.size input.matrix) locations)
    else ok tt

module _ (objective : ObjectivePolicy) (input : SolverInput) where
  -- One round of the innermost loop of the test: the earliest finish at `next`.
  unfoldable pub reach_next : (mask last time_slot next : ℕ) → List (Option ℕ) → List (Option ℕ)
  reach_next mask last time_slot next earliest =
      let n = location_count objective input in
      if test_bit mask next
        || ((next == end_location objective input)
            && not (set_bit mask next == full_mask objective input))
      then earliest
      else elim (transition_time input last next time_slot) [
        | none ↦ earliest
        | some finish ↦
            let cell = index (set_bit mask next) next n in
            if improves (get_or earliest cell none) finish
            then set earliest cell (some finish)
            else earliest
      ]

  unfoldable pub reach_from : (mask last : ℕ) → List (Option ℕ) → List (Option ℕ)
  unfolding reach_next
  reach_from mask last earliest =
      elim (get_or earliest (index mask last (location_count objective input)) none) [
        | none ↦ earliest
        | some time_slot ↦
            for_range 1 (location_count objective input - 1) (reach_next mask last time_slot)
              earliest
      ]

  unfoldable pub reach_mask :
      ℕ → Result (List (Option ℕ)) SolverError → Result (List (Option ℕ)) SolverError
  unfolding reach_from
  reach_mask mask state =
      if input.cancelled
      then (state >>= λ earliest. err SolverError.cancelled)
      else state >>= λ earliest.
          ok (for_range 0 (location_count objective input) (reach_from mask) earliest)

  abbrev pub initial_earliest : ℕ → List (Option ℕ)
  initial_earliest departure_slot =
      let n = location_count objective input in
      set (replicate (2 ^ n * n) none) (index 1 0 n) (some departure_slot)

  unfoldable pub is_feasible_at_start : (start_time_slot : ℕ) → Result Bool SolverError
  unfolding reach_mask
  is_feasible_at_start start = elim (initial_service input start) [
    | none ↦ ok false
    | some initial ↦
        let n = location_count objective input in
        let searched =
          for_range 1 (full_mask objective input) reach_mask
            (ok (initial_earliest initial.departure_slot)) in
        if n == 1
        then ok true
        else searched >>= λ earliest. ok (
            is_some (
              get_or earliest (index (full_mask objective input) (end_location objective input) n)
                none))
  ]

-- `while low < high` with a test that may fail: the interval shrinks in each round, so
-- `high - low` rounds are enough.
unfoldable pub latest_start :
    (rounds : ℕ) (feasible : ℕ → Result Bool SolverError) (low high : ℕ) → Result ℕ SolverError
latest_start zero feasible low high = ok low
latest_start (suc rounds) feasible low high =
    let middle = low + (high - low + 1) / 2 in
    let up = latest_start rounds feasible middle high in
    let down = latest_start rounds feasible low (middle - 1) in
    if ltb low high then (feasible middle >>= λ b. if b then up else down) else ok low

-- `(count, priority) >= target`, in lexicographic order.
abbrev pub covers_target : SolutionMetrics → SolutionMetrics → Bool
covers_target target m =
    ltb target.visited_optional_count m.visited_optional_count
    || ((target.visited_optional_count == m.visited_optional_count)
        && leb target.visited_optional_priority m.visited_optional_priority)

-- `ok_or(SolverError::NoFeasibleRoute)` of a search.
abbrev pub found_route : Option ExactSolveResult → Result ExactSolveResult SolverError
found_route none = err SolverError.no_feasible_route
found_route (some result) = ok result

-- `is_some_and(|result| ...)` on the coverage of a result.
abbrev pub preserves_target : SolutionMetrics → Option ExactSolveResult → Bool
preserves_target target none = false
preserves_target target (some result) = covers_target target result.metrics

module _ (objective : ObjectivePolicy) (policy : FrontierPolicy) (input : SolverInput) where
  -- The route of the start that is chosen.
  abbrev pub solve_at : ℕ → Result ExactSolveResult SolverError
  solve_at start = search_at_start objective input policy start >>= found_route

  -- The branch of the best-effort policy.
  unfoldable pub solve_best_effort : ℕ → Result ExactSolveResult SolverError
  solve_best_effort low = solve_at low >>= λ target.
      latest_start (slots_per_day - 1 - low)
        (λ middle. search_at_start objective input policy middle >>= λ found.
          ok (preserves_target target.metrics found))
        low (slots_per_day - 1)
      >>= solve_at

  -- The branch in which all locations are visited.
  unfoldable pub solve_latest : ℕ → Result ExactSolveResult SolverError
  solve_latest low = is_feasible_at_start objective input low >>= λ b.
      if b
      then latest_start (slots_per_day - 1 - low) (is_feasible_at_start objective input) low
          (slots_per_day - 1)
        >>= solve_at
      else err SolverError.no_feasible_route

  -- The branches of the start policy, from the requested start.
  unfoldable pub solve_from : ℕ → Result ExactSolveResult SolverError
  solve_from low = elim input.problem.start_policy [
    | StartPolicy.latest ↦
        if is_partial objective input then solve_best_effort low else solve_latest low
    | _ ↦ solve_at low
  ]

  unfoldable pub solve_detailed : Result ExactSolveResult SolverError
  solve_detailed =
      validate input
      >> (let earliest_slot = minutes_to_slot_ceil input.problem.start_time.minutes in
          if leb slots_per_day earliest_slot
          then err SolverError.no_feasible_route
          else solve_from (earliest_slot % 2 ^ 16))

  -- `RouteSolver::solve`.
  unfoldable pub solve : Result SolverSolution SolverError
  unfolding solve_detailed
  solve = solve_detailed >>= λ result. ok result.solution

  -- `RouteSolver::selected_start_time`.
  unfoldable pub solver_start_time : SolverSolution → Result TimeOfDay SolverError
  solver_start_time solution = evaluate_solution objective input solution >>= λ selected.
      selected_start_time input.problem selected
