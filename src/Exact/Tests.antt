-- ===== src/Exact/Tests.antt =====
-- The exact search on a day trip of three locations.
use troute.Prelude.{ℕ, ◌+◌, ◌*◌, ◌^◌, ◌<◌, ◌≤◌, ◌≡◌, ◌≢◌, refl, none, some, Ordering, ok, arith}
use troute.Domain.{StartPolicy}
use troute.Matrix
use troute.Solver.Objective.{
  default_objective_policy, default_compare, default_score, default_frontier_cost, start_order,
}
use troute.Solver.Transition.{initial_service, transition_time, slots_per_day}
use troute.Solver.Evaluate.{
  simulate_solution, simulate_edge, simulate_edges, validate_visit_order, count_optional,
  sum_priority,
}
use troute.Solver.Fixtures.{trip, by_the_park, early_trip, late_trip}
use troute.Exact.{
  ParetoState, ExactSolveResult, time_cost_frontier_policy, time_cost_dominates, frontier_point,
}
use troute.Exact.Masks.{test_bit, set_bit, covers, required_bits}
use troute.Exact.Sums.{sum_below}
use troute.Exact.Search.{
  metrics, offer, trace, transition, try_next, expand_state, expand_cell, expand_mask, run_search,
  terminal_ids, select_best, search_at_start,
}
use troute.Exact.Search.Route.{progress_of, transition-simulate_edge}
use troute.Exact.Search.Prefixes.{Fits}
use troute.Exact.Search.Sound.{search_at_start-IsSound, IsSound}
use troute.Exact.Search.Optimal.{search_at_start_optimal}
use troute.Exact.Solve.{
  validate, reach_next, reach_from, reach_mask, is_feasible_at_start, latest_start, solve_latest,
  solve_from, solve_detailed,
}
use troute.Exact.Solve.Sound.{solve_detailed-IsSound, solve_detailed_optimal}

abbrev early_result : ExactSolveResult
early_result = record {
  solution = by_the_park;
  metrics = early_trip StartPolicy.earliest;
  stats = record { generated_states = 3; frontier_states = 3; frontier_cells = 3 };
}

early_search :
    search_at_start default_objective_policy
      (trip StartPolicy.earliest)
      time_cost_frontier_policy
      540
    ≡ ok (some early_result)
unfolding search_at_start run_search expand_mask expand_cell expand_state try_next offer transition
    metrics trace terminal_ids select_best initial_service test_bit set_bit covers required_bits
    default_score default_frontier_cost time_cost_dominates frontier_point Matrix.travel_minutes
    default_compare start_order
early_search = refl

early_drive :
    simulate_solution default_objective_policy (trip StartPolicy.earliest) by_the_park 540
    ≡ some (early_trip StartPolicy.earliest)
unfolding simulate_solution simulate_edges simulate_edge initial_service Matrix.travel_minutes
    count_optional sum_priority default_score
early_drive = refl

early_valid : validate_visit_order (trip StartPolicy.earliest).problem by_the_park ≡ ok tt
unfolding validate_visit_order
early_valid = refl

trip_fits : Fits (trip StartPolicy.earliest)
unfolding sum_below
trip_fits = omega arith

-- 10:50 is the last start.
solves_latest :
    solve_detailed default_objective_policy time_cost_frontier_policy (trip StartPolicy.latest)
    ≡ ok (record {
      solution = by_the_park;
      metrics = late_trip;
      stats = record { generated_states = 3; frontier_states = 3; frontier_cells = 3 };
    })
unfolding solve_detailed validate solve_from solve_latest latest_start is_feasible_at_start
    reach_mask reach_from reach_next transition_time search_at_start run_search expand_mask
    expand_cell expand_state try_next offer transition metrics trace terminal_ids select_best
    initial_service test_bit set_bit covers required_bits default_score default_frontier_cost
    time_cost_dominates frontier_point Matrix.travel_minutes default_compare start_order
solves_latest = refl

search_at_start-IsSound_example :
    IsSound default_objective_policy (trip StartPolicy.earliest) 540 early_result
search_at_start-IsSound_example =
    search_at_start-IsSound default_objective_policy (trip StartPolicy.earliest) 540
      time_cost_frontier_policy (record { nonempty = omega arith; required = refl }) early_search

search_at_start_optimal_example :
    (result : ExactSolveResult) × (search_at_start default_objective_policy
        (trip StartPolicy.earliest)
        time_cost_frontier_policy
        540
      ≡ ok (some result))
    × (default_compare result.metrics (early_trip StartPolicy.earliest) ≢ Ordering.gt)
search_at_start_optimal_example =
    search_at_start_optimal (trip StartPolicy.earliest) 540 by_the_park
      (record { nonempty = omega arith; required = refl }) trip_fits refl early_valid early_drive

solve_detailed-IsSound_example :
    (start : ℕ) × (540 ≤ start)
    × (start < slots_per_day)
    × (validate_visit_order (trip StartPolicy.latest).problem by_the_park ≡ ok tt)
    × (simulate_solution default_objective_policy (trip StartPolicy.latest) by_the_park start
        ≡ some late_trip)
solve_detailed-IsSound_example =
    solve_detailed-IsSound default_objective_policy time_cost_frontier_policy
      (trip StartPolicy.latest) refl solves_latest

solve_detailed_optimal_example :
    (result : ExactSolveResult) × (solve_detailed default_objective_policy time_cost_frontier_policy
        (trip StartPolicy.earliest)
      ≡ ok result)
    × (default_compare result.metrics (early_trip StartPolicy.earliest) ≢ Ordering.gt)
solve_detailed_optimal_example =
    solve_detailed_optimal (trip StartPolicy.earliest) by_the_park (λ e. cc)
      (record { running = refl; nonempty = omega arith; few = omega arith; sized = refl })
      (omega arith) refl trip_fits early_valid early_drive

abbrev hotel_state : ParetoState
hotel_state = record {
  time_slot = 540;
  travel_minutes = 0;
  wait_minutes = 0;
  visited_optional_count = 0;
  visited_optional_priority = 0;
  score = 0;
  frontier_cost = 0;
  predecessor = none;
  location = 0;
}

abbrev park_state : ParetoState
park_state = record {
  time_slot = 660;
  travel_minutes = 10;
  wait_minutes = 50;
  visited_optional_count = 0;
  visited_optional_priority = 0;
  score = 60;
  frontier_cost = 10 * 2 ^ 32 + 50;
  predecessor = some 0;
  location = 1;
}

to_the_park :
    transition default_objective_policy (trip StartPolicy.earliest) hotel_state 0 1
    ≡ some park_state
unfolding transition Matrix.travel_minutes default_score default_frontier_cost
to_the_park = refl

transition-simulate_edge_example :
    (simulate_edge (trip StartPolicy.earliest) 0 1 (progress_of hotel_state)
      ≡ some (progress_of park_state))
    × (park_state.location ≡ 1)
    × (park_state.predecessor ≡ some 0)
    × (park_state.score
        ≡ default_objective_policy.score park_state.travel_minutes park_state.wait_minutes)
    × (park_state.frontier_cost
        ≡ default_objective_policy.frontier_cost park_state.travel_minutes park_state.wait_minutes)
    × (park_state.visited_optional_count ≡ hotel_state.visited_optional_count + 0)
    × (park_state.visited_optional_priority ≡ hotel_state.visited_optional_priority + 0)
    × (park_state.visited_optional_priority < 2 ^ 32)
    × (park_state.time_slot < slots_per_day)
transition-simulate_edge_example =
    transition-simulate_edge default_objective_policy (trip StartPolicy.earliest) hotel_state 0 1
      to_the_park
