-- ===== src/Solver/Evaluate/Tests.antt =====
-- The evaluation of a day trip.
use troute.Prelude.{◌≤◌, ◌<◌, ◌≡◌, ◌⊎◌, refl, true, false, some, ok, err, [], ◌∷◌, arith}
use troute.Domain.{StartPolicy}
use troute.Matrix
use troute.Solver.Types.{SolutionMetrics, SolverError}
use troute.Solver.Objective.{default_objective_policy, default_score}
use troute.Solver.Transition.{initial_service, slots_per_day}
use troute.Solver.Evaluate.{
  validate_visit_order, simulate_edge, simulate_edges, simulate_solution, search_latest,
  evaluate_solution, count_optional, sum_priority,
}
use troute.Solver.Evaluate.Monotone.{simulate_solution_mono}
use troute.Solver.Evaluate.Latest.{feasible_at, evaluate_solution-IsChecked}
use troute.Solver.Evaluate.Outcome.{
  evaluate_solution-latest, evaluate_solution_maximal, evaluate_solution_total,
}
use troute.Solver.Fixtures.{trip, by_the_park, early_trip, late_trip}

early_drive :
    simulate_solution default_objective_policy (trip StartPolicy.earliest) by_the_park 540
    ≡ some (early_trip StartPolicy.earliest)
unfolding simulate_solution simulate_edges simulate_edge initial_service Matrix.travel_minutes
    count_optional sum_priority default_score
early_drive = refl

early_drive_latest :
    simulate_solution default_objective_policy (trip StartPolicy.latest) by_the_park 540
    ≡ some (early_trip StartPolicy.latest)
unfolding simulate_solution simulate_edges simulate_edge initial_service Matrix.travel_minutes
    count_optional sum_priority default_score
early_drive_latest = refl

late_drive :
    simulate_solution default_objective_policy (trip StartPolicy.latest) by_the_park 650
    ≡ some late_trip
unfolding simulate_solution simulate_edges simulate_edge initial_service Matrix.travel_minutes
    count_optional sum_priority default_score
late_drive = refl

evaluates_latest :
    evaluate_solution default_objective_policy (trip StartPolicy.latest) by_the_park ≡ ok late_trip
unfolding evaluate_solution validate_visit_order search_latest simulate_solution simulate_edges
    simulate_edge initial_service Matrix.travel_minutes count_optional sum_priority default_score
evaluates_latest = refl

evaluates_earliest :
    evaluate_solution default_objective_policy (trip StartPolicy.earliest) by_the_park
    ≡ ok (early_trip StartPolicy.earliest)
unfolding evaluate_solution validate_visit_order search_latest simulate_solution simulate_edges
    simulate_edge initial_service Matrix.travel_minutes count_optional sum_priority default_score
evaluates_earliest = refl

skips_the_park :
    evaluate_solution default_objective_policy
      (trip StartPolicy.latest)
      (record { visit_order = 0 ∷ 2 ∷ [] })
    ≡ err SolverError.invalid_visit_order
unfolding evaluate_solution validate_visit_order
skips_the_park = refl

simulate_solution_mono_example :
    (early : SolutionMetrics) × (simulate_solution default_objective_policy
        (trip StartPolicy.latest)
        by_the_park
        600
      ≡ some early)
    × (early.finish_time_slot ≤ 735)
    × (early.travel_minutes ≡ 25)
simulate_solution_mono_example =
    simulate_solution_mono default_objective_policy (trip StartPolicy.latest) by_the_park 600 650
      {late = late_trip} (omega arith) late_drive

evaluate_solution-latest_example :
    (simulate_solution default_objective_policy (trip StartPolicy.latest) by_the_park 650
      ≡ some late_trip)
    × (540 ≤ 650)
    × (650 < slots_per_day)
evaluate_solution-latest_example =
    evaluate_solution-latest default_objective_policy (trip StartPolicy.latest) by_the_park
      {m = late_trip} refl evaluates_latest

evaluate_solution_maximal_example : 540 ≤ 650
evaluate_solution_maximal_example =
    evaluate_solution_maximal default_objective_policy (trip StartPolicy.latest) by_the_park
      {m = late_trip} {late = early_trip StartPolicy.latest} 540 refl evaluates_latest (omega arith)
      early_drive_latest

evaluate_solution_total_example :
    ((m : SolutionMetrics) × (evaluate_solution default_objective_policy
          (trip StartPolicy.latest)
          by_the_park
        ≡ ok m)
      × (feasible_at default_objective_policy (trip StartPolicy.latest) by_the_park 540 ≡ true))
    ⊎ ((evaluate_solution default_objective_policy (trip StartPolicy.latest) by_the_park
          ≡ err SolverError.no_feasible_route)
        × (feasible_at default_objective_policy (trip StartPolicy.latest) by_the_park 540 ≡ false))
evaluate_solution_total_example =
    evaluate_solution_total default_objective_policy (trip StartPolicy.latest) by_the_park (
      evaluate_solution-IsChecked default_objective_policy (trip StartPolicy.latest) by_the_park
        {m = late_trip} evaluates_latest)
