-- ===== src/Schedule/Tests.antt =====
-- The schedule of a day trip, and of one that comes too late.
use troute.Prelude.{◌≡◌, ◌↔◌, refl, false, some, ok, err, [], ◌∷◌, length, arith}
use troute.Domain.{TimeOfDay, StartPolicy, RoutePlan}
use troute.Domain.Time
use troute.Matrix
use troute.Solver.Types.{SolverInput, SolutionMetrics}
use troute.Solver.Objective.{default_objective_policy, default_score}
use troute.Solver.Transition.{initial_service}
use troute.Solver.Evaluate.{
  mark_all, any_required_unseen, validate_visit_order, simulate_edge, simulate_edges,
  simulate_solution, search_latest, evaluate_solution, selected_start_time, count_optional,
  sum_priority,
}
use troute.Solver.Fixtures.{at, trip, by_the_park, late_trip}
use troute.Schedule.{
  Violation, ScheduleError, schedule_start, schedule_edge, schedule_order, validate_solution,
  calculate_schedule_from, any_unseen,
}
use troute.Schedule.Plan.{IsPlan, calculate_schedule_from-IsPlan}
use troute.Schedule.Orders.{validate_solution_iff}
use troute.Schedule.Violations.{IsReport, calculate_schedule_from-IsReport}
use troute.Schedule.Outcome.{
  simulated-calculate_schedule_from, calculated-simulate_solution,
  evaluated-calculate_schedule_from,
}

abbrev day_trip : SolverInput
day_trip = trip StartPolicy.latest

abbrev late_plan : RoutePlan
late_plan = record {
  stops =
      record {
        location_index = 0;
        arrival_time = at 650;
        service_start_time = at 650;
        departure_time = some (at 650);
        wait_minutes = 0;
        stay_minutes = 0;
      }
      ∷ record {
        location_index = 1;
        arrival_time = at 660;
        service_start_time = at 660;
        departure_time = some (at 720);
        wait_minutes = 0;
        stay_minutes = 60;
      }
      ∷ record {
        location_index = 2;
        arrival_time = at 735;
        service_start_time = at 735;
        departure_time = some (at 735);
        wait_minutes = 0;
        stay_minutes = 0;
      }
      ∷ [];
  total_travel_minutes = 25;
}

-- A start at 10:51 reaches the park one minute too late for the whole stay.
abbrev too_late : Violation
too_late = record {
  location_id = "place";
  arrival_time = at 661;
  service_start_time = at 661;
  required_departure = at 721;
  close_time = at 720;
  selected_start_time = at 651;
  total_wait_minutes_before_violation = 0;
  is_start = false;
  is_destination = false;
  current_stay_minutes = 60;
  suggested_max_stay_minutes = 59;
}

valid : validate_solution day_trip.problem day_trip.matrix by_the_park ≡ ok tt
unfolding validate_solution any_unseen mark_all any_required_unseen
valid = refl

planned :
    calculate_schedule_from day_trip.problem day_trip.matrix by_the_park (at 650) ≡ ok late_plan
unfolding calculate_schedule_from validate_solution any_unseen mark_all any_required_unseen
    schedule_start schedule_order schedule_edge Time.checked_add Matrix.travel_minutes
planned = refl

reported :
    calculate_schedule_from day_trip.problem day_trip.matrix by_the_park (at 651)
    ≡ err (ScheduleError.time_window_violation too_late)
unfolding calculate_schedule_from validate_solution any_unseen mark_all any_required_unseen
    schedule_start schedule_order schedule_edge Time.checked_add Matrix.travel_minutes
reported = refl

driven : simulate_solution default_objective_policy day_trip by_the_park 650 ≡ some late_trip
unfolding simulate_solution simulate_edges simulate_edge initial_service Matrix.travel_minutes
    count_optional sum_priority default_score
driven = refl

evaluated : evaluate_solution default_objective_policy day_trip by_the_park ≡ ok late_trip
unfolding evaluate_solution validate_visit_order search_latest simulate_solution simulate_edges
    simulate_edge initial_service Matrix.travel_minutes count_optional sum_priority default_score
evaluated = refl

calculate_schedule_from-IsPlan_example :
    IsPlan day_trip.problem day_trip.matrix 650 by_the_park.visit_order late_plan
calculate_schedule_from-IsPlan_example =
    calculate_schedule_from-IsPlan day_trip.problem day_trip.matrix (at 650) by_the_park
      {plan = late_plan} planned

validate_solution_iff_example :
    (validate_solution day_trip.problem day_trip.matrix by_the_park ≡ ok tt) ↔ (
      (Matrix.size day_trip.matrix ≡ length day_trip.problem.locations)
      × (validate_visit_order day_trip.problem by_the_park ≡ ok tt))
validate_solution_iff_example =
    validate_solution_iff day_trip.problem day_trip.matrix by_the_park (omega arith)

calculate_schedule_from-IsReport_example :
    IsReport day_trip.problem day_trip.matrix (at 651) by_the_park.visit_order too_late
calculate_schedule_from-IsReport_example =
    calculate_schedule_from-IsReport day_trip.problem day_trip.matrix (at 651) by_the_park
      {v = too_late} reported

simulated-calculate_schedule_from_example :
    (plan : RoutePlan) × (calculate_schedule_from day_trip.problem day_trip.matrix by_the_park
        (at 650)
      ≡ ok plan)
    × (plan.total_travel_minutes ≡ 25)
simulated-calculate_schedule_from_example =
    simulated-calculate_schedule_from default_objective_policy day_trip by_the_park (at 650)
      {m = late_trip} (omega arith) valid driven

calculated-simulate_solution_example :
    (m : SolutionMetrics) × (simulate_solution default_objective_policy day_trip by_the_park 650
      ≡ some m)
    × (25 ≡ m.travel_minutes)
calculated-simulate_solution_example =
    calculated-simulate_solution default_objective_policy day_trip by_the_park (at 650)
      {plan = late_plan} (omega arith) (omega arith) planned

evaluated-calculate_schedule_from_example :
    (start : TimeOfDay) × (plan : RoutePlan) × (selected_start_time day_trip.problem late_trip
      ≡ ok start)
    × (calculate_schedule_from day_trip.problem day_trip.matrix by_the_park start ≡ ok plan)
    × (plan.total_travel_minutes ≡ 25)
evaluated-calculate_schedule_from_example =
    evaluated-calculate_schedule_from default_objective_policy day_trip by_the_park {m = late_trip}
      (omega arith) evaluated
