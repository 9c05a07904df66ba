-- ===== src/Schedule.antt =====
-- src/schedule.rs: a visit order expanded into arrival and departure times.
pub mod Plan
pub mod Agreement
pub mod Marks
pub mod Orders
pub mod Outcome
pub mod Violations
mod Tests
use troute.Prelude.{
  ℕ, ◌+◌, ◌-◌, max, ltb, leb, ◌==◌, if◌then◌else◌, Bool, true, false, not, ◌||◌, ◌&&◌, Option, none,
  some, Result, ok, err, ok_or, String, List, [], ◌∷◌, length, get_elem?, get_or, set, replicate,
  first, last,
}
use troute.Prelude.U32
use troute.Prelude.Results.{◌>>=◌, ◌>>◌}
use troute.Domain.{
  TimeOfDay, Location, OptimizationProblem, VisitPolicy, ScheduledStop, RoutePlan, start_location,
  start_location_index, end_location_index,
}
use troute.Domain.Time
use troute.Matrix
use troute.Matrix.{TravelTimeMatrix}
use troute.Solver.Types.{SolverSolution}
use troute.Solver.Evaluate.{is_at, is_all_required, is_lone_start, mark_all, any_required_unseen}

-- The fields of `ScheduleError::TimeWindowViolation`.
pub record Violation : Type 0 where
  pub location_id : String
  pub arrival_time : TimeOfDay
  pub service_start_time : TimeOfDay
  pub required_departure : TimeOfDay
  pub close_time : TimeOfDay
  pub selected_start_time : TimeOfDay
  pub total_wait_minutes_before_violation : ℕ
  pub is_start : Bool
  pub is_destination : Bool
  pub current_stay_minutes : ℕ
  pub suggested_max_stay_minutes : ℕ

pub data ScheduleError : Type 0 where
  matrix_size_mismatch : (matrix locations : ℕ) → ScheduleError
  invalid_visit_order outside_single_day travel_time_overflow : ScheduleError
  unreachable_arc : (from_location_id to_location_id : String) → ScheduleError
  time_window_violation : Violation → ScheduleError

-- `order[1..order.len() - 1]`.
abbrev pub drop_last : List ℕ → List ℕ
drop_last [] = []
drop_last (i ∷ []) = []
drop_last (i ∷ (j ∷ rest)) = i ∷ drop_last (j ∷ rest)

abbrev pub interior : List ℕ → List ℕ
interior [] = []
interior (i ∷ rest) = drop_last rest

-- `seen.iter().any(|visited| !visited)`.
unfoldable pub any_unseen : List Bool → Bool
any_unseen [] = false
any_unseen (s ∷ seen) = not s || any_unseen seen

check_marks : OptimizationProblem → Option (List Bool) → Result (Unit {0}) ScheduleError
check_marks problem none = err ScheduleError.invalid_visit_order
check_marks problem (some seen) =
    if any_required_unseen problem.locations seen
      || (is_all_required problem.visit_policy && any_unseen seen)
    then err ScheduleError.invalid_visit_order
    else ok tt

unfoldable pub validate_solution :
    OptimizationProblem → TravelTimeMatrix → SolverSolution → Result (Unit {0}) ScheduleError
unfolding check_marks
validate_solution problem matrix solution =
    let location_count = length problem.locations in
    let order = solution.visit_order in
    if not (Matrix.size matrix == location_count)
    then err (ScheduleError.matrix_size_mismatch (Matrix.size matrix) location_count)
    else if location_count == 1
    then if is_lone_start order then ok tt else err ScheduleError.invalid_visit_order
    else if (is_all_required problem.visit_policy && not (length order == location_count))
        || ltb (length order) 2
        || not (is_at (first order) (start_location_index problem))
        || not (is_at (last order) (end_location_index problem))
    then err ScheduleError.invalid_visit_order
    else let seen =
        set (set (replicate location_count false) (start_location_index problem) true)
          (end_location_index problem) true in
      check_marks problem (mark_all location_count seen (interior order))

-- `TimeOfDay::max`.
abbrev pub later : TimeOfDay → TimeOfDay → TimeOfDay
later a b = record { minutes = max a.minutes b.minutes }

-- `locations()[index].id()`: the index is in range once the order is validated.
abbrev pub id_of : OptimizationProblem → ℕ → String
id_of problem index = elim (get_elem? problem.locations index) [ none ↦ "" | some l ↦ l.id ]

-- The running values of the loop over the edges.
pub record Clock : Type 0 where
  pub current_time : TimeOfDay
  pub total_travel_minutes : ℕ
  pub total_wait_minutes : ℕ

abbrev pub violation_at :
    (l : Location) (arrival service departure start_time : TimeOfDay) (waited : ℕ)
    → (is_start is_destination : Bool) → ScheduleError
violation_at l arrival service departure start_time waited is_start is_destination =
    ScheduleError.time_window_violation (record {
      location_id = l.id;
      arrival_time = arrival;
      service_start_time = service;
      required_departure = departure;
      close_time = l.time_window.closes;
      selected_start_time = start_time;
      total_wait_minutes_before_violation = waited;
      is_start = is_start;
      is_destination = is_destination;
      current_stay_minutes = l.stay_minutes;
      suggested_max_stay_minutes = l.time_window.closes.minutes - service.minutes;
    })

abbrev pub stop_at :
    (index : ℕ) → Location → (arrival service departure : TimeOfDay) → ScheduledStop
stop_at index l arrival service departure = record {
  location_index = index;
  arrival_time = arrival;
  service_start_time = service;
  departure_time = some departure;
  wait_minutes = service.minutes - arrival.minutes;
  stay_minutes = l.stay_minutes;
}

-- The first stop. A problem has a start location, so the error of a missing one, which is a panic
-- in the source, is not met.
unfoldable pub schedule_start :
    OptimizationProblem → TimeOfDay → Result (ScheduledStop × Clock) ScheduleError
schedule_start problem start_time = do
  l ← ok_or (start_location problem) ScheduleError.invalid_visit_order
  let service = later start_time l.time_window.opens
  let wait = service.minutes - start_time.minutes
  departure ← ok_or (Time.checked_add service l.stay_minutes) ScheduleError.outside_single_day
  if ltb l.time_window.closes.minutes departure.minutes
      then err (
          violation_at l start_time service departure start_time wait true
            (start_location_index problem == end_location_index problem))
      else ok (
        stop_at (start_location_index problem) l start_time service departure,
        record { current_time = departure; total_travel_minutes = 0; total_wait_minutes = wait },
      )

-- One round of the loop over `windows(2)`: the new stop and the running values after it.
unfoldable pub schedule_edge :
    OptimizationProblem
    → TravelTimeMatrix
    → TimeOfDay
    → (from to : ℕ) → Clock
    → Result (ScheduledStop × Clock) ScheduleError
schedule_edge problem matrix start_time from to c = do
  travel ←
      ok_or (Matrix.travel_minutes matrix from to)
        (ScheduleError.unreachable_arc (id_of problem from) (id_of problem to))
  total_travel ←
      ok_or (U32.checked_add c.total_travel_minutes travel) ScheduleError.travel_time_overflow
  arrival ← ok_or (Time.checked_add c.current_time travel) ScheduleError.outside_single_day
  l ← ok_or (get_elem? problem.locations to) ScheduleError.invalid_visit_order
  let service = later arrival l.time_window.opens
  let wait = service.minutes - arrival.minutes
  departure ← ok_or (Time.checked_add service l.stay_minutes) ScheduleError.outside_single_day
  let waited = U32.saturating_add c.total_wait_minutes wait
  if ltb l.time_window.closes.minutes departure.minutes
      then err (
          violation_at l arrival service departure start_time waited false
            (to == end_location_index problem))
      else ok (
        stop_at to l arrival service departure,
        record {
          current_time = departure;
          total_travel_minutes = total_travel;
          total_wait_minutes = waited;
        },
      )

-- The loop: the stops that it pushes, in order, and the final running values.
unfoldable pub schedule_edges :
    OptimizationProblem
    → TravelTimeMatrix
    → TimeOfDay
    → ℕ
    → List ℕ
    → Clock
    → Result (List ScheduledStop × Clock) ScheduleError
schedule_edges problem matrix start_time from [] c = ok ([], c)
schedule_edges problem matrix start_time from (to ∷ rest) c =
    schedule_edge problem matrix start_time from to c >>= λ step.
    schedule_edges problem matrix start_time to rest step.1 >>= λ more. ok (step.0 ∷ more.0, more.1)

-- The edges of a whole order, `windows(2)`.
unfoldable pub schedule_order :
    OptimizationProblem
    → TravelTimeMatrix
    → TimeOfDay
    → List ℕ
    → Clock
    → Result (List ScheduledStop × Clock) ScheduleError
unfolding schedule_edges
schedule_order problem matrix start_time [] c = ok ([], c)
schedule_order problem matrix start_time (from ∷ rest) c =
    schedule_edges problem matrix start_time from rest c

unfoldable pub calculate_schedule_from :
    OptimizationProblem
    → TravelTimeMatrix
    → SolverSolution
    → TimeOfDay
    → Result RoutePlan ScheduleError
calculate_schedule_from problem matrix solution start_time =
    validate_solution problem matrix solution
    >> (schedule_start problem start_time >>= λ begin.
        schedule_order problem matrix start_time solution.visit_order begin.1 >>= λ more.
        ok
          (record { stops = begin.0 ∷ more.0; total_travel_minutes = more.1.total_travel_minutes }))

unfoldable pub calculate_schedule :
    OptimizationProblem → TravelTimeMatrix → SolverSolution → Result RoutePlan ScheduleError
unfolding calculate_schedule_from
calculate_schedule problem matrix solution =
    calculate_schedule_from problem matrix solution problem.start_time
