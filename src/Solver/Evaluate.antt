-- ===== src/Solver/Evaluate.antt =====
-- src/solver.rs: the evaluation of a complete route.
pub mod Monotone
pub mod Latest
pub mod Outcome
mod Tests
use troute.Prelude.{
  ℕ, zero, suc, ◌+◌, ◌-◌, ◌*◌, ◌/◌, ◌%◌, ◌^◌, max, ltb, leb, ◌==◌, if◌then◌else◌, Bool, true, false,
  not, ◌||◌, ◌&&◌, Option, none, some, Result, ok, err, ok_or, List, [], ◌∷◌, length, get_elem?,
  get_or, set, replicate, first, last, String,
}
use troute.Prelude.U32
use troute.Prelude.Options.{◌>>=◌, is_some}
use troute.Prelude.Results.{◌>>◌}
use troute.Domain.{
  Location, OptimizationProblem, StartPolicy, VisitPolicy, TimeOfDay, TimeParseError,
  end_location_index, start_location_index,
}
use troute.Domain.Time
use troute.Matrix
use troute.Solver.Types.{
  SolverInput, SolverSolution, SolutionMetrics, SolverError, time_slot_minutes,
}
use troute.Solver.Objective.{ObjectivePolicy}
use troute.Solver.Transition.{
  initial_service, minutes_to_slot_ceil, slots_per_day, open_slot, close_slot,
}

-- `slice.first() == Some(&i)` and the like.
abbrev pub is_at : Option ℕ → ℕ → Bool
is_at none i = false
is_at (some j) i = j == i

abbrev pub is_all_required : VisitPolicy → Bool
is_all_required VisitPolicy.all_required = true
is_all_required VisitPolicy.best_effort_on_failure = false

-- The loop over a visit order: `none` at a location out of range or seen before.
unfoldable pub mark_all : ℕ → List Bool → List ℕ → Option (List Bool)
mark_all location_count seen [] = some seen
mark_all location_count seen (location ∷ rest) =
    let marked = mark_all location_count (set seen location true) rest in
    if leb location_count location || get_or seen location false then none else marked

-- `locations.iter().enumerate().any(|(index, location)| location.required() && !seen[index])`.
unfoldable pub any_required_unseen : List Location → List Bool → Bool
any_required_unseen [] seen = false
any_required_unseen (l ∷ ls) [] = l.required || any_required_unseen ls []
any_required_unseen (l ∷ ls) (s ∷ seen) = (l.required && not s) || any_required_unseen ls seen

check_marks : List Location → Option (List Bool) → Result (Unit {0}) SolverError
unfolding any_required_unseen
check_marks locations none = err SolverError.invalid_visit_order
check_marks locations (some seen) =
    if any_required_unseen locations seen then err SolverError.invalid_visit_order else ok tt

-- `visit_order == [0]`.
abbrev pub is_lone_start : List ℕ → Bool
is_lone_start [] = false
is_lone_start (i ∷ []) = i == 0
is_lone_start (i ∷ (j ∷ rest)) = false

unfoldable pub validate_visit_order :
    OptimizationProblem → SolverSolution → Result (Unit {0}) SolverError
unfolding mark_all check_marks
validate_visit_order problem solution =
    let location_count = length problem.locations in
    let order = solution.visit_order in
    if location_count == 1
    then if is_lone_start order then ok tt else err SolverError.invalid_visit_order
    else if (is_all_required problem.visit_policy && not (length order == location_count))
        || ltb (length order) 2
        || not (is_at (first order) (start_location_index problem))
        || not (is_at (last order) (end_location_index problem))
    then err SolverError.invalid_visit_order
    else check_marks problem.locations
        (mark_all location_count (replicate location_count false) order)

-- The running values of the loop over the edges of a route.
pub record Progress : Type 0 where
  pub time_slot : ℕ
  pub travel_minutes : ℕ
  pub wait_minutes : ℕ

-- One round of the loop over `windows(2)`; `none` is the `return None` of the round. The read of
-- the location is an index that panics out of range: a validated order has none such.
unfoldable pub simulate_edge : SolverInput → (from to : ℕ) → Progress → Option Progress
simulate_edge input from to s = do
  travel ← Matrix.travel_minutes input.matrix from to
  travel_minutes ← U32.checked_add s.travel_minutes travel
  location ← get_elem? input.problem.locations to
  arrival ← U32.checked_add s.time_slot (minutes_to_slot_ceil travel)
  let service_start = max arrival (open_slot location)
  wait ← U32.checked_mul (service_start - arrival) time_slot_minutes
  wait_minutes ← U32.checked_add s.wait_minutes wait
  finish ← U32.checked_add service_start (minutes_to_slot_ceil location.stay_minutes)
  if ltb (close_slot location) finish || leb slots_per_day finish
      then none
      else some (record {
        time_slot = finish;
        travel_minutes = travel_minutes;
        wait_minutes = wait_minutes;
      })

-- The edges of the route that goes on from `from`.
unfoldable pub simulate_edges : SolverInput → ℕ → List ℕ → Progress → Option Progress
simulate_edges input from [] s = some s
simulate_edges input from (to ∷ rest) s =
    simulate_edge input from to s >>= λ s'. simulate_edges input to rest s'

abbrev pub is_optional : OptimizationProblem → ℕ → Bool
is_optional problem index = elim (get_elem? problem.locations index) [
  | none ↦ false
  | some l ↦ not l.required
]

abbrev pub priority_of : OptimizationProblem → ℕ → ℕ
priority_of problem index = elim (get_elem? problem.locations index) [
  | none ↦ 0
  | some l ↦ l.priority
]

unfoldable pub count_optional : OptimizationProblem → List ℕ → ℕ
count_optional problem [] = 0
count_optional problem (index ∷ rest) =
    (if is_optional problem index then 1 else 0) + count_optional problem rest

-- The sum before it is cut to a `u32`.
unfoldable pub sum_priority : OptimizationProblem → List ℕ → ℕ
sum_priority problem [] = 0
sum_priority problem (index ∷ rest) =
    (if is_optional problem index then priority_of problem index else 0) + sum_priority problem rest

abbrev pub metrics_of :
    ObjectivePolicy → OptimizationProblem → List ℕ → ℕ → Progress → SolutionMetrics
metrics_of objective problem order start s = record {
  start_policy = problem.start_policy;
  visited_optional_count = count_optional problem order;
  visited_optional_priority = sum_priority problem order % 2 ^ 32;
  start_time_slot = start;
  finish_time_slot = s.time_slot % 2 ^ 16;
  travel_minutes = s.travel_minutes;
  wait_minutes = s.wait_minutes;
  score = objective.score s.travel_minutes s.wait_minutes;
}

-- The loop from the start of the route: `windows(2)` of an order that begins with `from`.
unfoldable pub simulate_route : SolverInput → List ℕ → ℕ → Option Progress
simulate_route input [] start = none
simulate_route input (from ∷ rest) start = do
  initial ← initial_service input start
  simulate_edges input from rest (record {
    time_slot = initial.departure_slot;
    travel_minutes = 0;
    wait_minutes = initial.wait_minutes;
  })

unfoldable pub simulate_solution :
    ObjectivePolicy → SolverInput → SolverSolution → ℕ → Option SolutionMetrics
unfolding simulate_route
simulate_solution objective input solution start =
    let order = solution.visit_order in
    if not (is_at (first order) (start_location_index input.problem))
      || not (is_at (last order) (end_location_index input.problem))
    then none
    else do
      s ← simulate_route input order start
      some (metrics_of objective input.problem order start s)

-- `while low < high`: the interval shrinks in each round, so `high - low` rounds are enough.
unfoldable pub search_latest : (rounds : ℕ) (feasible : ℕ → Bool) (low high : ℕ) → ℕ
search_latest zero feasible low high = low
search_latest (suc rounds) feasible low high =
    let middle = low + (high - low + 1) / 2 in
    let up = search_latest rounds feasible middle high in
    let down = search_latest rounds feasible low (middle - 1) in
    if ltb low high then (if feasible middle then up else down) else low

unfoldable pub evaluate_solution :
    ObjectivePolicy → SolverInput → SolverSolution → Result SolutionMetrics SolverError
evaluate_solution objective input solution =
    validate_visit_order input.problem solution
    >> (if not (Matrix.size input.matrix == length input.problem.locations)
        then err (
            SolverError.matrix_size_mismatch (Matrix.size input.matrix)
              (length input.problem.locations))
        else let earliest = minutes_to_slot_ceil input.problem.start_time.minutes in
          if leb slots_per_day earliest || input.cancelled
          then if input.cancelled
            then err SolverError.cancelled
            else err SolverError.no_feasible_route
          else let low = earliest % 2 ^ 16 in
            let simulate = simulate_solution objective input solution in
            if not (is_some (simulate low))
            then err SolverError.no_feasible_route
            else elim input.problem.start_policy [
              | StartPolicy.latest ↦
                  let high = slots_per_day - 1 in
                  let start = search_latest (high - low) (λ s. is_some (simulate s)) low high in
                  ok_or (simulate start) SolverError.no_feasible_route
              | _ ↦ ok_or (simulate low) SolverError.no_feasible_route
            ])

time_error_text : TimeParseError → String
time_error_text TimeParseError.invalid_format = "time must use the HH:MM format"
time_error_text TimeParseError.out_of_range = "time must be between 00:00 and 23:59"

unfoldable pub selected_start_time :
    OptimizationProblem → SolutionMetrics → Result TimeOfDay SolverError
unfolding time_error_text
selected_start_time problem metrics = elim problem.start_policy [
  | StartPolicy.latest ↦ elim (Time.from_minutes (metrics.start_time_slot * time_slot_minutes)) [
    | ok t ↦ ok t
    | err e ↦ err (SolverError.failed (time_error_text e))
  ]
  | _ ↦ ok problem.start_time
]
