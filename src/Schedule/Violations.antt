-- ===== src/Schedule/Violations.antt =====
-- The reports of a time window that cannot be kept.
use troute.Prelude.{
  ℕ, ◌+◌, ◌-◌, ◌≤◌, ◌<◌, max, ◌==◌, ◌≡◌, ◌⊎◌, inl, inr, true, false, Option-cases, Result-cases,
  some, err, ok, List, [], ◌∷◌, get_elem?, arith,
}
use troute.Prelude.U32
use troute.Domain.{
  TimeOfDay, Location, OptimizationProblem, ScheduledStop, start_location, start_location_index,
  end_location_index, minutes_per_day,
}
use troute.Domain.Time
use troute.Matrix
use troute.Matrix.{TravelTimeMatrix}
use troute.Schedule.{
  Violation, ScheduleError, Clock, schedule_edge, schedule_start, schedule_edges, schedule_order,
  validate_solution, calculate_schedule_from,
}
use troute.Schedule.Plan.{
  IsVisit, schedule_start-IsVisit, schedule_edge-IsVisit, validate_solution-nonempty,
}
use troute.Solver.Types.{SolverSolution}

-- The visitor comes to the place `l` at the minute `arrival` and cannot leave it in time, as the
-- report says: the place is named, with its closing time and its stay; the service starts at the
-- arrival or, where that is later, at the opening; the stay would end within the day, but after the
-- place closes. A stay that ends in time is at most the suggested one, which ends in time itself, or
-- is 0 where the place closes before the service starts, and which is shorter than a positive stay.
pub record IsLate (l : Location) (arrival : ℕ) (v : Violation) : Type 0 where
  pub named : v.location_id ≡ l.id
  pub arrives : v.arrival_time.minutes ≡ arrival
  pub served : v.service_start_time.minutes ≡ max arrival l.time_window.opens.minutes
  pub closes : v.close_time ≡ l.time_window.closes
  pub stays : v.current_stay_minutes ≡ l.stay_minutes
  pub departs : v.required_departure.minutes ≡ v.service_start_time.minutes + l.stay_minutes
  pub in_day : v.required_departure.minutes < minutes_per_day
  pub too_late : l.time_window.closes.minutes < v.required_departure.minutes
  pub longest :
      (stay : ℕ)
      → v.service_start_time.minutes + stay ≤ l.time_window.closes.minutes
      → stay ≤ v.suggested_max_stay_minutes
  pub ends :
      (v.service_start_time.minutes + v.suggested_max_stay_minutes ≤ l.time_window.closes.minutes)
      ⊎ ((l.time_window.closes.minutes < v.service_start_time.minutes)
          × (v.suggested_max_stay_minutes ≡ 0))
  pub shorter : 0 < l.stay_minutes → v.suggested_max_stay_minutes < l.stay_minutes

-- The visitor leaves `from` at `time`, having waited `waited` minutes so far, and drives the order
-- `rest…` up to the first place that cannot be left in time, which is the one of the report.
pub data Fails (problem : OptimizationProblem) (matrix : TravelTimeMatrix) (v : Violation)
    : ℕ → ℕ → ℕ → List ℕ → Type 0 where
  here :
      {from to time waited minutes : ℕ} {rest : List ℕ} {l : Location}
      → Matrix.travel_minutes matrix from to ≡ some minutes
      → get_elem? problem.locations to ≡ some l
      → IsLate l (time + minutes) v
      → v.total_wait_minutes_before_violation
        ≡ U32.saturating_add waited (v.service_start_time.minutes - v.arrival_time.minutes)
      → v.is_start ≡ false
      → v.is_destination ≡ (to == end_location_index problem)
      → Fails problem matrix v from time waited (to ∷ rest)
  further :
      {from to time waited minutes : ℕ} {rest : List ℕ} {l : Location} {stop : ScheduledStop}
      {departure : TimeOfDay}
      → Matrix.travel_minutes matrix from to ≡ some minutes
      → get_elem? problem.locations to ≡ some l
      → IsVisit l to (time + minutes) stop departure
      → Fails problem matrix v to departure.minutes
          (U32.saturating_add waited stop.wait_minutes)
          rest
      → Fails problem matrix v from time waited (to ∷ rest)

-- The report of an order that is begun at `start`: the visitor is late at the start location
-- already, or leaves it in time and is late at a later place of the order.
pub data IsReport (problem : OptimizationProblem) (matrix : TravelTimeMatrix) (start : TimeOfDay)
    (order : List ℕ) (v : Violation) : Type 0 where
  at_start :
      {home : Location}
      → start_location problem ≡ some home
      → v.selected_start_time ≡ start
      → IsLate home start.minutes v
      → v.total_wait_minutes_before_violation ≡ v.service_start_time.minutes - start.minutes
      → v.is_start ≡ true
      → v.is_destination ≡ (start_location_index problem == end_location_index problem)
      → IsReport problem matrix start order v
  on_the_way :
      {home : Location} {begin : ScheduledStop} {departure : TimeOfDay} {from : ℕ} {rest : List ℕ}
      → start_location problem ≡ some home
      → v.selected_start_time ≡ start
      → IsVisit home 0 start.minutes begin departure
      → order ≡ from ∷ rest
      → Fails problem matrix v from departure.minutes begin.wait_minutes rest
      → IsReport problem matrix start order v

-- What the suggestion is good for follows from what it is.
IsLate-of :
    (l : Location) (arrival : ℕ) (v : Violation)
    → v.location_id ≡ l.id
    → v.arrival_time.minutes ≡ arrival
    → v.service_start_time.minutes ≡ max arrival l.time_window.opens.minutes
    → v.close_time ≡ l.time_window.closes
    → v.current_stay_minutes ≡ l.stay_minutes
    → v.required_departure.minutes ≡ v.service_start_time.minutes + l.stay_minutes
    → v.required_departure.minutes < minutes_per_day
    → l.time_window.closes.minutes < v.required_departure.minutes
    → v.suggested_max_stay_minutes ≡ l.time_window.closes.minutes - v.service_start_time.minutes
    → IsLate l arrival v
IsLate-of l arrival v named arrives served closes stays departs in_day too_late suggested = record {
  named = named;
  arrives = arrives;
  served = served;
  closes = closes;
  stays = stays;
  departs = departs;
  in_day = in_day;
  too_late = too_late;
  longest = λ stay fits. omega arith;
  ends = ground arith;
  shorter = λ pos. omega arith;
}

module _ (problem : OptimizationProblem) (matrix : TravelTimeMatrix) (start_time : TimeOfDay) where
  schedule_edge-IsLate :
      (from to : ℕ) (c : Clock) {v : Violation}
      → schedule_edge problem matrix start_time from to c
        ≡ err (ScheduleError.time_window_violation v)
      → (l : Location) × (minutes : ℕ) × (Matrix.travel_minutes matrix from to ≡ some minutes)
        × (get_elem? problem.locations to ≡ some l)
        × IsLate l (c.current_time.minutes + minutes) v
        × (v.total_wait_minutes_before_violation
            ≡ U32.saturating_add c.total_wait_minutes
                (v.service_start_time.minutes - v.arrival_time.minutes))
        × (v.is_start ≡ false)
        × (v.is_destination ≡ (to == end_location_index problem))
        × (v.selected_start_time ≡ start_time)
  unfolding schedule_edge Time.checked_add
  schedule_edge-IsLate from to c {v} h =
      elim (Option-cases (Matrix.travel_minutes matrix from to)) [
        | inl cut ↦ absurd (ground arith)
        | inr (minutes, arc) ↦ elim (Option-cases (get_elem? problem.locations to)) [
          | inl missing ↦ absurd (ground arith)
          | inr (l, found) ↦ (
            l,
            minutes,
            arc,
            found,
            IsLate-of l (c.current_time.minutes + minutes) v (ground arith) (ground arith)
                (ground arith) (ground arith) (ground arith) (ground arith) (ground arith)
                (ground arith) (ground arith),
            ground arith,
            ground arith,
            ground arith,
            ground arith,
          )
        ]
      ]

  schedule_edge-waited :
      (from to : ℕ) (c : Clock) {stop : ScheduledStop} {c' : Clock}
      → schedule_edge problem matrix start_time from to c ≡ ok (stop, c')
      → c'.total_wait_minutes ≡ U32.saturating_add c.total_wait_minutes stop.wait_minutes
  unfolding schedule_edge Time.checked_add
  schedule_edge-waited from to c h = ground arith

  schedule_start-waited :
      {stop : ScheduledStop} {c : Clock}
      → schedule_start problem start_time ≡ ok (stop, c)
      → c.total_wait_minutes ≡ stop.wait_minutes
  unfolding schedule_start Time.checked_add
  schedule_start-waited h = ground arith

  schedule_start-IsReport :
      (order : List ℕ) {v : Violation}
      → schedule_start problem start_time ≡ err (ScheduleError.time_window_violation v)
      → IsReport problem matrix start_time order v
  unfolding schedule_start Time.checked_add
  schedule_start-IsReport order {v} h = elim (Option-cases (start_location problem)) [
    | inl missing ↦ absurd (ground arith)
    | inr (home, found) ↦
        at_start found (ground arith)
          (IsLate-of home start_time.minutes v (ground arith) (ground arith) (ground arith)
            (ground arith) (ground arith) (ground arith) (ground arith) (ground arith)
            (ground arith))
          (ground arith) (ground arith) (ground arith)
  ]

  schedule_edges-Fails :
      (from : ℕ) (rest : List ℕ) (c : Clock) {v : Violation}
      → schedule_edges problem matrix start_time from rest c
        ≡ err (ScheduleError.time_window_violation v)
      → Fails problem matrix v from c.current_time.minutes c.total_wait_minutes rest
        × (v.selected_start_time ≡ start_time)
  unfolding schedule_edges
  schedule_edges-Fails from [] c h = cc
  schedule_edges-Fails from (to ∷ rest) c {v} h =
      elim (Result-cases (schedule_edge problem matrix start_time from to c)) [
        | inr (e, failed) ↦
            let (l, minutes, arc, found, late, waited, no_start, destination, started) =
              schedule_edge-IsLate from to c {v = v} (ground arith) in
            (here arc found late waited no_start destination, started)
        | inl (step, went) ↦
            let (l, minutes, arc, found, visited, spent) =
              schedule_edge-IsVisit problem matrix start_time from to c {stop = step.0}
                {c' = step.1} went in
            let waited = schedule_edge-waited from to c {stop = step.0} {c' = step.1} went in
            let (fails, started) = schedule_edges-Fails to rest step.1 {v = v} (ground arith) in
            (further arc found visited (rw waited at fails), started)
      ]

  validate_solution-no_violation :
      (solution : SolverSolution) {v : Violation}
      → validate_solution problem matrix solution ≡ err (ScheduleError.time_window_violation v)
      → ⊥
  unfolding validate_solution
  validate_solution-no_violation solution h = ground arith

  -- A time window violation that the calculation reports is true: from the given start the visitor
  -- drives the order up to the place of the report, leaving every earlier place in time, and arrives,
  -- is served and has waited as reported; the stay there would end after the place closes, and the
  -- suggested stay is the longest that ends in time, or 0 where the place closes before the service.
  pub calculate_schedule_from-IsReport :
      (solution : SolverSolution) {v : Violation}
      → calculate_schedule_from problem matrix solution start_time
        ≡ err (ScheduleError.time_window_violation v)
      → IsReport problem matrix start_time solution.visit_order v
  unfolding calculate_schedule_from schedule_order
  calculate_schedule_from-IsReport solution {v} h =
      elim (Result-cases (validate_solution problem matrix solution)) [
        | inr (e, refused) ↦ absurd (validate_solution-no_violation solution {v = v} (ground arith))
        | inl (_, valid) ↦ elim (Result-cases (schedule_start problem start_time)) [
          | inr (e, failed) ↦ schedule_start-IsReport solution.visit_order {v = v} (ground arith)
          | inl (begin, started) ↦
              let (from, rest, order) =
                validate_solution-nonempty problem matrix start_time solution valid in
              let (home, at_home, visited, nothing_yet) =
                schedule_start-IsVisit problem matrix start_time {stop = begin.0} {c = begin.1}
                  started in
              let waited = schedule_start-waited {stop = begin.0} {c = begin.1} started in
              let (fails, begun) =
                schedule_edges-Fails from rest begin.1 {v = v} (ground (arith, order)) in
              on_the_way at_home begun visited order (rw waited at fails)
        ]
      ]
