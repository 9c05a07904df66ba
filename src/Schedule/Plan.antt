-- ===== src/Schedule/Plan.antt =====
-- What a computed plan is, stated without the code: every stop is reached from the one before by
-- an arc of the matrix, served inside its opening hours and left after the stay.
use troute.Prelude.{
  ℕ, ◌+◌, ◌≤◌, ◌<◌, max, ◌≡◌, refl, inl, inr, Option-cases, Result-cases, some, ok, List, [], ◌∷◌,
  get_elem?, arith,
}
use troute.Domain.{
  TimeOfDay, Location, OptimizationProblem, ScheduledStop, RoutePlan, start_location,
  minutes_per_day,
}
use troute.Domain.Time
use troute.Matrix
use troute.Matrix.{TravelTimeMatrix}
use troute.Solver.Types.{SolverSolution}
use troute.Schedule.{
  Clock, schedule_edge, schedule_edges, schedule_start, schedule_order, validate_solution,
  calculate_schedule_from,
}

-- The visitor comes to the place `l` at the minute `arrival`: the stop that follows.
pub record IsVisit (l : Location) (index arrival : ℕ) (stop : ScheduledStop) (departure : TimeOfDay)
    : Type 0 where
  pub indexed : stop.location_index ≡ index
  pub arrives : stop.arrival_time.minutes ≡ arrival
  pub served : stop.service_start_time.minutes ≡ max arrival l.time_window.opens.minutes
  pub waits : arrival + stop.wait_minutes ≡ stop.service_start_time.minutes
  pub stays : stop.stay_minutes ≡ l.stay_minutes
  pub left : stop.departure_time ≡ some departure
  pub departs : departure.minutes ≡ stop.service_start_time.minutes + l.stay_minutes
  pub in_time : departure.minutes ≤ l.time_window.closes.minutes
  pub in_day : departure.minutes < minutes_per_day

-- The stops that drive the order `from, rest…`, with the visitor leaving `from` at `time`; the
-- last departure is `finish` and the arcs take `travel` minutes in all.
pub data Drives (problem : OptimizationProblem) (matrix : TravelTimeMatrix) (finish : ℕ)
    : ℕ → ℕ → List ℕ → List ScheduledStop → ℕ → Type 0 where
  arrived : (from : ℕ) → Drives problem matrix finish from finish [] [] 0
  visit :
      {from to time minutes travel total : ℕ} {rest : List ℕ} {l : Location} {stop : ScheduledStop}
      {stops : List ScheduledStop} {departure : TimeOfDay}
      → Matrix.travel_minutes matrix from to ≡ some minutes
      → get_elem? problem.locations to ≡ some l
      → IsVisit l to (time + minutes) stop departure
      → Drives problem matrix finish to departure.minutes rest stops travel
      → total ≡ minutes + travel
      → Drives problem matrix finish from time (to ∷ rest) (stop ∷ stops) total

-- A plan for a whole order from the minute `start`.
pub record IsPlan (problem : OptimizationProblem) (matrix : TravelTimeMatrix) (start : ℕ)
    (order : List ℕ) (plan : RoutePlan) : Type 0 where
  pub begin : ScheduledStop
  pub stops : List ScheduledStop
  pub from : ℕ
  pub rest : List ℕ
  pub home : Location
  pub departure : TimeOfDay
  pub finish : ℕ
  pub split_stops : plan.stops ≡ begin ∷ stops
  pub split_order : order ≡ from ∷ rest
  pub at_home : start_location problem ≡ some home
  pub started : IsVisit home 0 start begin departure
  pub driven :
      Drives problem matrix finish from departure.minutes rest stops plan.total_travel_minutes

module _ (problem : OptimizationProblem) (matrix : TravelTimeMatrix) (start_time : TimeOfDay) where
  pub schedule_start-IsVisit :
      {stop : ScheduledStop} {c : Clock}
      → schedule_start problem start_time ≡ ok (stop, c)
      → (l : Location) × (start_location problem ≡ some l)
        × IsVisit l 0 start_time.minutes stop c.current_time
        × (c.total_travel_minutes ≡ 0)
  unfolding schedule_start Time.checked_add
  schedule_start-IsVisit {stop} {c} h = elim (Option-cases (start_location problem)) [
    | inl missing ↦ absurd (ground arith)
    | inr (l, found) ↦ (l, found, ground arith, ground arith)
  ]

  pub schedule_edge-IsVisit :
      (from to : ℕ) (c : Clock) {stop : ScheduledStop} {c' : Clock}
      → schedule_edge problem matrix start_time from to c ≡ ok (stop, c')
      → (l : Location) × (minutes : ℕ) × (Matrix.travel_minutes matrix from to ≡ some minutes)
        × (get_elem? problem.locations to ≡ some l)
        × IsVisit l to (c.current_time.minutes + minutes) stop c'.current_time
        × (c'.total_travel_minutes ≡ c.total_travel_minutes + minutes)
  unfolding schedule_edge Time.checked_add
  schedule_edge-IsVisit from to c {stop} {c'} h =
      elim (Option-cases (Matrix.travel_minutes matrix from to)) [
        | inl cut ↦ absurd (ground arith)
        | inr (minutes, arc) ↦ elim (Option-cases (get_elem? problem.locations to)) [
          | inl missing ↦ absurd (ground arith)
          | inr (l, found) ↦ (l, minutes, arc, found, ground arith, ground arith)
        ]
      ]

  schedule_edges-Drives :
      (from : ℕ) (rest : List ℕ) (c : Clock) {stops : List ScheduledStop} {c' : Clock}
      → schedule_edges problem matrix start_time from rest c ≡ ok (stops, c')
      → (travel : ℕ) × (c'.total_travel_minutes ≡ c.total_travel_minutes + travel)
        × Drives problem matrix c'.current_time.minutes from c.current_time.minutes rest stops
            travel
  unfolding schedule_edges
  schedule_edges-Drives from [] c {stops} {c'} h =
      let none_left : stops ≡ [] = ground arith in
      let same : c'.current_time.minutes ≡ c.current_time.minutes = ground arith in
      (0, ground arith, rw (none_left, same) (arrived from))
  schedule_edges-Drives from (to ∷ rest) c {stops} {c'} h =
      elim (Result-cases (schedule_edge problem matrix start_time from to c)) [
        | inr (e, failed) ↦ absurd (ground arith)
        | inl (step, went) ↦
            let (l, minutes, arc, found, visited, spent) =
              schedule_edge-IsVisit from to c {stop = step.0} {c' = step.1} went in
            elim (Result-cases (schedule_edges problem matrix start_time to rest step.1)) [
              | inr (e, failed) ↦ absurd (ground arith)
              | inl (more, went_on) ↦
                  let (travel, total, driven) =
                    schedule_edges-Drives to rest step.1 {stops = more.0} {c' = more.1} went_on in
                  let all : stops ≡ step.0 ∷ more.0 = ground arith in
                  let same : c'.current_time.minutes ≡ more.1.current_time.minutes = ground arith in
                  (
                    minutes + travel,
                    ground arith,
                    rw (all, same) (visit arc found visited driven refl),
                  )
            ]
      ]

  -- The parts of a calculation that succeeds.
  pub calculate_schedule_from-ok :
      (solution : SolverSolution) {plan : RoutePlan}
      → calculate_schedule_from problem matrix solution start_time ≡ ok plan
      → (begin : ScheduledStop × Clock) × (more : List ScheduledStop × Clock) × (validate_solution
            problem matrix solution
          ≡ ok tt)
        × (schedule_start problem start_time ≡ ok begin)
        × (schedule_order problem matrix start_time solution.visit_order begin.1 ≡ ok more)
        × (plan ≡ record {
          stops = begin.0 ∷ more.0;
          total_travel_minutes = more.1.total_travel_minutes;
        })
  unfolding calculate_schedule_from
  calculate_schedule_from-ok solution {plan} h =
      elim (Result-cases (validate_solution problem matrix solution)) [
        | inr (e, refused) ↦ absurd (ground arith)
        | inl (_, valid) ↦ elim (Result-cases (schedule_start problem start_time)) [
          | inr (e, failed) ↦ absurd (ground arith)
          | inl (begin, started) ↦
              elim (Result-cases
                (schedule_order problem matrix start_time solution.visit_order begin.1)) [
                  | inr (e, failed) ↦ absurd (ground arith)
                  | inl (more, went) ↦ (begin, more, valid, started, went, ground arith)
                ]
        ]
      ]

  pub validate_solution-nonempty :
      (solution : SolverSolution)
      → validate_solution problem matrix solution ≡ ok tt
      → (from : ℕ) × (rest : List ℕ) × (solution.visit_order ≡ from ∷ rest)
  unfolding validate_solution
  validate_solution-nonempty solution h = go solution.visit_order refl
    where
      go :
          (order : List ℕ)
          → solution.visit_order ≡ order
          → (from : ℕ) × (rest : List ℕ) × (order ≡ from ∷ rest)
      go [] e = absurd (ground arith)
      go (from ∷ rest) e = (from, rest, refl)

  -- A plan that the calculation returns is a plan for the whole visit order from the given start:
  -- each stop is where the order says, reached, served and left in time, and the total is the
  -- travel of its arcs.
  pub calculate_schedule_from-IsPlan :
      (solution : SolverSolution) {plan : RoutePlan}
      → calculate_schedule_from problem matrix solution start_time ≡ ok plan
      → IsPlan problem matrix start_time.minutes solution.visit_order plan
  unfolding schedule_order
  calculate_schedule_from-IsPlan solution {plan} h =
      let (begin, more, valid, started, went, whole) = calculate_schedule_from-ok solution h in
      let (home, at_home, visited, nothing_yet) =
        schedule_start-IsVisit {stop = begin.0} {c = begin.1} started in
      let (from, rest, order) = validate_solution-nonempty solution valid in
      let (travel, total, driven) =
        schedule_edges-Drives from rest begin.1 {stops = more.0} {c' = more.1} (rw order at went) in
      let sum : travel ≡ plan.total_travel_minutes = ground arith in
      record {
        begin = begin.0;
        stops = more.0;
        from = from;
        rest = rest;
        home = home;
        departure = begin.1.current_time;
        finish = more.1.current_time.minutes;
        split_stops = ground arith;
        split_order = order;
        at_home = at_home;
        started = visited;
        driven = rw sum at driven;
      }
