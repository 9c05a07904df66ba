-- ===== src/Schedule/Outcome.antt =====
-- src/solver.rs and src/schedule.rs: the routes that a solver evaluates and those that the schedule
-- accepts.
use troute.Prelude.{
  ℕ, ◌<◌, ◌≡◌, inl, inr, Option-cases, some, ok, List, [], ◌∷◌, length, first, last, ◌-◌, true,
  Bool-cases, ◌==◌, arith,
}
use troute.Domain.{TimeOfDay, RoutePlan, IsInDay}
use troute.Domain.Time
use troute.Solver.Types.{SolverInput, SolverSolution, SolutionMetrics}
use troute.Solver.Objective.{ObjectivePolicy}
use troute.Solver.Evaluate.{
  Progress, is_at, is_lone_start, metrics_of, simulate_route, simulate_solution,
  validate_visit_order, evaluate_solution, selected_start_time,
}
use troute.Solver.Evaluate.Latest.{evaluate_solution-IsChecked}
use troute.Solver.Evaluate.Outcome.{
  evaluate_solution-latest, evaluate_solution-requested, latest_or_not,
}
use troute.Schedule.{validate_solution, calculate_schedule_from}
use troute.Schedule.Agreement.{order_simulated→scheduled, order_scheduled→simulated}
use troute.Schedule.Orders.{validate_solution_iff}
use troute.Schedule.Plan.{calculate_schedule_from-ok, validate_solution-nonempty}

module _ (objective : ObjectivePolicy) (input : SolverInput) (solution : SolverSolution) where
  simulate_solution-route :
      (s : ℕ) {m : SolutionMetrics}
      → simulate_solution objective input solution s ≡ some m
      → (p : Progress) × (simulate_route input solution.visit_order s ≡ some p)
        × (m ≡ metrics_of objective input.problem solution.visit_order s p)
  unfolding simulate_solution
  simulate_solution-route s h = elim (Option-cases (simulate_route input solution.visit_order s)) [
    | inl cut ↦ absurd (ground arith)
    | inr (p, driven) ↦ (p, driven, ground arith)
  ]

  -- A valid order that the solvers can drive from a minute of the day is scheduled from that
  -- minute, with the same travel.
  pub simulated-calculate_schedule_from :
      (start : TimeOfDay) {m : SolutionMetrics}
      → IsInDay start
      → validate_solution input.problem input.matrix solution ≡ ok tt
      → simulate_solution objective input solution start.minutes ≡ some m
      → (plan : RoutePlan) × (calculate_schedule_from input.problem input.matrix solution start
          ≡ ok plan)
        × (plan.total_travel_minutes ≡ m.travel_minutes)
  unfolding calculate_schedule_from
  simulated-calculate_schedule_from start {m} day valid h =
      let (p, driven, is) = simulate_solution-route start.minutes h in
      let (begin, more, e, e', a) =
        order_simulated→scheduled input start solution.visit_order {p = p} day driven in
      (
        record { stops = begin.0 ∷ more.0; total_travel_minutes = more.1.total_travel_minutes },
        ground arith,
        ground arith,
      )

  -- A valid order starts and ends where the simulation asks.
  ends_right :
      0 < length input.problem.locations
      → validate_visit_order input.problem solution ≡ ok tt
      → (is_at (first solution.visit_order) 0 ≡ true)
        × (is_at (last solution.visit_order) (length input.problem.locations - 1) ≡ true)
  unfolding validate_visit_order
  ends_right pos h = elim (Bool-cases (length input.problem.locations == 1)) [
    | inl lone ↦
        let none_else : length input.problem.locations - 1 ≡ 0 = ground arith in
        rw none_else (go solution.visit_order (ground arith))
    | inr many ↦ (ground arith, ground arith)
  ]
    where
      go :
          (order : List ℕ)
          → is_lone_start order ≡ true
          → (is_at (first order) 0 ≡ true) × (is_at (last order) 0 ≡ true)
      go [] e = cc
      go (i ∷ []) e = (e, e)
      go (i ∷ (j ∷ rest)) e = cc

  -- An order that the schedule accepts from a minute of the day, the solvers can drive from that
  -- minute, with the same travel.
  pub calculated-simulate_solution :
      (start : TimeOfDay) {plan : RoutePlan}
      → IsInDay start
      → 0 < length input.problem.locations
      → calculate_schedule_from input.problem input.matrix solution start ≡ ok plan
      → (m : SolutionMetrics) × (simulate_solution objective input solution start.minutes ≡ some m)
        × (plan.total_travel_minutes ≡ m.travel_minutes)
  unfolding simulate_solution
  calculated-simulate_solution start {plan} day pos h =
      let (begin, more, valid, e, e', whole) =
        calculate_schedule_from-ok input.problem input.matrix start solution h in
      let (from, rest, order) =
        validate_solution-nonempty input.problem input.matrix start solution valid in
      let (p, driven, a) =
        order_scheduled→simulated input start from rest {begin = begin} {more = more} day e
          (rw order at e') in
      let whole_order : simulate_route input solution.visit_order start.minutes ≡ some p =
        rw order driven in
      let (begins, ends) =
        ends_right pos
          ((validate_solution_iff input.problem input.matrix solution pos).0 valid).1 in
      (
        metrics_of objective input.problem solution.visit_order start.minutes p,
        rw (begins, ends) (rw whole_order),
        ground arith,
      )

  -- What a solver returns, the service can schedule: from metrics that `evaluate_solution` gives, a
  -- start is selected, and from it the schedule accepts the order, with the travel of the metrics.
  pub evaluated-calculate_schedule_from :
      {m : SolutionMetrics}
      → 0 < length input.problem.locations
      → evaluate_solution objective input solution ≡ ok m
      → (start : TimeOfDay) × (plan : RoutePlan) × (selected_start_time input.problem m ≡ ok start)
        × (calculate_schedule_from input.problem input.matrix solution start ≡ ok plan)
        × (plan.total_travel_minutes ≡ m.travel_minutes)
  unfolding selected_start_time Time.from_minutes
  evaluated-calculate_schedule_from {m} pos h =
      let c = evaluate_solution-IsChecked objective input solution h in
      let valid =
        (validate_solution_iff input.problem input.matrix solution pos).1 (c.sized, c.valid) in
      elim (latest_or_not input.problem.start_policy) [
        | inl p ↦
            let (driven, after, in_day) = evaluate_solution-latest objective input solution p h in
            let start : TimeOfDay = record { minutes = m.start_time_slot } in
            let (plan, made, travel) =
              simulated-calculate_schedule_from start {m = m} in_day valid driven in
            (start, plan, rw p (ground arith), made, travel)
        | inr p ↦
            let driven = ((evaluate_solution-requested objective input solution m p).0 h).1 in
            let start = input.problem.start_time in
            let (plan, made, travel) =
              simulated-calculate_schedule_from start {m = m} c.in_day valid driven in
            (start, plan, ground arith, made, travel)
      ]
