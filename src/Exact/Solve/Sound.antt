-- ===== src/Exact/Solve/Sound.antt =====
-- src/solver/exact/bit_dp.rs: the route that the solver returns, and the start that it chooses.
use troute.Prelude.{
  ℕ, zero, suc, ◌+◌, ◌-◌, ◌/◌, ◌%◌, ◌^◌, ◌<◌, ◌≤◌, ◌≡◌, ◌≢◌, ap, inl, inr, Bool-cases, Result-cases,
  Bool, true, false, ltb, none, some, Ordering, Result, ok, length, arith,
}
use troute.Prelude.Results.{◌>>=◌}
use troute.Domain.{StartPolicy}
use troute.Matrix
use troute.Solver.Types.{
  SolverInput, SolverSolution, SolutionMetrics, SolverError, exact_max_locations,
}
use troute.Solver.Objective.{ObjectivePolicy, default_objective_policy, default_compare}
use troute.Solver.Transition.{minutes_to_slot_ceil, slots_per_day}
use troute.Solver.Evaluate.{is_optional, simulate_solution, validate_visit_order}
use troute.Solver.Evaluate.Outcome.{latest_or_not}
use troute.Exact.{FrontierPolicy, ExactSolveResult, time_cost_frontier_policy}
use troute.Exact.Search.{search_at_start, is_partial}
use troute.Exact.Search.Prefixes.{Fits}
use troute.Exact.Search.Sound.{search_at_start-IsSound}
use troute.Exact.Search.Optimal.{search_at_start_optimal}
use troute.Exact.Solve.{
  validate, latest_start, preserves_target, is_feasible_at_start, solve_at, solve_best_effort,
  solve_latest, solve_from, solve_detailed,
}

-- The start that the halving finds stays between the bounds.
latest_start_bounds :
    (rounds : ℕ) (feasible : ℕ → Result Bool SolverError) (low high : ℕ) {start : ℕ}
    → low ≤ high
    → latest_start rounds feasible low high ≡ ok start
    → (low ≤ start) × (start ≤ high)
unfolding latest_start
latest_start_bounds zero feasible low high order h = ground arith
latest_start_bounds (suc rounds) feasible low high {start} order h =
    elim (Bool-cases (ltb low high)) [
      | inr done ↦ ground arith
      | inl open_ ↦
          let middle : ℕ = low + (high - low + 1) / 2 in
          elim (Result-cases (feasible middle)) [
            | inr (e, failed) ↦ absurd (ground arith)
            | inl (b, answered) ↦ elim (Bool-cases b) [
              | inl up ↦
                  let rest =
                    latest_start_bounds rounds feasible middle high {start = start} (ground arith)
                      (ground arith) in
                  ground arith
              | inr down ↦
                  let rest =
                    latest_start_bounds rounds feasible low (middle - 1) {start = start}
                      (ground arith) (ground arith) in
                  ground arith
            ]
          ]
    ]

module _ (objective : ObjectivePolicy) (policy : FrontierPolicy) (input : SolverInput) where
  -- A start within the day and not before the requested one, with its result.
  pub record StartsAt (result : ExactSolveResult) : Type 0 where
    pub start : ℕ
    pub not_early : input.problem.start_time.minutes ≤ start
    pub in_day : start < slots_per_day
    pub found : search_at_start objective input policy start ≡ ok (some result)

  solve_at_inv :
      (start : ℕ) {result : ExactSolveResult}
      → solve_at objective policy input start ≡ ok result
      → search_at_start objective input policy start ≡ ok (some result)
  solve_at_inv start {result} h =
      elim (Result-cases (search_at_start objective input policy start)) [
        | inr (e, failed) ↦ absurd (ground arith)
        | inl (none, missing) ↦ absurd (ground arith)
        | inl (some r, found) ↦ ground arith
      ]

  StartsAt-latest_start :
      (rounds : ℕ) (feasible : ℕ → Result Bool SolverError) (low : ℕ) {result : ExactSolveResult}
      → input.problem.start_time.minutes ≤ low
      → low < slots_per_day
      → (latest_start rounds feasible low (slots_per_day - 1) >>= solve_at objective policy input)
        ≡ ok result
      → StartsAt result
  StartsAt-latest_start rounds feasible low {result} early day h =
      elim (Result-cases (latest_start rounds feasible low (slots_per_day - 1))) [
        | inr (e, failed) ↦ absurd (ground arith)
        | inl (start, chosen) ↦
            let (lo, hi) =
              latest_start_bounds rounds feasible low (slots_per_day - 1) (omega arith) chosen in
            record {
              start = start;
              not_early = omega arith;
              in_day = omega arith;
              found = solve_at_inv start (ground arith);
            }
      ]

  -- What the solver checks before it searches.
  pub record IsAccepted : Type 0 where
    pub running : input.cancelled ≡ false
    pub nonempty : 0 < length input.problem.locations
    pub few : length input.problem.locations ≤ exact_max_locations
    pub sized : Matrix.size input.matrix ≡ length input.problem.locations

  validate_lem : validate input ≡ ok tt → IsAccepted
  unfolding validate
  validate_lem h = record {
    running = ground arith;
    nonempty = ground arith;
    few = ground arith;
    sized = ground arith;
  }

  validate-IsAccepted : IsAccepted → validate input ≡ ok tt
  unfolding validate
  validate-IsAccepted a = ground (arith, a.running, a.nonempty, a.few, a.sized)

  solve_best_effort-StartsAt :
      (low : ℕ) {result : ExactSolveResult}
      → input.problem.start_time.minutes ≤ low
      → low < slots_per_day
      → solve_best_effort objective policy input low ≡ ok result
      → StartsAt result
  unfolding solve_best_effort
  solve_best_effort-StartsAt low {result} early day h =
      elim (Result-cases (solve_at objective policy input low)) [
        | inr (e, failed) ↦ absurd (ground arith)
        | inl (target, found) ↦
            StartsAt-latest_start (slots_per_day - 1 - low)
              (λ middle. search_at_start objective input policy middle >>= λ r.
                ok (preserves_target target.metrics r))
              low early day (ground arith)
      ]

  solve_latest-StartsAt :
      (low : ℕ) {result : ExactSolveResult}
      → input.problem.start_time.minutes ≤ low
      → low < slots_per_day
      → solve_latest objective policy input low ≡ ok result
      → StartsAt result
  unfolding solve_latest
  solve_latest-StartsAt low {result} early day h =
      elim (Result-cases (is_feasible_at_start objective input low)) [
        | inr (e, failed) ↦ absurd (ground arith)
        | inl (false, shut) ↦ absurd (ground arith)
        | inl (true, feasible) ↦
            StartsAt-latest_start (slots_per_day - 1 - low) (is_feasible_at_start objective input)
              low early day (ground arith)
      ]

  -- After the checks, by the start policy.
  solve_detailed_accepted :
      IsAccepted
      → input.problem.start_time.minutes < slots_per_day
      → solve_detailed objective policy input
        ≡ solve_from objective policy input input.problem.start_time.minutes
  unfolding solve_detailed
  solve_detailed_accepted a day =
      let slot : minutes_to_slot_ceil input.problem.start_time.minutes % 2 ^ 16
          ≡ input.problem.start_time.minutes =
        omega arith in
      let passed = validate-IsAccepted a in
      let branch = ap (solve_from objective policy input) slot in ground arith

  solve_detailed-IsAccepted :
      {result : ExactSolveResult}
      → solve_detailed objective policy input ≡ ok result
      → IsAccepted × (input.problem.start_time.minutes < slots_per_day)
  unfolding solve_detailed
  solve_detailed-IsAccepted {result} h = elim (Result-cases (validate input)) [
    | inr (e, failed) ↦ absurd (ground arith)
    | inl (u, passed) ↦ (validate_lem passed, ground arith)
  ]

  -- A result of the solver is the result of the search from a start of the day that is not before
  -- the requested one.
  solve_detailed-StartsAt :
      {result : ExactSolveResult}
      → solve_detailed objective policy input ≡ ok result
      → IsAccepted × StartsAt result
  unfolding solve_from
  solve_detailed-StartsAt {result} h =
      let (a, day) = solve_detailed-IsAccepted h in
      let e = solve_detailed_accepted a day in
      let low : ℕ = input.problem.start_time.minutes in
      elim (latest_or_not input.problem.start_policy) [
        | inr early ↦
            let found = solve_at_inv low (ground arith) in
            (a, record { start = low; not_early = omega arith; in_day = day; found = found })
        | inl latest ↦ elim (Bool-cases (is_partial objective input)) [
          | inl part ↦ (a, solve_best_effort-StartsAt low (omega arith) day (ground arith))
          | inr all ↦ (a, solve_latest-StartsAt low (omega arith) day (ground arith))
        ]
      ]

  -- What the solver returns, where the start location is required: a valid visit order and a start
  -- of the day, not before the requested one, such that driving the order from that start gives
  -- exactly the metrics returned.
  pub solve_detailed-IsSound :
      {result : ExactSolveResult}
      → is_optional input.problem 0 ≡ false
      → solve_detailed objective policy input ≡ ok result
      → (start : ℕ) × (input.problem.start_time.minutes ≤ start)
        × (start < slots_per_day)
        × (validate_visit_order input.problem result.solution ≡ ok tt)
        × (simulate_solution objective input result.solution start ≡ some result.metrics)
  solve_detailed-IsSound required h =
      let (a, s) = solve_detailed-StartsAt h in
      let sound =
        search_at_start-IsSound objective input s.start policy
          (record { nonempty = a.nonempty; required = required }) s.found in
      (s.start, s.not_early, s.in_day, sound.valid, sound.driven)

module _ (input : SolverInput) where
  -- Under the fixed and the earliest policy the solver is exact: with the default objective and
  -- frontier, on an input that passes the checks, whose start location is required, whose optional
  -- priorities fit a `u32` together and whose start is within the day, every valid visit order that
  -- can be driven from the requested start makes it return a result that does not compare as worse.
  pub solve_detailed_optimal :
      (solution : SolverSolution) {m : SolutionMetrics}
      → input.problem.start_policy ≢ StartPolicy.latest
      → IsAccepted default_objective_policy time_cost_frontier_policy input
      → input.problem.start_time.minutes < slots_per_day
      → is_optional input.problem 0 ≡ false
      → Fits input
      → validate_visit_order input.problem solution ≡ ok tt
      → simulate_solution default_objective_policy input solution input.problem.start_time.minutes
        ≡ some m
      → (result : ExactSolveResult) × (solve_detailed default_objective_policy
            time_cost_frontier_policy input
          ≡ ok result)
        × (default_compare result.metrics m ≢ Ordering.gt)
  unfolding solve_from
  solve_detailed_optimal solution early a day required fits valid driven =
      let e =
        solve_detailed_accepted default_objective_policy time_cost_frontier_policy input a day in
      let (result, found, best) =
        search_at_start_optimal input input.problem.start_time.minutes solution
          (record { nonempty = a.nonempty; required = required }) fits a.running valid driven in
      (result, ground arith, best)
