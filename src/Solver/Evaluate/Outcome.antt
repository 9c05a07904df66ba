-- ===== src/Solver/Evaluate/Outcome.antt =====
-- What `evaluate_solution` returns under each start policy, and when it returns nothing.
use troute.Prelude.{
  ℕ, ◌-◌, ◌≤◌, ◌<◌, ◌≡◌, ◌≢◌, ◌↔◌, ◌⊎◌, refl, inl, inr, true, false, Bool-cases, Option-cases, none,
  some, ok, err, arith,
}
use troute.Domain.{StartPolicy}
use troute.Solver.Types.{SolverInput, SolverSolution, SolutionMetrics, SolverError}
use troute.Solver.Objective.{ObjectivePolicy}
use troute.Solver.Transition.{slots_per_day}
use troute.Solver.Evaluate.{simulate_solution, evaluate_solution}
use troute.Solver.Evaluate.Latest.{
  search_latest_lem, simulate_solution-start, feasible_at, feasible_at_mono, IsChecked,
  latest_start, evaluate_solution-IsChecked, evaluate_solution_checked, evaluate_solution_early,
}

pub latest_or_not : (p : StartPolicy) → (p ≡ StartPolicy.latest) ⊎ (p ≢ StartPolicy.latest)
latest_or_not StartPolicy.latest = inl refl
latest_or_not StartPolicy.fixed = inr (λ e. cc)
latest_or_not StartPolicy.earliest = inr (λ e. cc)

module _ (objective : ObjectivePolicy) (input : SolverInput) (solution : SolverSolution) where
  not_feasible :
      (s : ℕ)
      → feasible_at objective input solution s ≡ false
      → simulate_solution objective input solution s ≡ none
  not_feasible s h = ground arith

  feasible :
      (s : ℕ) {m : SolutionMetrics}
      → simulate_solution objective input solution s ≡ some m
      → feasible_at objective input solution s ≡ true
  feasible s h = ground arith

  -- What the search establishes from a feasible requested start.
  found_latest :
      input.problem.start_time.minutes < slots_per_day
      → feasible_at objective input solution input.problem.start_time.minutes ≡ true
      → (input.problem.start_time.minutes ≤ latest_start objective input solution)
        × (latest_start objective input solution ≤ slots_per_day - 1)
        × (feasible_at objective input solution (latest_start objective input solution) ≡ true)
        × ((s : ℕ)
            → latest_start objective input solution < s
            → s ≤ slots_per_day - 1
            → feasible_at objective input solution s ≡ false)
  found_latest day here =
      search_latest_lem (slots_per_day - 1 - input.problem.start_time.minutes)
        (feasible_at objective input solution) input.problem.start_time.minutes (slots_per_day - 1)
        (omega arith) (omega arith) here (feasible_at_mono objective input solution)

  latest_found :
      {m : SolutionMetrics}
      → input.problem.start_policy ≡ StartPolicy.latest
      → evaluate_solution objective input solution ≡ ok m
      → (simulate_solution objective input solution (latest_start objective input solution)
          ≡ some m)
        × (feasible_at objective input solution input.problem.start_time.minutes ≡ true)
        × (m.start_time_slot ≡ latest_start objective input solution)
  latest_found {m} p h =
      let c = evaluate_solution-IsChecked objective input solution h in
      let e = evaluate_solution_checked objective input solution c p in
      elim (Bool-cases (feasible_at objective input solution input.problem.start_time.minutes)) [
        | inr cut ↦ absurd (ground arith)
        | inl here ↦
            let driven : simulate_solution objective input solution
                  (latest_start objective input solution)
                ≡ some m =
              ground arith in
            (driven, here, (simulate_solution-start objective input solution _ driven).0)
      ]

  -- Under the latest policy a successful evaluation is the simulation at the start that it names,
  -- and that start is within the day and not before the requested one.
  pub evaluate_solution-latest :
      {m : SolutionMetrics}
      → input.problem.start_policy ≡ StartPolicy.latest
      → evaluate_solution objective input solution ≡ ok m
      → (simulate_solution objective input solution m.start_time_slot ≡ some m)
        × (input.problem.start_time.minutes ≤ m.start_time_slot)
        × (m.start_time_slot < slots_per_day)
  evaluate_solution-latest p h =
      let c = evaluate_solution-IsChecked objective input solution h in
      let (driven, here, same) = latest_found p h in
      let (a, b, _, _) = found_latest c.in_day here in simp same (driven, a, omega arith)

  -- Under the latest policy no minute of the day after the start that evaluation names is one from
  -- which the route can be driven.
  pub evaluate_solution_maximal :
      {m late : SolutionMetrics} (s : ℕ)
      → input.problem.start_policy ≡ StartPolicy.latest
      → evaluate_solution objective input solution ≡ ok m
      → s < slots_per_day
      → simulate_solution objective input solution s ≡ some late
      → s ≤ m.start_time_slot
  evaluate_solution_maximal s p h lt driven =
      let c = evaluate_solution-IsChecked objective input solution h in
      let (_, here, same) = latest_found p h in
      let (_, _, _, later) = found_latest c.in_day here in
      let ok_here = feasible s driven in ground (arith, later s)

  -- Under the fixed and the earliest policy, evaluation succeeds exactly where its checks pass and
  -- the route can be driven from the requested minute, with the metrics of that drive.
  pub evaluate_solution-requested :
      (m : SolutionMetrics)
      → input.problem.start_policy ≢ StartPolicy.latest
      → (evaluate_solution objective input solution ≡ ok m) ↔ (
          IsChecked objective input solution
          × (simulate_solution objective input solution input.problem.start_time.minutes ≡ some m))
  evaluate_solution-requested m p = (forth, back)
    where
      forth :
          evaluate_solution objective input solution ≡ ok m
          → IsChecked objective input solution
            × (simulate_solution objective input solution input.problem.start_time.minutes ≡ some m)
      forth h =
          let c = evaluate_solution-IsChecked objective input solution h in
          let e = evaluate_solution_early objective input solution c p in (c, ground arith)

      back :
          IsChecked objective input solution
            × (simulate_solution objective input solution input.problem.start_time.minutes ≡ some m)
          → evaluate_solution objective input solution ≡ ok m
      back (c, h) = let e = evaluate_solution_early objective input solution c p in ground arith

  returns_at :
      (s : ℕ)
      → feasible_at objective input solution s ≡ true
      → (m : SolutionMetrics) × (simulate_solution objective input solution s ≡ some m)
  returns_at s h = elim (Option-cases (simulate_solution objective input solution s)) [
    | inl cut ↦ absurd (ground arith)
    | inr found ↦ found
  ]

  -- Once its checks pass, evaluation either returns metrics, where the route can be driven from the
  -- requested minute, or reports that no route is feasible, where it cannot.
  pub evaluate_solution_total :
      IsChecked objective input solution
      → ((m : SolutionMetrics) × (evaluate_solution objective input solution ≡ ok m)
          × (feasible_at objective input solution input.problem.start_time.minutes ≡ true))
        ⊎ ((evaluate_solution objective input solution ≡ err SolverError.no_feasible_route)
            × (feasible_at objective input solution input.problem.start_time.minutes ≡ false))
  evaluate_solution_total c =
      elim (Bool-cases (feasible_at objective input solution input.problem.start_time.minutes)) [
        | inl here ↦ elim (latest_or_not input.problem.start_policy) [
          | inl p ↦
              let e = evaluate_solution_checked objective input solution c p in
              let (_, _, f, _) = found_latest c.in_day here in
              let (m, driven) = returns_at (latest_start objective input solution) f in
              inl (m, ground arith, here)
          | inr p ↦
              let e = evaluate_solution_early objective input solution c p in
              let (m, driven) = returns_at input.problem.start_time.minutes here in
              inl (m, ground arith, here)
        ]
        | inr cut ↦ elim (latest_or_not input.problem.start_policy) [
          | inl p ↦
              let e = evaluate_solution_checked objective input solution c p in
              inr (ground arith, cut)
          | inr p ↦
              let e = evaluate_solution_early objective input solution c p in
              inr (ground arith, cut)
        ]
      ]
