-- ===== src/Solver/Evaluate/Latest.antt =====
-- The search for the latest start, and what `evaluate_solution` returns.
use troute.Prelude.{
  ℕ, zero, suc, ◌+◌, ◌-◌, ◌/◌, ◌%◌, ◌^◌, ◌≤◌, ◌<◌, ◌≡◌, ◌≢◌, inl, inr, Bool, true, false, ltb,
  Bool-cases, Option-cases, some, ok, err, ok_or, if◌then◌else◌, length, arith,
}
use troute.Prelude.Options.{is_some}
use troute.Domain.{StartPolicy}
use troute.Matrix
use troute.Solver.Types.{SolverInput, SolverSolution, SolutionMetrics, SolverError}
use troute.Solver.Objective.{ObjectivePolicy}
use troute.Solver.Transition.{slots_per_day, minutes_to_slot_ceil}
use troute.Solver.Evaluate.{
  search_latest, simulate_solution, evaluate_solution, validate_visit_order,
}
use troute.Solver.Evaluate.Monotone.{simulate_solution_mono}

-- A test that holds at `low` and, where it fails, fails from there on: the search returns the
-- last number up to `high` at which it holds.
pub search_latest_lem :
    (rounds : ℕ) (feasible : ℕ → Bool) (low high : ℕ)
    → high - low ≤ rounds
    → low ≤ high
    → feasible low ≡ true
    → ((s t : ℕ) → s ≤ t → feasible t ≡ true → feasible s ≡ true)
    → (low ≤ search_latest rounds feasible low high)
      × (search_latest rounds feasible low high ≤ high)
      × (feasible (search_latest rounds feasible low high) ≡ true)
      × ((s : ℕ) → search_latest rounds feasible low high < s → s ≤ high → feasible s ≡ false)
unfolding search_latest
search_latest_lem zero feasible low high fuel order here mono =
    (omega arith, order, here, λ s a b. absurd (omega arith))
search_latest_lem (suc rounds) feasible low high fuel order here mono =
    elim (Bool-cases (ltb low high)) [
      | inr done ↦ rw done (omega arith, order, here, λ s a b. absurd (ground arith))
      | inl open_ ↦
          let middle : ℕ = low + (high - low + 1) / 2 in
          elim (Bool-cases (feasible middle)) [
            | inl up ↦
                let (a, b, c, d) =
                  search_latest_lem rounds feasible middle high (ground arith) (ground arith) up
                    mono in
                rw open_ (rw up (ground arith, b, c, d))
            | inr down ↦
                let (a, b, c, d) =
                  search_latest_lem rounds feasible low (middle - 1) (ground arith) (ground arith)
                    here mono in
                rw open_
                  (rw down (a, ground arith, c, λ s gt le. ground (arith, d s, mono middle s)))
          ]
    ]

-- The metrics of a simulated route carry the start that was simulated and the problem's policy.
pub simulate_solution-start :
    (objective : ObjectivePolicy) (input : SolverInput) (solution : SolverSolution) (s : ℕ)
    {m : SolutionMetrics}
    → simulate_solution objective input solution s ≡ some m
    → (m.start_time_slot ≡ s) × (m.start_policy ≡ input.problem.start_policy)
unfolding simulate_solution
simulate_solution-start objective input solution s h = ground arith

module _ (objective : ObjectivePolicy) (input : SolverInput) (solution : SolverSolution) where
  -- The route can be driven from the minute `s`.
  abbrev pub feasible_at : ℕ → Bool
  feasible_at s = is_some (simulate_solution objective input solution s)

  pub feasible_at_mono : (s t : ℕ) → s ≤ t → feasible_at t ≡ true → feasible_at s ≡ true
  feasible_at_mono s t le h = elim (Option-cases (simulate_solution objective input solution t)) [
    | inl cut ↦ absurd (ground arith)
    | inr (late, driven) ↦
        let (early, e, _, _) = simulate_solution_mono objective input solution s t le driven in rw e
  ]

  -- The checks that `evaluate_solution` makes before it simulates.
  pub record IsChecked : Type 0 where
    pub valid : validate_visit_order input.problem solution ≡ ok tt
    pub sized : Matrix.size input.matrix ≡ length input.problem.locations
    pub running : input.cancelled ≡ false
    pub in_day : input.problem.start_time.minutes < slots_per_day

  pub evaluate_solution-IsChecked :
      {m : SolutionMetrics} → evaluate_solution objective input solution ≡ ok m → IsChecked
  unfolding evaluate_solution
  evaluate_solution-IsChecked h = record {
    valid = ground arith;
    sized = ground arith;
    running = ground arith;
    in_day = ground arith;
  }

  abbrev pub latest_start : ℕ
  latest_start =
      search_latest (slots_per_day - 1 - input.problem.start_time.minutes) feasible_at
        input.problem.start_time.minutes (slots_per_day - 1)

  pub evaluate_solution_checked :
      IsChecked
      → input.problem.start_policy ≡ StartPolicy.latest
      → evaluate_solution objective input solution ≡ (
          if feasible_at input.problem.start_time.minutes
          then ok_or
              (simulate_solution objective input solution latest_start)
              SolverError.no_feasible_route
          else err SolverError.no_feasible_route)
  unfolding evaluate_solution
  evaluate_solution_checked c p =
      let slot : minutes_to_slot_ceil input.problem.start_time.minutes % 2 ^ 16
          ≡ input.problem.start_time.minutes =
        omega arith in
      rw (c.valid, p) (rw slot (ground arith))

  pub evaluate_solution_early :
      IsChecked
      → input.problem.start_policy ≢ StartPolicy.latest
      → evaluate_solution objective input solution
        ≡ ok_or
            (simulate_solution objective input solution input.problem.start_time.minutes)
            SolverError.no_feasible_route
  unfolding evaluate_solution
  evaluate_solution_early c p =
      let slot : minutes_to_slot_ceil input.problem.start_time.minutes % 2 ^ 16
          ≡ input.problem.start_time.minutes =
        omega arith in
      rw c.valid (rw slot (ground arith))
