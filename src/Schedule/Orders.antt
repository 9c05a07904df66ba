-- ===== src/Schedule/Orders.antt =====
-- src/solver.rs and src/schedule.rs: the two checks of a visit order, which mark the fixed
-- endpoints at different times.
use troute.Prelude.{
  ℕ, ◌-◌, ◌<◌, ◌≡◌, ◌≢◌, ◌↔◌, inl, inr, Bool-cases, Option-cases, Bool, true, false, not, ltb, ◌==◌,
  ◌||◌, ◌&&◌, some, ok, List, [], ◌∷◌, length, set, replicate, first, last, length-replicate, arith,
}
use troute.Domain.{OptimizationProblem}
use troute.Matrix
use troute.Matrix.{TravelTimeMatrix}
use troute.Solver.Types.{SolverSolution}
use troute.Solver.Evaluate.{is_at, is_all_required, mark_all, validate_visit_order}
use troute.Schedule.{validate_solution, any_unseen, interior}
use troute.Schedule.Marks.{
  count_unseen-replicate, any_unseen-count, count_unseen-mark_all, mark_all-interior,
}

module _ (problem : OptimizationProblem) (matrix : TravelTimeMatrix)
    (solution : SolverSolution) where
  -- The early tests, which the two checks share.
  ends_wrong : Bool
  ends_wrong =
      (is_all_required problem.visit_policy
        && not (length solution.visit_order == length problem.locations))
      || ltb (length solution.visit_order) 2
      || not (is_at (first solution.visit_order) 0)
      || not (is_at (last solution.visit_order) (length problem.locations - 1))

  -- With the ends right, the marks agree, and a full order of all locations leaves none unseen.
  marks_agree :
      length problem.locations ≢ 1
      → 0 < length problem.locations
      → ends_wrong ≡ false
      → mark_all
          (length problem.locations)
          (set
            (set (replicate (length problem.locations) false) 0 true)
            (length problem.locations - 1)
            true)
          (interior solution.visit_order)
        ≡ mark_all
            (length problem.locations)
            (replicate (length problem.locations) false)
            solution.visit_order
  unfolding ends_wrong
  marks_agree many pos right = go solution.visit_order right
    where
      go :
          (order : List ℕ)
          → ((is_all_required problem.visit_policy
                && not (length order == length problem.locations))
              || ltb (length order) 2
              || not (is_at (first order) 0)
              || not (is_at (last order) (length problem.locations - 1)))
            ≡ false
          → mark_all
              (length problem.locations)
              (set
                (set (replicate (length problem.locations) false) 0 true)
                (length problem.locations - 1)
                true)
              (interior order)
            ≡ mark_all (length problem.locations) (replicate (length problem.locations) false) order
      go [] h = absurd (ground arith)
      go (x ∷ []) h = absurd (ground arith)
      go (x ∷ (y ∷ rest)) h =
          mark_all-interior (length problem.locations) x y rest (omega arith) (ground arith)
            (ground arith)

  full_order :
      (seen : List Bool)
      → ends_wrong ≡ false
      → mark_all
          (length problem.locations)
          (replicate (length problem.locations) false)
          solution.visit_order
        ≡ some seen
      → (is_all_required problem.visit_policy && any_unseen seen) ≡ false
  unfolding ends_wrong
  full_order seen right h =
      let n = length problem.locations in
      let count =
        count_unseen-mark_all n (replicate n false) solution.visit_order {marked = seen}
          (length-replicate n false) h in
      let all = count_unseen-replicate n in
      elim (Bool-cases (is_all_required problem.visit_policy)) [
        | inr some_may_miss ↦ rw some_may_miss
        | inl strict ↦
            let len : length solution.visit_order ≡ n = ground arith in
            rw strict (any_unseen-count seen (omega arith))
      ]

  validate_solution-size :
      validate_solution problem matrix solution ≡ ok tt
      → Matrix.size matrix ≡ length problem.locations
  unfolding validate_solution
  validate_solution-size h = ground arith

  same_verdict :
      0 < length problem.locations
      → Matrix.size matrix ≡ length problem.locations
      → (validate_solution problem matrix solution ≡ ok tt)
        ↔ (validate_visit_order problem solution ≡ ok tt)
  unfolding validate_solution validate_visit_order ends_wrong
  same_verdict pos sized = elim (Bool-cases (length problem.locations == 1)) [
    | inl lone ↦ (ground arith, ground arith)
    | inr many ↦ elim (Bool-cases ends_wrong) [
      | inl wrong ↦ (ground arith, ground arith)
      | inr right ↦
          let agree = marks_agree (ground arith) pos right in
          elim (Option-cases (
            mark_all (length problem.locations) (replicate (length problem.locations) false)
              solution.visit_order)) [
                | inl repeated ↦ (ground arith, ground arith)
                | inr (seen, marked) ↦
                    let full = full_order seen right marked in (ground arith, ground arith)
              ]
    ]
  ]

  -- For a problem that has a location, the schedule accepts a visit order exactly where the matrix
  -- has the size of the problem and the solvers accept the order.
  pub validate_solution_iff :
      0 < length problem.locations
      → (validate_solution problem matrix solution ≡ ok tt) ↔ (
          (Matrix.size matrix ≡ length problem.locations)
          × (validate_visit_order problem solution ≡ ok tt))
  validate_solution_iff pos = (
    λ h. let sized = validate_solution-size h in (sized, (same_verdict pos sized).0 h),
    λ h. (same_verdict pos h.0).1 h.1,
  )
