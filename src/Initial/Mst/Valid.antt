-- ===== src/Initial/Mst/Valid.antt =====
-- src/solver/initial/mst.rs: the generated route against the check of a visit order.
use troute.Prelude.{ℕ, ◌≡◌, ◌<◌, ◌≤◌, subst, inl, inr, Result-cases, Result, ok, length, arith}
use troute.Solver.Types.{SolverInput, SolverSolution, SolverError}
use troute.Solver.Evaluate.{validate_visit_order}
use troute.Initial.Counts.{count}
use troute.Initial.{validate_generator_input}
use troute.Initial.Euler.{doubled_tree_euler_tour}
use troute.Initial.Euler.Outcome.{doubled_tree_euler_tour-covers}
use troute.Initial.Tours.Shortcut.{route_of_tour-valid}
use troute.Initial.Mst.{minimum_spanning_tree, mst_route}

-- Whatever the symmetric distance is, a route that the generator by spanning trees returns is a
-- valid visit order.
pub mst_route-valid :
    (distance : (left right : ℕ) → Result ℕ SolverError) (input : SolverInput)
    {solution : SolverSolution}
    → mst_route distance input ≡ ok solution
    → validate_visit_order input.problem solution ≡ ok tt
unfolding mst_route
mst_route-valid distance input {solution} e =
    let n : ℕ = length input.problem.locations in
    elim (Result-cases (validate_generator_input input)) [
      | inr (error, refused) ↦ absurd (ground arith)
      | inl (_, valid) ↦ elim (Result-cases (minimum_spanning_tree distance n)) [
        | inr (error, failed) ↦ absurd (ground arith)
        | inl (edges, grown) ↦ elim (Result-cases (doubled_tree_euler_tour n edges 0)) [
          | inr (error, failed) ↦ absurd (ground arith)
          | inl (tour, toured) ↦
              let (rest, begins, inside, covers) =
                doubled_tree_euler_tour-covers n edges 0 {tour = tour} toured in
              let (route, made, checked) =
                route_of_tour-valid input.problem rest (inside 0 (ground (arith, begins)))
                  (subst (λ t. (x : ℕ) → 1 ≤ count x t → x < n) begins inside)
                  (subst (λ t. (x : ℕ) → x < n → 1 ≤ count x t) begins covers) in
              let same : route ≡ solution = ground (arith, made, begins) in
              subst (λ r. validate_visit_order input.problem r ≡ ok tt) same checked
        ]
      ]
    ]
