-- ===== src/Initial/Tours.antt =====
-- src/solver/initial/mst: a tour that may come to a location again, shortened to a route, and the
-- route with the end location moved to its end.
pub mod Shortcut
use troute.Prelude.{
  ℕ, zero, suc, ◌+◌, ◌≤◌, ◌<◌, ◌≡◌, refl, sym, ap, ◌∙◌, subst, inl, inr, Bool-cases, ltb, leb, ◌==◌,
  ◌||◌, not, if◌then◌else◌, Bool, true, false, Option, none, some, Result, ok, err, Result-cases,
  Option-cases, List, [], ◌∷◌, ◌++◌, length, get_or, set, replicate, first, last, length-set,
  length-replicate, get_or-replicate, get_or-set_self, get_or-set_ne, length-append, arith,
}
use troute.Prelude.Results.{◌>>=◌}
use troute.Domain.{OptimizationProblem, end_location_index}
use troute.Solver.Types.{SolverSolution, SolverError}
use troute.Solver.Evaluate.{validate_visit_order}
use troute.Schedule.Marks.{count_unseen, count_unseen-set, count_unseen-replicate}
use troute.Exact.Search.Complete.{count_unseen-all}
use troute.Exact.Search.Route.{last-snoc}
use troute.Moves.{remove_at}
use troute.Moves.Counts.{count-remove_at, first-remove_at}
use troute.Initial.Counts.{count, count-append, complete-valid}

-- The loop of `shortcut_euler_tour`.
unfoldable pub shortcut_walk :
    (node_count : ℕ) (seen : List Bool) (route : List ℕ) → List ℕ → Result (List ℕ) SolverError
shortcut_walk node_count seen route [] = ok route
shortcut_walk node_count seen route (node ∷ tour) =
    let again = get_or seen node false in
    let rest =
      shortcut_walk node_count (if again then seen else set seen node true)
        (if again then route else route ++ (node ∷ [])) tour in
    if leb node_count node then err SolverError.invalid_visit_order else rest

unfoldable pub shortcut_euler_tour : (node_count : ℕ) → List ℕ → Result (List ℕ) SolverError
unfolding shortcut_walk
shortcut_euler_tour node_count tour =
    shortcut_walk node_count (replicate node_count false) [] tour >>= λ route.
    if length route == node_count then ok route else err SolverError.invalid_visit_order

-- `position`.
abbrev pub position : ℕ → List ℕ → Option ℕ
position location [] = none
position location (x ∷ xs) =
    if x == location
    then some 0
    else elim (position location xs) [ none ↦ none | some i ↦ some (suc i) ]

-- The end of `generate_detailed`: the end location becomes the last one.
unfoldable pub end_at_last : OptimizationProblem → List ℕ → Result SolverSolution SolverError
end_at_last problem order =
    if ltb 1 (length problem.locations)
    then elim (position (end_location_index problem) order) [
      | none ↦ err SolverError.invalid_visit_order
      | some i ↦
          ok (record { visit_order = remove_at i order ++ (end_location_index problem ∷ []) })
    ]
    else ok (record { visit_order = order })

-- `generate_detailed` from the tour on.
unfoldable pub route_of_tour : OptimizationProblem → List ℕ → Result SolverSolution SolverError
route_of_tour problem tour =
    shortcut_euler_tour (length problem.locations) tour >>= end_at_last problem

-- A list that holds each location once.
abbrev pub HoldsEach : ℕ → List ℕ → Type 0
HoldsEach n xs = (x : ℕ) → count x xs ≡ (if ltb x n then 1 else 0)
