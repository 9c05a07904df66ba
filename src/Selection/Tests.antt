-- ===== src/Selection/Tests.antt =====
-- Three strategies of which the last is best, and one that fails.
use troute.Prelude.{ℕ, true, false, none, some, ok, err, ok_or, List, [], ◌∷◌, ◌≡◌, refl}
use troute.Domain.{StartPolicy}
use troute.Solver.Types.{SolutionMetrics, SolverError}
use troute.Solver.Objective.{default_compare, start_order}
use troute.Solver.Fixtures.{early_trip, late_trip, by_the_park}
use troute.Selection.{
  SolverCandidate, is_selectable, compare_scores, compare_feasible, compare_candidates, rank,
  select,
}
use troute.Selection.Tracker.{
  route_fingerprint, keeps, consider_validated, consider, push, new_accumulator, accumulate,
  warm_start, solver_id_for_strategy,
}
use troute.Selection.Tracking.{hold_all}
use troute.Selection.Agreement.{select-hold_all, warm_start-accumulate}
use troute.Selection.Best.{Unbeaten, select-Unbeaten}

abbrev scored : ℕ → SolutionMetrics → SolverCandidate
scored name metrics = record {
  strategy = name ∷ [];
  route = some by_the_park;
  feasible = true;
  objective_score = some metrics;
  elapsed_ms = 5;
  improved_global_best = none;
}

abbrev failed_candidate : SolverCandidate
failed_candidate = record {
  strategy = b'f' ∷ [];
  route = none;
  feasible = false;
  objective_score = none;
  elapsed_ms = 1;
  improved_global_best = none;
}

abbrev three_candidates : List SolverCandidate
three_candidates =
    failed_candidate ∷ scored b'a' (early_trip StartPolicy.latest) ∷ scored b'b' late_trip ∷ []

later_start_wins : select (rank default_compare three_candidates) ≡ ok (scored b'b' late_trip)
unfolding select rank compare_candidates compare_scores compare_feasible default_compare start_order
later_start_wins = refl

none_feasible :
    select (rank default_compare (failed_candidate ∷ [])) ≡ err SolverError.no_feasible_route
unfolding select rank
none_feasible = refl

annealing_is_one_solver : solver_id_for_strategy (b's' ∷ b'a' ∷ b'_' ∷ b'7' ∷ []) ≡ b's' ∷ b'a' ∷ []
unfolding solver_id_for_strategy
annealing_is_one_solver = refl

-- The hash of no bytes is the offset basis, cbf29ce484222325.
empty_fingerprint :
    route_fingerprint []
    ≡ b'c' ∷ b'b' ∷ b'f' ∷ b'2' ∷ b'9' ∷ b'c' ∷ b'e' ∷ b'4' ∷ b'8' ∷ b'4' ∷ b'2' ∷ b'2' ∷ b'2'
      ∷ b'3' ∷ b'2' ∷ b'5' ∷ []
unfolding route_fingerprint
empty_fingerprint = refl

two_updates : (accumulate default_compare new_accumulator three_candidates).global_best_updates ≡ 2
unfolding accumulate consider consider_validated keeps push default_compare start_order
two_updates = refl

select-hold_all_example :
    select (rank default_compare three_candidates)
    ≡ ok_or (hold_all default_compare none three_candidates) SolverError.no_feasible_route
select-hold_all_example =
    select-hold_all StartPolicy.latest three_candidates (tt, (refl, (refl, tt)))

warm_start-accumulate_example :
    warm_start (accumulate default_compare new_accumulator three_candidates) ≡ some by_the_park
unfolding select rank compare_candidates compare_scores compare_feasible default_compare start_order
warm_start-accumulate_example =
    warm_start-accumulate StartPolicy.latest three_candidates (tt, (refl, (refl, tt))) refl

select-Unbeaten_example :
    (is_selectable (scored b'b' late_trip) ≡ true)
    × Unbeaten (scored b'b' late_trip) (scored b'a' (early_trip StartPolicy.latest))
select-Unbeaten_example =
    select-Unbeaten StartPolicy.latest three_candidates 1 (tt, (refl, (refl, tt))) later_start_wins
      refl
