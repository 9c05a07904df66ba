-- ===== src/Selection.antt =====
-- src/solver/core/candidate.rs, src/solver/orchestrator/selector.rs: candidates and the choice of
-- one of them, by any objective evaluator.
pub mod Tracker
pub mod Choice
pub mod Tracking
pub mod Agreement
pub mod Best
mod Tests
use troute.Prelude.{
  ℕ, Bool, true, false, ◌&&◌, if◌then◌else◌, Option, none, some, Result, ok, err, List, [], ◌∷◌,
  Ordering,
}
use troute.Prelude.Sort.{sort_by}
use troute.Prelude.Options.{is_some}
use troute.Solver.Types.{SolverSolution, SolutionMetrics, SolverError}

-- The fields that the choice reads and writes. `improved_global_best` is the one field of the
-- diagnostics that the bookkeeping sets, and the elapsed time is in milliseconds.
pub record SolverCandidate : Type 0 where
  pub strategy : List ℕ
  pub route : Option SolverSolution
  pub feasible : Bool
  pub objective_score : Option SolutionMetrics
  pub elapsed_ms : ℕ
  pub improved_global_best : Option Bool

-- The test of `select`.
abbrev pub is_selectable : SolverCandidate → Bool
is_selectable candidate = candidate.feasible && is_some candidate.objective_score

-- The scores are compared only where both are feasible.
unfoldable pub compare_feasible : Bool → Bool → Ordering → Ordering
compare_feasible true false by_score = Ordering.lt
compare_feasible false true by_score = Ordering.gt
compare_feasible true true by_score = by_score
compare_feasible false false by_score = Ordering.eq

module _ (compare_metrics : SolutionMetrics → SolutionMetrics → Ordering) where
  unfoldable pub compare_scores : Option SolutionMetrics → Option SolutionMetrics → Ordering
  compare_scores (some left) (some right) = compare_metrics left right
  compare_scores (some left) none = Ordering.lt
  compare_scores none (some right) = Ordering.gt
  compare_scores none none = Ordering.eq

  unfoldable pub compare_candidates : SolverCandidate → SolverCandidate → Ordering
  unfolding compare_scores compare_feasible
  compare_candidates left right =
      compare_feasible left.feasible right.feasible
        (compare_scores left.objective_score right.objective_score)

  -- What the library sorts where the comparison is an order up to ties on the candidates.
  unfoldable pub rank : List SolverCandidate → List SolverCandidate
  rank candidates = sort_by compare_candidates candidates

-- `iter().find`.
abbrev pub find_selectable : List SolverCandidate → Option SolverCandidate
find_selectable [] = none
find_selectable (c ∷ cs) = if is_selectable c then some c else find_selectable cs

unfoldable pub select : List SolverCandidate → Result SolverCandidate SolverError
select candidates = elim (find_selectable candidates) [
  | none ↦ err SolverError.no_feasible_route
  | some c ↦ ok c
]
