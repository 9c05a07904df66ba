-- ===== src/Selection/Choice.antt =====
-- src/solver/orchestrator/selector.rs: ranking and selecting by insertion, candidate by
-- candidate from the last to the first.
use troute.Prelude.{
  if◌then◌else◌, Option, none, some, List, [], ◌∷◌, Ordering, ok_or, ap, ◌∙◌, ◌≡◌, arith,
}
use troute.Prelude.Sort.{insert_by}
use troute.Solver.Types.{SolutionMetrics, SolverError}
use troute.Selection.{
  SolverCandidate, is_selectable, compare_scores, compare_feasible, compare_candidates, rank,
  find_selectable, select,
}

module _ (compare_metrics : SolutionMetrics → SolutionMetrics → Ordering) where
  -- The better one of a candidate and the choice among the later ones, which must be strictly
  -- better to win.
  abbrev pub better : SolverCandidate → Option SolverCandidate → Option SolverCandidate
  better c rest =
      if is_selectable c
      then elim rest [
        | none ↦ some c
        | some d ↦ elim (compare_candidates compare_metrics d c) [
          | Ordering.lt ↦ some d
          | _ ↦ some c
        ]
      ]
      else rest

  -- The choice that is built from the last candidate to the first.
  abbrev pub first_best : List SolverCandidate → Option SolverCandidate
  first_best [] = none
  first_best (c ∷ cs) = better c (first_best cs)

  -- Where a candidate cannot be selected, none behind it can.
  SelectableFirst : List SolverCandidate → Type 0
  SelectableFirst [] = Unit
  SelectableFirst (c ∷ cs) =
      if is_selectable c
      then SelectableFirst cs
      else (find_selectable cs ≡ none) × SelectableFirst cs

  SelectableFirst-insert :
      (c : SolverCandidate) (cs : List SolverCandidate)
      → SelectableFirst cs
      → SelectableFirst (insert_by (compare_candidates compare_metrics) c cs)
        × (find_selectable (insert_by (compare_candidates compare_metrics) c cs)
            ≡ better c (find_selectable cs))
  unfolding SelectableFirst compare_candidates compare_scores compare_feasible
  SelectableFirst-insert c [] h = ground arith
  SelectableFirst-insert c (d ∷ ds) h = ground (arith, SelectableFirst-insert c ds)

  SelectableFirst-rank :
      (cs : List SolverCandidate)
      → SelectableFirst (rank compare_metrics cs)
        × (find_selectable (rank compare_metrics cs) ≡ first_best cs)
  unfolding SelectableFirst rank
  SelectableFirst-rank [] = ground arith
  SelectableFirst-rank (c ∷ cs) =
      let (h, e) = SelectableFirst-rank cs in
      let (h', e') = SelectableFirst-insert c (rank compare_metrics cs) h in
      (h', e' ∙ ap (better c) e)

  -- Sorting by insertion and taking the first usable candidate chooses what is built from the last
  -- candidate to the first. Where no candidate is usable, the answer is `NoFeasibleRoute`.
  pub select-rank :
      (cs : List SolverCandidate)
      → select (rank compare_metrics cs) ≡ ok_or (first_best cs) SolverError.no_feasible_route
  unfolding select
  select-rank cs = ground (arith, SelectableFirst-rank cs)
