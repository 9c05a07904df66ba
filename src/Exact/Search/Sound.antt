-- ===== src/Exact/Search/Sound.antt =====
-- src/solver/exact/bit_dp.rs: the result of the search against the evaluation of src/solver.rs.
use troute.Prelude.{
  ℕ, ◌<◌, ◌≡◌, refl, subst, List, inl, inr, Option-cases, Result-cases, none, some, ok, length,
  get_elem?, get_elem?-lt, arith,
}
use mathlib.Core.List.{reverse}
use troute.Solver.Types.{SolverInput}
use troute.Solver.Objective.{ObjectivePolicy}
use troute.Solver.Transition.{initial_service}
use troute.Solver.Evaluate.{simulate_solution, validate_visit_order}
use troute.Exact.{FrontierPolicy, ParetoState, ExactSolveResult}
use troute.Exact.Search.{
  Search, min_by, metrics, trace, terminal_ids, compare_ids, select_best, run_search,
  search_at_start, location_count, end_location,
}
use troute.Exact.Search.Route.{Drives}
use troute.Exact.Search.Cells.{AllEntries, trace_lem}
use troute.Exact.Search.Start.{IsRooted, min_by-All, initial_AllEntries}
use troute.Exact.Search.Rounds.{Holds, run_search-Holds}
use troute.Exact.Search.Complete.{Terminal, terminal_ids-Terminal, Drives-valid}

module _ (objective : ObjectivePolicy) (input : SolverInput) (start : ℕ) where
  -- The drive of a complete route gives its metrics.
  Drives-simulate :
      (mask : ℕ) {order : List ℕ} (a : ParetoState)
      → Drives objective input start mask order a
      → a.location ≡ end_location objective input
      → simulate_solution objective input (record { visit_order = order }) start
        ≡ some (metrics input.problem.start_policy start a)
  unfolding simulate_solution metrics
  Drives-simulate mask a d here =
      ground (arith, d.begins, d.ends, d.driven, d.counted, d.valued, d.fits, d.in_day, d.scored)

  -- A result whose order passes the checks and is driven from the start with the metrics stated.
  pub record IsSound (result : ExactSolveResult) : Type 0 where
    pub valid : validate_visit_order input.problem result.solution ≡ ok tt
    pub driven : simulate_solution objective input result.solution start ≡ some result.metrics

  select_best-chosen :
      (s : Search) (id : ℕ) (a : ParetoState) (back : List ℕ) {result : ExactSolveResult}
      → min_by (compare_ids objective input s.arena start) (terminal_ids objective input s)
        ≡ some id
      → get_elem? s.arena id ≡ some a
      → trace (length s.arena) s.arena (some id) ≡ back
      → select_best objective input start s ≡ some result
      → (result.solution ≡ record { visit_order = reverse back })
        × (result.metrics ≡ metrics input.problem.start_policy start a)
  unfolding select_best
  select_best-chosen s id a back chosen found traced h = ground arith

  select_best-none :
      (s : Search)
      → min_by (compare_ids objective input s.arena start) (terminal_ids objective input s) ≡ none
      → select_best objective input start s ≡ none
  unfolding select_best
  select_best-none s e = rw e refl

  select_best-IsSound :
      (s : Search) {result : ExactSolveResult}
      → 0 < location_count objective input
      → AllEntries objective input start s
      → select_best objective input start s ≡ some result
      → IsSound result
  select_best-IsSound s {result} pos inv h =
      elim (Option-cases
        (min_by (compare_ids objective input s.arena start) (terminal_ids objective input s))) [
          | inl cut ↦ cc (h, select_best-none s cut)
          | inr (id, chosen) ↦
              let t : Terminal objective input start s id =
                min_by-All (Terminal objective input start s)
                  (compare_ids objective input s.arena start) (terminal_ids objective input s)
                  (terminal_ids-Terminal objective input start s pos inv) chosen in
              let e = t.entry in
              let traced : trace (length s.arena) s.arena (some id) ≡ e.back =
                trace_lem (length s.arena) s.arena (get_elem?-lt s.arena id e.found) e.traced in
              let (order, stated) =
                select_best-chosen s id e.state e.back chosen e.found traced h in
              record {
                valid = rw order (
                    Drives-valid objective input start t.mask (reverse e.back) e.state e.drives
                      t.complete pos e.located);
                driven = rw (order, stated) (Drives-simulate t.mask e.state e.drives e.located);
              }
        ]

  -- Where the start location is required, a result of the search from one start is a valid visit
  -- order, and driving it from that start gives exactly the metrics of the result.
  pub search_at_start-IsSound :
      (policy : FrontierPolicy) {result : ExactSolveResult}
      → IsRooted objective input start
      → search_at_start objective input policy start ≡ ok (some result)
      → IsSound result
  unfolding search_at_start
  search_at_start-IsSound policy {result} r h = elim (Option-cases (initial_service input start)) [
    | inl shut ↦ absurd (ground arith)
    | inr (i, begun) ↦
        let run = run_search objective input policy i.departure_slot i.wait_minutes in
        let inv : Holds objective input start policy run =
          run_search-Holds objective input start policy i.departure_slot i.wait_minutes
            (initial_AllEntries objective input start policy i r begun) in
        elim (Result-cases run) [
          | inr (e, failed) ↦ absurd (ground arith)
          | inl (s, ran) ↦
              select_best-IsSound s r.nonempty (subst (Holds objective input start policy) ran inv)
                (ground arith)
        ]
  ]
