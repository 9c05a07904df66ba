-- ===== src/Exact/Search/Optimal.antt =====
-- src/solver/exact/bit_dp.rs: the result of the search against every other route.
use troute.Prelude.{
  ℕ, ◌+◌, ◌^◌, ◌<◌, ◌≡◌, ◌≢◌, refl, sym, ◌∙◌, subst, inl, inr, Bool, true, false, Option-cases,
  some, Result, ok, Ordering, List, [], ◌∷◌, length, get_or, set, replicate, length-set,
  length-replicate, get_or-replicate, arith,
}
use troute.Prelude.Loops.{All-map, Any, Any-map, Any-with_All}
use troute.Solver.Types.{SolverInput, SolverError, SolverSolution, SolutionMetrics}
use troute.Solver.Objective.{default_objective_policy, default_compare}
use troute.Solver.Transition.{InitialService, initial_service, slots_per_day}
use troute.Solver.Evaluate.{
  Progress, metrics_of, mark_all, count_optional, sum_priority, simulate_edges, simulate_route,
  simulate_solution, validate_visit_order,
}
use troute.Solver.Evaluate.Monotone.{depart, simulate_route-IsSound}
use troute.Exact.{ExactSolveResult, time_cost_frontier_policy}
use troute.Exact.Sums.{mask_sum, mask_sum-le}
use troute.Exact.Search.{
  Search, index, run_search, select_best, search_at_start, end_location, terminal_ids,
}
use troute.Exact.Search.Route.{progress_of, optional_one, optional_priority}
use troute.Exact.Search.Cells.{Entry}
use troute.Exact.Search.Start.{IsRooted, start_marks, mask_sum-one}
use troute.Exact.Search.Complete.{Terminal, terminal_ids-Terminal}
use troute.Exact.Search.Better.{IsBetter, default_compare-IsBetter}
use troute.Exact.Search.Offers.{cell_count, Good}
use troute.Exact.Search.Prefixes.{Fits}
use troute.Exact.Search.Reached.{
  at_start, Drive-inside, HasReached, one-lt-power, run_search-HasReached,
}
use troute.Exact.Search.Chain.{Marks, MayEnd, Ending, order-Ending}
use troute.Exact.Search.Least.{AtMost, IsFound, min_by-AtMost, select_best-some, terminal_ids-Any}
use troute.Exact.Search.Valid.{IsValidOrder, validate_visit_order_inv}

module _ (input : SolverInput) (start : ℕ) where
  -- The drive of a route from the start, taken apart.
  simulate_solution_inv :
      (rest : List ℕ) {m : SolutionMetrics}
      → simulate_solution default_objective_policy input (record { visit_order = 0 ∷ rest }) start
        ≡ some m
      → (i : InitialService) × (p : Progress) × (initial_service input start ≡ some i)
        × (simulate_edges input 0 rest (depart start i.departure_slot i.wait_minutes) ≡ some p)
        × (p.time_slot < slots_per_day)
        × (m ≡ metrics_of default_objective_policy input.problem (0 ∷ rest) start p)
  unfolding simulate_solution simulate_route
  simulate_solution_inv rest {m} h = elim (Option-cases (initial_service input start)) [
    | inl shut ↦ absurd (ground arith)
    | inr (i, begun) ↦
        elim (Option-cases
          (simulate_edges input 0 rest (depart start i.departure_slot i.wait_minutes))) [
            | inl cut ↦ absurd (ground arith)
            | inr (p, driven) ↦
                let whole : simulate_route input (0 ∷ rest) start ≡ some p = rw (begun) driven in
                let sound = simulate_route-IsSound input (0 ∷ rest) start whole in
                (i, p, begun, driven, sound.in_day, ground arith)
          ]
  ]

  -- A valid route as a drive that ends at the destination.
  route-Ending :
      (rest : List ℕ) (i : InitialService) (p : Progress)
      → IsRooted default_objective_policy input start
      → (v : IsValidOrder input (0 ∷ rest))
      → simulate_edges input 0 rest (depart start i.departure_slot i.wait_minutes) ≡ some p
      → Ending input
          (depart start i.departure_slot i.wait_minutes)
          v.marked
          p
          (count_optional input.problem rest
            + mask_sum (optional_one input.problem) (cell_count input) 1)
          (sum_priority input.problem rest
            + mask_sum (optional_priority input.problem) (cell_count input) 1)
  unfolding mark_all
  route-Ending rest i p r v driven =
      let n : ℕ = cell_count input in
      let marks = v.marks in
      let size : length (set (replicate n false) 0 true) ≡ n =
        length-set (replicate n false) 0 true ∙ length-replicate n false in
      order-Ending input (depart start i.departure_slot i.wait_minutes) v.marked p r.nonempty
        v.may_end rest 1 0 0 (depart start i.departure_slot i.wait_minutes)
        (set (replicate n false) 0 true) at_start
        (record {
          size = size;
          small = one-lt-power n r.nonempty;
          bits = λ j lt. start_marks n j lt;
        })
        (ground (arith, r.nonempty, get_or-replicate n 0 false)) driven v.ends

  -- The metrics of the route over `rest`.
  abbrev stated : List ℕ → Progress → SolutionMetrics
  stated rest p = metrics_of default_objective_policy input.problem (0 ∷ rest) start p

  search_at_start-ok :
      (i : InitialService) (s : Search) (result : ExactSolveResult)
      → initial_service input start ≡ some i
      → run_search default_objective_policy input time_cost_frontier_policy i.departure_slot
          i.wait_minutes
        ≡ ok s
      → select_best default_objective_policy input start s ≡ some result
      → search_at_start default_objective_policy input time_cost_frontier_policy start
        ≡ ok (some result)
  unfolding search_at_start
  search_at_start-ok i s result begun ran selected = ground arith

  module _ (rest : List ℕ) (p : Progress) (marked : List Bool) (begin : Progress)
      (r : IsRooted default_objective_policy input start) (fits : Fits input)
      (in_day : p.time_slot < slots_per_day)
      (may_end : (mask : ℕ) → Marks input marked mask → MayEnd input mask)
      (e : Ending input begin marked p
        (count_optional input.problem rest
          + mask_sum (optional_one input.problem) (cell_count input) 1)
        (sum_priority input.problem rest
          + mask_sum (optional_priority input.problem) (cell_count input) 1)) where
    -- The optional visits of the route are those of its locations, in any order.
    stated_visits :
        ((stated rest p).visited_optional_count
          ≡ mask_sum (optional_one input.problem) (cell_count input) e.mask)
        × ((stated rest p).visited_optional_priority
            ≡ mask_sum (optional_priority input.problem) (cell_count input) e.mask)
    unfolding count_optional sum_priority
    stated_visits =
        let one =
          mask_sum-one (optional_one input.problem) (cell_count input)
            (ground (arith, r.required)) in
        let value =
          mask_sum-one (optional_priority input.problem) (cell_count input)
            (ground (arith, r.required)) in
        let bound = mask_sum-le (optional_priority input.problem) (cell_count input) e.mask in
        let counted = e.counted in
        let valued = e.valued in (ground (arith, r.required), ground (arith, r.required))

    Good-AtMost :
        (s : Search) (id : ℕ)
        → Good s.arena p id
        → Entry default_objective_policy input start s.arena e.mask
            (end_location default_objective_policy input)
            id
        → AtMost input start s.arena (stated rest p) id
    Good-AtMost s id g own =
        let same : own.state ≡ g.state = cc (own.found, g.found) in
        let b : IsBetter (progress_of own.state) p =
          subst (λ a. IsBetter (progress_of a) p) (sym same) g.better in
        let (count, priority) = stated_visits in
        record {
          state = own.state;
          found = own.found;
          least =
              default_compare-IsBetter (stated rest p) input.problem.start_policy start own.state
                refl refl (count ∙ sym own.drives.count_of_mask)
                (priority ∙ sym own.drives.priority_of_mask) refl own.drives.scored
                (ground (arith, b.time, b.cost, in_day));
        }

    -- A search that covers the drive has a complete route that is at least as good.
    search-AtMost :
        (r' : Result Search SolverError)
        → (h : HasReached input start begin (2 ^ cell_count input) r')
        → Any
            (AtMost input start h.search.arena (stated rest p))
            (terminal_ids default_objective_policy input h.search)
    search-AtMost r' h =
        let s : Search = h.search in
        let end_ : ℕ = end_location default_objective_policy input in
        let (inside, before_lt, ended, home) = Drive-inside input r.nonempty e.drive in
        let small = e.marks.small in
        let cell : List ℕ = get_or s.frontiers (index e.mask end_ (cell_count input)) [] in
        let covered : Any (Good s.arena p) cell =
          h.covers e.mask end_ e.before p e.drive (omega arith) in
        let own =
          Any-with_All (Good s.arena p) _ cell covered (h.consistent.entries e.mask end_ inside) in
        terminal_ids-Any input start (AtMost input start s.arena (stated rest p)) s e.mask
          (omega arith) small ended (may_end e.mask e.marks)
          (Any-map _ (AtMost input start s.arena (stated rest p)) cell
            (λ id g. Good-AtMost s id g.0 g.1) own)

  Terminal-IsFound :
      (s : Search) (m : SolutionMetrics) (id : ℕ)
      → Terminal default_objective_policy input start s id
      → IsFound input start s.arena m id
  Terminal-IsFound s m id t = record { state = t.entry.state; found = t.entry.found }

  -- The search for the best route from one start is exact: with the default objective and frontier,
  -- on a problem whose start location is required and whose optional priorities fit a `u32`
  -- together, and where the search is not cancelled, every valid visit order that can be driven from
  -- the start makes the search return a result, and that result does not compare as worse than the
  -- metrics of the order.
  pub search_at_start_optimal :
      (solution : SolverSolution) {m : SolutionMetrics}
      → IsRooted default_objective_policy input start
      → Fits input
      → input.cancelled ≡ false
      → validate_visit_order input.problem solution ≡ ok tt
      → simulate_solution default_objective_policy input solution start ≡ some m
      → (result : ExactSolveResult) × (search_at_start default_objective_policy input
            time_cost_frontier_policy start
          ≡ ok (some result))
        × (default_compare result.metrics m ≢ Ordering.gt)
  search_at_start_optimal solution {m} r fits running valid driven =
      let v = validate_visit_order_inv input solution.visit_order valid in
      let driven' : simulate_solution default_objective_policy input
            (record { visit_order = 0 ∷ v.rest }) start
          ≡ some m =
        subst
          (λ o.
            simulate_solution default_objective_policy input (record { visit_order = o }) start
            ≡ some m)
          v.shape driven in
      let (i, p, begun, edges, in_day, stated_m) = simulate_solution_inv v.rest driven' in
      let h = run_search-HasReached input start i r fits running begun in
      let w : IsValidOrder input (0 ∷ v.rest) = subst (IsValidOrder input) v.shape v in
      let e = route-Ending v.rest i p r w edges in
      let best =
        search-AtMost v.rest p w.marked (depart start i.departure_slot i.wait_minutes) r fits in_day
          w.may_end e _ h in
      let (id, chosen, t) =
        min_by-AtMost input start h.search.arena (stated v.rest p)
          (terminal_ids default_objective_policy input h.search) refl
          (All-map (Terminal default_objective_policy input start h.search) _ _
            (Terminal-IsFound h.search (stated v.rest p))
            (terminal_ids-Terminal default_objective_policy input start h.search r.nonempty
              h.consistent))
          best in
      let (result, selected, measured) =
        select_best-some input start h.search id t.state chosen t.found in
      (
        result,
        search_at_start-ok i h.search result begun h.running selected,
        λ g. t.least (
            subst (λ k. default_compare k (stated v.rest p) ≡ Ordering.gt) measured
              (subst (λ k. default_compare result.metrics k ≡ Ordering.gt) stated_m g)),
      )
