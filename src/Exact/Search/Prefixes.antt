-- ===== src/Exact/Search/Prefixes.antt =====
-- src/solver/exact/bit_dp.rs: the rounds of the search, from a cell that covers a drive to the cell
-- that covers the next edge of it.
use troute.Prelude.{
  ℕ, ◌+◌, ◌^◌, ◌<◌, ◌≡◌, sym, subst, inl, inr, Bool-cases, Option-cases, false, ◌||◌, some, arith,
}
use troute.Solver.Types.{SolverInput}
use troute.Solver.Objective.{default_objective_policy}
use troute.Solver.Evaluate.{Progress, simulate_edge}
use troute.Exact.{time_cost_frontier_policy}
use troute.Exact.Masks.{test_bit, set_bit}
use troute.Exact.Sums.{sum_below, mask_sum-le, mask_sum-set_bit, set_bit-lt-power}
use troute.Exact.Search.{Search, transition, is_early_end, try_next}
use troute.Exact.Search.Route.{progress_of, optional_priority}
use troute.Exact.Search.Cells.{Entry, AllEntries, transition-Entry}
use troute.Exact.Search.Better.{IsBetter, transition-IsBetter}
use troute.Exact.Search.Offers.{cell_count, Good, Covered, offer-Covered, offer-Covered_new}

module _ (input : SolverInput) where
  -- Some way on from a state that the code allows.
  pub record Edge (mask last next : ℕ) (p p' : Progress) : Type 0 where
    pub inside : next < cell_count input
    pub small : mask < 2 ^ cell_count input
    pub fresh : test_bit mask next ≡ false
    pub allowed : is_early_end default_objective_policy input mask next ≡ false
    pub driven : simulate_edge input last next p ≡ some p'

  -- The priorities of all optional locations fit a `u32` together.
  abbrev pub Fits : Type 0
  Fits = sum_below (optional_priority input.problem) (cell_count input) < 2 ^ 32

module _ (input : SolverInput) (start : ℕ) where
  pub try_next-Covered :
      (mask last id next m l : ℕ) (p : Progress) (s : Search)
      → next < cell_count input
      → l < cell_count input
      → Entry default_objective_policy input start s.arena mask last id
      → AllEntries default_objective_policy input start s
      → Covered input start s m l p
      → Covered input start
          (try_next default_objective_policy input time_cost_frontier_policy mask id next s)
          m
          l
          p
  unfolding try_next
  try_next-Covered mask last id next m l p s lt l_lt e inv h =
      elim (Bool-cases
        (test_bit mask next || is_early_end default_objective_policy input mask next)) [
          | inl skipped ↦ rw skipped h
          | inr free ↦
              rw free
                (elim (Option-cases (transition default_objective_policy input e.state id next)) [
                  | inl cut ↦ rw (e.found, cut) h
                  | inr (c, made) ↦
                      rw (e.found, made)
                        (offer-Covered input start (set_bit mask next) next c s lt
                          (transition-Entry default_objective_policy input start s.arena mask last
                            id next lt (ground arith) e e.found made)
                          inv m l p l_lt h)
                ])
        ]

  -- A state that is at least as good as a drive goes on wherever the drive goes on.
  pub try_next_reach :
      (mask last id next : ℕ) (p : Progress) {p' : Progress} (s : Search)
      → Fits input
      → Edge input mask last next p p'
      → Entry default_objective_policy input start s.arena mask last id
      → AllEntries default_objective_policy input start s
      → Good s.arena p id
      → Covered input start
          (try_next default_objective_policy input time_cost_frontier_policy mask id next s)
          (set_bit mask next)
          next
          p'
  unfolding try_next
  try_next_reach mask last id next p {p'} s fits g e inv good =
      let same : e.state ≡ good.state = cc (e.found, good.found) in
      let better : IsBetter (progress_of e.state) p =
        subst (λ a. IsBetter (progress_of a) p) (sym same) good.better in
      let bound : e.state.visited_optional_priority + optional_priority input.problem next
          < 2 ^ 32 =
        ground (
          arith,
          e.drives.priority_of_mask,
          g.inside,
          mask_sum-set_bit (optional_priority input.problem) (cell_count input) mask next g.fresh,
          mask_sum-le (optional_priority input.problem) (cell_count input) (set_bit mask next),
        ) in
      let edge : simulate_edge input e.state.location next p ≡ some p' = rw e.located g.driven in
      let (c, made, b) =
        transition-IsBetter input e.state id next p
          (record { waited = e.drives.waited; in_day = e.drives.in_day }) better bound edge in
      rw (g.fresh, g.allowed)
        (rw (e.found, made)
          (offer-Covered_new input start (set_bit mask next) next c s g.inside
            (transition-Entry default_objective_policy input start s.arena mask last id next
              g.inside g.fresh e e.found made)
            inv p' (set_bit-lt-power (cell_count input) mask next g.inside g.small) b))
