-- ===== src/Exact/Search/Rounds.antt =====
-- src/solver/exact/bit_dp.rs: the loops of the search.
use troute.Prelude.{
  ℕ, ◌-◌, ◌<◌, inl, inr, Bool-cases, ◌==◌, Result, ok, err, [], get_or, last, arith,
}
use troute.Prelude.Loops.{for_range_inv, for_each_inv}
use troute.Solver.Types.{SolverInput, SolverError}
use troute.Solver.Objective.{ObjectivePolicy}
use troute.Exact.{FrontierPolicy}
use troute.Exact.Masks.{test_bit}
use troute.Exact.Search.{
  Search, index, location_count, full_mask, end_location, initial_search, run_search, try_next,
  expand_state, expand_cell, expand_mask,
}
use troute.Exact.Search.Cells.{Entry, AllEntries, try_next-Entry, try_next-AllEntries}

module _ (objective : ObjectivePolicy) (input : SolverInput) (start : ℕ)
    (policy : FrontierPolicy) where
  pub expand_state-Entry :
      (mask last id m l i : ℕ) (s : Search)
      → Entry objective input start s.arena m l i
      → Entry objective input start (expand_state objective input policy mask last id s).arena m l i
  unfolding expand_state
  expand_state-Entry mask last id m l i s e =
      elim (Bool-cases (last == end_location objective input)) [
        | inl ended ↦ rw ended e
        | inr open_ ↦ rw open_ (
            for_range_inv (λ (t : Search). Entry objective input start t.arena m l i)
              (try_next objective input policy mask id) 1 (location_count objective input - 1) s
              (λ next t lo hi e'.
                try_next-Entry objective input start policy mask id next m l i t e')
              e)
      ]

  pub expand_state-AllEntries :
      (mask last id : ℕ) (s : Search)
      → AllEntries objective input start s
      → Entry objective input start s.arena mask last id
      → AllEntries objective input start (expand_state objective input policy mask last id s)
  unfolding expand_state
  expand_state-AllEntries mask last id s inv e =
      elim (Bool-cases (last == end_location objective input)) [
        | inl ended ↦ rw ended inv
        | inr open_ ↦ rw open_ (
            (for_range_inv
              (λ (t : Search).
                AllEntries objective input start t
                × Entry objective input start t.arena mask last id)
              (try_next objective input policy mask id) 1 (location_count objective input - 1) s
              (λ next t lo hi p. (
                try_next-AllEntries objective input start policy mask last id next t (omega arith)
                    p.1 p.0,
                try_next-Entry objective input start policy mask id next mask last id t p.1,
              ))
              (inv, e)).0)
      ]

  pub expand_cell-AllEntries :
      (mask last : ℕ) (s : Search)
      → last < location_count objective input
      → AllEntries objective input start s
      → AllEntries objective input start (expand_cell objective input policy mask last s)
  unfolding expand_cell
  expand_cell-AllEntries mask last s lt inv = elim (Bool-cases (test_bit mask last)) [
    | inr absent ↦ rw absent inv
    | inl visited ↦ rw visited (
        for_each_inv (AllEntries objective input start)
          (λ (t : Search) id. Entry objective input start t.arena mask last id)
          (expand_state objective input policy mask last)
          (get_or s.frontiers (index mask last (location_count objective input)) []) s
          (λ id t p e. expand_state-AllEntries mask last id t p e)
          (λ id other t p e e'. expand_state-Entry mask last id mask last other t e') inv
          (inv.entries mask last lt))
  ]

  -- After a run that is not cancelled.
  abbrev pub Holds : Result Search SolverError → Type 0
  Holds (ok s) = AllEntries objective input start s
  Holds (err e) = Unit

  expand_mask-Holds :
      (mask : ℕ) (s : Result Search SolverError)
      → Holds s
      → Holds (expand_mask objective input policy mask s)
  unfolding expand_mask
  expand_mask-Holds mask (err e) p = elim (Bool-cases input.cancelled) [
    | inl c ↦ rw c tt
    | inr c ↦ rw c tt
  ]
  expand_mask-Holds mask (ok s) p = elim (Bool-cases input.cancelled) [
    | inl c ↦ rw c tt
    | inr c ↦ simp c (
        for_range_inv (AllEntries objective input start) (expand_cell objective input policy mask) 0
          (location_count objective input) s
          (λ last t lo hi q. expand_cell-AllEntries mask last t (omega arith) q) p)
  ]

  pub run_search-Holds :
      (departure wait : ℕ)
      → AllEntries objective input start (initial_search objective input policy departure wait)
      → Holds (run_search objective input policy departure wait)
  unfolding run_search
  run_search-Holds departure wait p =
      for_range_inv Holds (expand_mask objective input policy) 1 (full_mask objective input)
        (ok (initial_search objective input policy departure wait))
        (λ mask s lo hi h. expand_mask-Holds mask s h) p
