-- ===== src/Exact/Search/Stages.antt =====
-- src/solver/exact/bit_dp.rs: the loops of the search, and the drives that its cells cover after
-- each mask.
use troute.Prelude.{
  ℕ, ◌-◌, ◌<◌, ◌≡◌, ◌≢◌, inl, inr, Bool-cases, Option-cases, true, false, ◌==◌, ◌||◌, [], ◌∷◌,
  get_elem?, get_or, arith,
}
use troute.Prelude.Options.{◌>>=◌}
use troute.Prelude.Loops.{any, for_range_reach, for_each_reach, for_each_inv, for_range_inv}
use troute.Solver.Types.{SolverInput}
use troute.Solver.Objective.{default_objective_policy}
use troute.Solver.Evaluate.{Progress}
use troute.Exact.{frontier_point, time_cost_frontier_policy}
use troute.Exact.Masks.{test_bit, set_bit}
use troute.Exact.Search.{
  Search, index, offer, point_test, transition, end_location, is_early_end, try_next, expand_state,
  expand_cell,
}
use troute.Exact.Search.Cells.{Entry, AllEntries, try_next-Entry, try_next-AllEntries}
use troute.Exact.Search.Rounds.{expand_state-Entry, expand_state-AllEntries}
use troute.Exact.Search.Offers.{cell_count, Good, Good-append, Covered}
use troute.Exact.Search.Prefixes.{Edge, Fits, try_next-Covered, try_next_reach}

module _ (input : SolverInput) (start : ℕ) where
  abbrev OwnEntry : Search → (mask last id : ℕ) → Type 0
  OwnEntry s mask last id = Entry default_objective_policy input start s.arena mask last id

  abbrev pub Consistent : Search → Type 0
  Consistent s = AllEntries default_objective_policy input start s

  abbrev go_state : (mask last id : ℕ) → Search → Search
  go_state = expand_state default_objective_policy input time_cost_frontier_policy

  abbrev pub go_cell : (mask last : ℕ) → Search → Search
  go_cell = expand_cell default_objective_policy input time_cost_frontier_policy

  try_next-Good :
      (mask id next i : ℕ) (p : Progress) (s : Search)
      → Good s.arena p i
      → Good
          (try_next default_objective_policy input time_cost_frontier_policy mask id next s).arena
          p
          i
  unfolding try_next offer
  try_next-Good mask id next i p s g =
      elim (Bool-cases
        (test_bit mask next || is_early_end default_objective_policy input mask next)) [
          | inl skipped ↦ rw skipped g
          | inr free ↦
              rw free
                (elim (Option-cases (
                  get_elem? s.arena id >>= λ state.
                  transition default_objective_policy input state id next)) [
                    | inl cut ↦ rw cut g
                    | inr (c, made) ↦
                        rw made
                          (elim (Bool-cases (
                            any
                              (point_test s.arena (λ existing.
                                time_cost_frontier_policy.dominates existing (frontier_point c)))
                              (get_or s.frontiers
                                (index (set_bit mask next) next (cell_count input)) []))) [
                                  | inl dropped ↦ rw dropped g
                                  | inr kept ↦ rw kept (Good-append s.arena (c ∷ []) p i g)
                                ])
                  ])
        ]

  expand_state-Good :
      (mask last id i : ℕ) (p : Progress) (s : Search)
      → Good s.arena p i
      → Good (go_state mask last id s).arena p i
  unfolding expand_state
  expand_state-Good mask last id i p s g =
      elim (Bool-cases (last == end_location default_objective_policy input)) [
        | inl ended ↦ rw ended g
        | inr open_ ↦ rw open_ (
            for_range_inv (λ (t : Search). Good t.arena p i) _ 1 (cell_count input - 1) s
              (λ next t lo hi g'. try_next-Good mask id next i p t g') g)
      ]

  expand_state-Covered :
      (mask last id m l : ℕ) (p : Progress) (s : Search)
      → l < cell_count input
      → Consistent s
      → OwnEntry s mask last id
      → Covered input start s m l p
      → Covered input start (go_state mask last id s) m l p
  unfolding expand_state
  expand_state-Covered mask last id m l p s lt inv e h =
      elim (Bool-cases (last == end_location default_objective_policy input)) [
        | inl ended ↦ rw ended h
        | inr open_ ↦ rw open_ (
            (for_range_inv
              (λ (t : Search). Consistent t × OwnEntry t mask last id × Covered input start t m l p)
              (try_next default_objective_policy input time_cost_frontier_policy mask id) 1
              (cell_count input - 1) s
              (λ next t lo hi q. (
                try_next-AllEntries default_objective_policy input start time_cost_frontier_policy
                    mask last id next t (omega arith) q.1 q.0,
                try_next-Entry default_objective_policy input start time_cost_frontier_policy mask
                    id next mask last id t q.1,
                try_next-Covered input start mask last id next m l p t (omega arith) lt q.1 q.0 q.2,
              ))
              (inv, e, h)).2)
      ]

  expand_state_reach :
      (mask last id next : ℕ) (p : Progress) {p' : Progress} (s : Search)
      → Fits input
      → Edge input mask last next p p'
      → 0 < next
      → last ≢ end_location default_objective_policy input
      → Consistent s
      → OwnEntry s mask last id
      → Good s.arena p id
      → Covered input start (go_state mask last id s) (set_bit mask next) next p'
  unfolding expand_state
  expand_state_reach mask last id next p {p'} s fits g pos away inv e good =
      let open_ : (last == end_location default_objective_policy input) ≡ false = ground arith in
      let inside = g.inside in
      rw open_ (
        for_range_reach (λ (t : Search). Consistent t × OwnEntry t mask last id × Good t.arena p id)
          (λ (t : Search). Covered input start t (set_bit mask next) next p')
          (try_next default_objective_policy input time_cost_frontier_policy mask id) 1
          (cell_count input - 1) next s
          (λ x t lo hi q. (
            try_next-AllEntries default_objective_policy input start time_cost_frontier_policy mask
                last id x t (omega arith) q.1 q.0,
            try_next-Entry default_objective_policy input start time_cost_frontier_policy mask id x
                mask last id t q.1,
            try_next-Good mask id x id p t q.2,
          ))
          (λ t q. try_next_reach input start mask last id next p t fits g q.1 q.0 q.2)
          (λ x t lo hi q h.
            try_next-Covered input start mask last id x (set_bit mask next) next p' t (omega arith)
              g.inside q.1 q.0 h)
          (omega arith) (omega arith) (inv, e, good))

  pub expand_cell-Covered :
      (mask last m l : ℕ) (p : Progress) (s : Search)
      → last < cell_count input
      → l < cell_count input
      → Consistent s
      → Covered input start s m l p
      → Covered input start (go_cell mask last s) m l p
  unfolding expand_cell
  expand_cell-Covered mask last m l p s last_lt lt inv h = elim (Bool-cases (test_bit mask last)) [
    | inr absent ↦ rw absent h
    | inl visited ↦ rw visited (
        (for_each_inv (λ (t : Search). Consistent t × Covered input start t m l p)
          (λ (t : Search) id. OwnEntry t mask last id) (go_state mask last)
          (get_or s.frontiers (index mask last (cell_count input)) []) s
          (λ id t q e. (
            expand_state-AllEntries default_objective_policy input start time_cost_frontier_policy
                mask last id t q.0 e,
            expand_state-Covered mask last id m l p t lt q.0 e q.1,
          ))
          (λ id other t q e e'.
            expand_state-Entry default_objective_policy input start time_cost_frontier_policy mask
              last id mask last other t e')
          (inv, h) (inv.entries mask last last_lt)).1)
  ]

  pub expand_cell_reach :
      (mask last next : ℕ) (p : Progress) {p' : Progress} (s : Search)
      → Fits input
      → Edge input mask last next p p'
      → 0 < next
      → last ≢ end_location default_objective_policy input
      → last < cell_count input
      → test_bit mask last ≡ true
      → Consistent s
      → Covered input start s mask last p
      → Covered input start (go_cell mask last s) (set_bit mask next) next p'
  unfolding expand_cell
  expand_cell_reach mask last next p {p'} s fits g pos away lt visited inv h = rw visited (
      for_each_reach Consistent (λ (t : Search) id. OwnEntry t mask last id)
        (λ (t : Search) id. Good t.arena p id)
        (λ (t : Search). Covered input start t (set_bit mask next) next p') (go_state mask last)
        (get_or s.frontiers (index mask last (cell_count input)) []) s
        (λ id t q e.
          expand_state-AllEntries default_objective_policy input start time_cost_frontier_policy
            mask last id t q e)
        (λ id other t q e e'.
          expand_state-Entry default_objective_policy input start time_cost_frontier_policy mask
            last id mask last other t e')
        (λ id other t q e r. expand_state-Good mask last id other p t r)
        (λ id t q e r. expand_state_reach mask last id next p t fits g pos away q e r)
        (λ id t q e c.
          expand_state-Covered mask last id (set_bit mask next) next p' t g.inside q e c)
        inv (inv.entries mask last lt) h)
