-- ===== src/Exact/Search/Reached.antt =====
-- src/solver/exact/bit_dp.rs: all drives that the code allows, and the cells that cover them after
-- the loop over the masks.
use troute.Prelude.{
  ℕ, zero, suc, length, replicate, get_or, set, length-replicate, get_or-set_self, ◌*◌, ◌^◌, ◌<◌,
  ◌≤◌, ◌≡◌, ◌≢◌, refl, sym, subst, inl, inr, Bool-cases, true, false, ◌==◌, some, Result, ok, List,
  [], ◌∷◌, arith,
}
use troute.Prelude.Loops.{Any, for_range, for_range_reach, for_range_inv, for_range_staged}
use troute.Solver.Types.{SolverInput, SolverError}
use troute.Solver.Objective.{default_objective_policy}
use troute.Solver.Transition.{InitialService, initial_service}
use troute.Solver.Evaluate.{Progress}
use troute.Solver.Evaluate.Monotone.{depart}
use troute.Exact.{ParetoState, time_cost_frontier_policy}
use troute.Exact.Search.Better.{IsBetter-refl}
use troute.Exact.Masks.{power_pos, test_bit, set_bit, test_bit-set_bit}
use troute.Exact.Sums.{lt-set_bit}
use troute.Exact.Search.{
  Search, index, initial_state, end_location, full_mask, expand_mask, initial_search, run_search,
}
use troute.Exact.Search.Rounds.{expand_cell-AllEntries}
use troute.Exact.Search.Start.{IsRooted, initial_AllEntries}
use troute.Exact.Search.Offers.{cell_count, index-lt, Good, Covered}
use troute.Exact.Search.Prefixes.{Edge, Fits}
use troute.Exact.Search.Stages.{Consistent, go_cell, expand_cell-Covered, expand_cell_reach}

pub one-lt-power : (n : ℕ) → 0 < n → 1 < 2 ^ n
one-lt-power zero h = elim h [ ]
one-lt-power (suc n) h = let pos = power_pos n in omega arith

module _ (input : SolverInput) where
  -- A drive from the start: the locations visited, the last of them, those visited before it, and
  -- the running values.
  pub data Drive (begin : Progress) : ℕ → ℕ → ℕ → Progress → Type 0 where
    at_start : Drive begin 1 0 0 begin
    onward :
        (mask last before next : ℕ) (p p' : Progress)
        → Drive begin mask last before p
        → Edge input mask last next p p'
        → 0 < next
        → last ≢ end_location default_objective_policy input
        → Drive begin (set_bit mask next) next mask p'

  pub Drive-inside :
      {begin p : Progress} {mask last before : ℕ}
      → 0 < cell_count input
      → Drive begin mask last before p
      → (last < cell_count input)
        × (before < mask)
        × (test_bit mask last ≡ true)
        × (test_bit mask 0 ≡ true)
  unfolding test_bit
  Drive-inside pos at_start = (pos, omega arith, refl, refl)
  Drive-inside pos (onward mask last before next p p' d g n away) =
      let (_, _, _, first_set) = Drive-inside pos d in
      (
        g.inside,
        lt-set_bit mask next g.fresh,
        ground (arith, test_bit-set_bit mask next next),
        ground (arith, test_bit-set_bit mask next 0),
      )

module _ (input : SolverInput) (start : ℕ) (begin : Progress) where
  cells-Covered :
      (mask m l : ℕ) (p : Progress) (s : Search)
      → l < cell_count input
      → Consistent input start s
      → Covered input start s m l p
      → Covered input start (for_range 0 (cell_count input) (go_cell input start mask) s) m l p
  cells-Covered mask m l p s lt inv h =
      (for_range_inv (λ (t : Search). Consistent input start t × Covered input start t m l p)
        (go_cell input start mask) 0 (cell_count input) s
        (λ last t lo hi q. (
          expand_cell-AllEntries default_objective_policy input start time_cost_frontier_policy mask
              last t (omega arith) q.0,
          expand_cell-Covered input start mask last m l p t (omega arith) lt q.0 q.1,
        ))
        (inv, h)).1

  cells_reach :
      (mask last next : ℕ) (p : Progress) {p' : Progress} (s : Search)
      → Fits input
      → Edge input mask last next p p'
      → 0 < next
      → last ≢ end_location default_objective_policy input
      → last < cell_count input
      → test_bit mask last ≡ true
      → Consistent input start s
      → Covered input start s mask last p
      → Covered input start
          (for_range 0 (cell_count input) (go_cell input start mask) s)
          (set_bit mask next)
          next
          p'
  cells_reach mask last next p {p'} s fits g pos away lt visited inv h =
      for_range_reach (λ (t : Search). Consistent input start t × Covered input start t mask last p)
        (λ (t : Search). Covered input start t (set_bit mask next) next p')
        (go_cell input start mask) 0 (cell_count input) last s
        (λ x t lo hi q. (
          expand_cell-AllEntries default_objective_policy input start time_cost_frontier_policy mask
              x t (omega arith) q.0,
          expand_cell-Covered input start mask x mask last p t (omega arith) lt q.0 q.1,
        ))
        (λ t q. expand_cell_reach input start mask last next p t fits g pos away lt visited q.0 q.1)
        (λ x t lo hi q c.
          expand_cell-Covered input start mask x (set_bit mask next) next p' t (omega arith)
            g.inside q.0 c)
        (omega arith) (omega arith) (inv, h)

  -- A search after the masks below `stage`: it covers the drives to which those masks lead.
  pub record HasReached (stage : ℕ) (r : Result Search SolverError) : Type 0 where
    pub search : Search
    pub running : r ≡ ok search
    pub consistent : Consistent input start search
    pub covers :
        (mask last before : ℕ) (p : Progress)
        → Drive input begin mask last before p
        → before < stage
        → Covered input start search mask last p

  expand_mask-ok :
      (mask : ℕ) (s : Search)
      → input.cancelled ≡ false
      → expand_mask default_objective_policy input time_cost_frontier_policy mask (ok s)
        ≡ ok (for_range 0 (cell_count input) (go_cell input start mask) s)
  unfolding expand_mask
  expand_mask-ok mask s c = simp c

  -- The round of a mask covers every drive on from it.
  stage_covers :
      (stage : ℕ) (s : Search)
      → 0 < cell_count input
      → Fits input
      → 1 ≤ stage
      → Consistent input start s
      → ((mask last before : ℕ) (p : Progress)
          → Drive input begin mask last before p
          → before < stage
          → Covered input start s mask last p)
      → (mask last before : ℕ) (p : Progress) → Drive input begin mask last before p
      → before < suc stage
      → Covered input start
          (for_range 0 (cell_count input) (go_cell input start stage) s)
          mask
          last
          p
  stage_covers stage s pos fits one inv h mask last before p at_start lt =
      cells-Covered stage 1 0 begin s pos inv (h 1 0 0 begin at_start (omega arith))
  stage_covers stage s pos fits one inv h mask last before p
        (onward mask' last' before' next q q' d g n away) lt =
      elim (Bool-cases (mask' == stage)) [
        | inr earlier ↦ cells-Covered stage (set_bit mask' next) next q' s g.inside inv (
            h (set_bit mask' next) next mask' q' (onward mask' last' before' next q q' d g n away)
              (ground arith))
        | inl now ↦
            let eq : mask' ≡ stage = ground arith in
            let (inside, less, visited, _) = Drive-inside input pos d in
            subst
              (λ k.
                Covered input start (for_range 0 (cell_count input) (go_cell input start k) s)
                  (set_bit mask' next) next q')
              eq
              (cells_reach mask' last' next q s fits g n away inside visited inv
                (h mask' last' before' q d (omega arith)))
      ]

  expand_mask-HasReached :
      (stage : ℕ) (r : Result Search SolverError)
      → 0 < cell_count input
      → Fits input
      → input.cancelled ≡ false
      → 1 ≤ stage
      → HasReached stage r
      → HasReached
          (suc stage)
          (expand_mask default_objective_policy input time_cost_frontier_policy stage r)
  expand_mask-HasReached stage r pos fits c one h = record {
    search = for_range 0 (cell_count input) (go_cell input start stage) h.search;
    running = rw h.running (expand_mask-ok stage h.search c);
    consistent =
        for_range_inv (Consistent input start) (go_cell input start stage) 0 (cell_count input)
          h.search
          (λ last t lo hi q.
            expand_cell-AllEntries default_objective_policy input start time_cost_frontier_policy
              stage last t (omega arith) q)
          h.consistent;
    covers = stage_covers stage h.search pos fits one h.consistent h.covers;
  }

module _ (input : SolverInput) (start : ℕ) where
  initial_covers :
      (i : InitialService)
      → IsRooted default_objective_policy input start
      → (mask last before : ℕ) (p : Progress)
      → Drive input (depart start i.departure_slot i.wait_minutes) mask last before p
      → before < 1
      → Covered input start
          (initial_search default_objective_policy input time_cost_frontier_policy i.departure_slot
            i.wait_minutes)
          mask
          last
          p
  initial_covers i r mask last before p at_start lt =
      let begin : Progress = depart start i.departure_slot i.wait_minutes in
      let n : ℕ = cell_count input in
      let a : ParetoState =
        initial_state default_objective_policy input i.departure_slot i.wait_minutes in
      let cells : List (List ℕ) = replicate (2 ^ n * n) [] in
      let small = one-lt-power n r.nonempty in
      let inside : index 1 0 n < length cells =
        subst (λ k. index 1 0 n < k) (sym (length-replicate (2 ^ n * n) []))
          (index-lt n 1 0 (2 ^ n) small r.nonempty) in
      let here : Good (a ∷ []) begin 0 = record {
        state = a;
        found = refl;
        better = IsBetter-refl begin;
      } in
      let cell : get_or (set cells (index 1 0 n) (0 ∷ [])) (index 1 0 n) [] ≡ 0 ∷ [] =
        get_or-set_self cells (index 1 0 n) (0 ∷ []) [] inside in
      subst (λ ids. Any (Good (a ∷ []) begin) ids) (sym cell) (inl here)
  initial_covers i r mask last before p (onward mask' last' before' next q q' d g n away) lt =
      let (_, less, _, _) = Drive-inside input r.nonempty d in absurd (omega arith)

  -- A run that is not cancelled ends, and covers every drive from the start.
  pub run_search-HasReached :
      (i : InitialService)
      → IsRooted default_objective_policy input start
      → Fits input
      → input.cancelled ≡ false
      → initial_service input start ≡ some i
      → HasReached input start
          (depart start i.departure_slot i.wait_minutes)
          (2 ^ cell_count input)
          (run_search default_objective_policy input time_cost_frontier_policy i.departure_slot
            i.wait_minutes)
  unfolding run_search
  run_search-HasReached i r fits c begun =
      let begin : Progress = depart start i.departure_slot i.wait_minutes in
      let s : Search =
        initial_search default_objective_policy input time_cost_frontier_policy i.departure_slot
          i.wait_minutes in
      let enough = power_pos (cell_count input) in
      subst
        (λ k. HasReached input start begin k (
          run_search default_objective_policy input time_cost_frontier_policy i.departure_slot
            i.wait_minutes))
        (omega arith)
        (for_range_staged (HasReached input start begin)
          (expand_mask default_objective_policy input time_cost_frontier_policy) 1
          (full_mask default_objective_policy input) (ok s)
          (λ stage t lo hi h.
            expand_mask-HasReached input start begin stage t r.nonempty fits c lo h)
          (record {
            search = s;
            running = refl;
            consistent =
                initial_AllEntries default_objective_policy input start time_cost_frontier_policy i
                  r begun;
            covers = initial_covers i r;
          }))
