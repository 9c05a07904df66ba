-- ===== src/Exact/Search.antt =====
-- src/solver/exact/bit_dp.rs: the search from one start, and its transition.
pub mod Route
pub mod Cells
pub mod Rounds
pub mod Better
pub mod Offers
pub mod Prefixes
pub mod Stages
pub mod Reached
pub mod Chain
pub mod Least
pub mod Valid
pub mod Optimal
pub mod Start
pub mod Complete
pub mod Sound
use troute.Prelude.{
  ℕ, zero, suc, ◌+◌, ◌-◌, ◌*◌, ◌%◌, ◌^◌, max, ltb, leb, ◌==◌, if◌then◌else◌, Bool, true, false, not,
  ◌||◌, ◌&&◌, Option, none, some, Ordering, Result, ok, err, List, [], ◌∷◌, ◌++◌, length, get_elem?,
  get_or, set, replicate,
}
use mathlib.Core.List.{reverse}
use troute.Prelude.U32
use troute.Prelude.Options.{◌>>=◌}
use troute.Prelude.Results
use troute.Prelude.Loops.{for_range, for_each, any, retain}
use troute.Domain.{OptimizationProblem, StartPolicy, end_location_index, start_location_index}
use troute.Matrix
use troute.Solver.Types.{SolverInput, SolutionMetrics, SolverError, time_slot_minutes}
use troute.Solver.Objective.{ObjectivePolicy}
use troute.Solver.Transition.{
  initial_service, minutes_to_slot_ceil, slots_per_day, open_slot, close_slot,
}
use troute.Solver.Evaluate.{is_all_required}
use troute.Exact.{FrontierPolicy, FrontierPoint, ParetoState, ExactSolveResult, frontier_point}
use troute.Exact.Masks.{test_bit, set_bit, covers, required_bits}

-- The arena of all states and the cells of those that are not dominated, by their ids.
pub record Search : Type 0 where
  pub arena : List ParetoState
  pub frontiers : List (List ℕ)

abbrev pub index : (mask last location_count : ℕ) → ℕ
index mask last location_count = mask * location_count + last

unfoldable pub metrics : StartPolicy → ℕ → ParetoState → SolutionMetrics
metrics start_policy start_time_slot state = record {
  start_policy = start_policy;
  visited_optional_count = state.visited_optional_count;
  visited_optional_priority = state.visited_optional_priority;
  start_time_slot = start_time_slot;
  finish_time_slot = state.time_slot;
  travel_minutes = state.travel_minutes;
  wait_minutes = state.wait_minutes;
  score = state.score;
}

-- `dominates(arena[id], point)` and the like: a cell holds ids of the arena only.
abbrev pub point_test : List ParetoState → (FrontierPoint → Bool) → ℕ → Bool
point_test arena test id = elim (get_elem? arena id) [
  | none ↦ false
  | some state ↦ test (frontier_point state)
]

-- A candidate is dropped where its cell has a state that dominates it; else it takes the place of
-- those that it dominates.
unfoldable pub offer : FrontierPolicy → (cell : ℕ) → ParetoState → Search → Search
offer policy cell candidate s =
    let frontier = get_or s.frontiers cell [] in
    let point = frontier_point candidate in
    if any (point_test s.arena (λ existing. policy.dominates existing point)) frontier
    then s
    else let kept =
        retain (λ id. not (point_test s.arena (λ existing. policy.dominates point existing) id))
          frontier in
      record {
        arena = s.arena ++ (candidate ∷ []);
        frontiers = set s.frontiers cell (kept ++ (length s.arena ∷ []));
      }

module _ {ℓ} {A : Type ℓ} where
  -- `Iterator::min_by`: the first of the least.
  abbrev pub min_from : (A → A → Ordering) → A → List A → A
  min_from order best [] = best
  min_from order best (x ∷ xs) =
      min_from order (elim (order best x) [ Ordering.gt ↦ x | _ ↦ best ]) xs

  abbrev pub min_by : (A → A → Ordering) → List A → Option A
  min_by order [] = none
  min_by order (x ∷ xs) = some (min_from order x xs)

  abbrev pub total_length : List (List A) → ℕ
  total_length [] = 0
  total_length (cell ∷ cells) = length cell + total_length cells

  abbrev pub count_nonempty : List (List A) → ℕ
  count_nonempty [] = 0
  count_nonempty ([] ∷ cells) = count_nonempty cells
  count_nonempty ((x ∷ cell) ∷ cells) = suc (count_nonempty cells)

-- `while let Some(state_id) = cursor`: a predecessor stands before its state in the arena, so as
-- many rounds as the arena has states are enough.
unfoldable pub trace : (rounds : ℕ) → List ParetoState → Option ℕ → List ℕ
trace zero arena cursor = []
trace (suc rounds) arena none = []
trace (suc rounds) arena (some id) = elim (get_elem? arena id) [
  | none ↦ []
  | some state ↦ state.location ∷ trace rounds arena state.predecessor
]

module _ (objective : ObjectivePolicy) (input : SolverInput) where
  -- The read of the location is an index that panics out of range: `next` is a location.
  unfoldable pub transition : ParetoState → (predecessor next : ℕ) → Option ParetoState
  transition state predecessor next = do
    travel ← Matrix.travel_minutes input.matrix state.location next
    arrival ← U32.checked_add state.time_slot (minutes_to_slot_ceil travel)
    location ← get_elem? input.problem.locations next
    let service_start = max arrival (open_slot location)
    finish ← U32.checked_add service_start (minutes_to_slot_ceil location.stay_minutes)
    if ltb (close_slot location) finish || leb slots_per_day finish then none else do
      wait ← U32.checked_mul (service_start - arrival) time_slot_minutes
      total_travel ← U32.checked_add state.travel_minutes travel
      total_wait ← U32.checked_add state.wait_minutes wait
      let optional = not location.required
      priority ←
          U32.checked_add state.visited_optional_priority
            (if optional then location.priority else 0)
      some (record {
        time_slot = finish % 2 ^ 16;
        travel_minutes = total_travel;
        wait_minutes = total_wait;
        visited_optional_count = state.visited_optional_count + (if optional then 1 else 0);
        visited_optional_priority = priority;
        score = objective.score total_travel total_wait;
        frontier_cost = objective.frontier_cost total_travel total_wait;
        predecessor = some predecessor;
        location = next;
      })

  abbrev pub location_count : ℕ
  location_count = length input.problem.locations

  abbrev pub full_mask : ℕ
  full_mask = 2 ^ location_count - 1

  abbrev pub end_location : ℕ
  end_location = end_location_index input.problem

  abbrev pub required_mask : ℕ
  required_mask = required_bits input.problem.locations 0 0

  abbrev pub is_partial : Bool
  is_partial = not (is_all_required input.problem.visit_policy)

  -- The destination is not visited before the other locations, or the required ones.
  abbrev pub is_early_end : (mask next : ℕ) → Bool
  is_early_end mask next =
      (next == end_location)
      && ((not is_partial && not (set_bit mask next == full_mask))
          || not (covers location_count (set_bit mask next) required_mask))

  abbrev pub initial_state : (departure_slot wait_minutes : ℕ) → ParetoState
  initial_state departure_slot wait_minutes = record {
    time_slot = departure_slot;
    travel_minutes = 0;
    wait_minutes = wait_minutes;
    visited_optional_count = 0;
    visited_optional_priority = 0;
    score = objective.score 0 wait_minutes;
    frontier_cost = objective.frontier_cost 0 wait_minutes;
    predecessor = none;
    location = start_location_index input.problem;
  }

  module _ (policy : FrontierPolicy) where
    -- One round of the innermost loop: the state goes on to `next`.
    unfoldable pub try_next : (mask id next : ℕ) → Search → Search
    try_next mask id next s =
        if test_bit mask next || is_early_end mask next
        then s
        else elim (get_elem? s.arena id >>= λ state. transition state id next) [
          | none ↦ s
          | some candidate ↦
              offer policy (index (set_bit mask next) next location_count) candidate s
        ]

    unfoldable pub expand_state : (mask last id : ℕ) → Search → Search
    unfolding try_next
    expand_state mask last id s =
        if last == end_location then s else for_range 1 (location_count - 1) (try_next mask id) s

    unfoldable pub expand_cell : (mask last : ℕ) → Search → Search
    unfolding expand_state
    expand_cell mask last s =
        if test_bit mask last
        then for_each (get_or s.frontiers (index mask last location_count) [])
            (expand_state mask last) s
        else s

    unfoldable pub expand_mask : ℕ → Result Search SolverError → Result Search SolverError
    unfolding expand_cell
    expand_mask mask s =
        if input.cancelled
        then Results.◌>>=◌ s (λ t. err SolverError.cancelled)
        else Results.◌>>=◌ s (λ t. ok (for_range 0 location_count (expand_cell mask) t))

    abbrev pub initial_search : (departure_slot wait_minutes : ℕ) → Search
    initial_search departure_slot wait_minutes = record {
      arena = initial_state departure_slot wait_minutes ∷ [];
      frontiers =
          set (replicate (2 ^ location_count * location_count) []) (index 1 0 location_count)
            (0 ∷ []);
    }

    unfoldable pub run_search : (departure_slot wait_minutes : ℕ) → Result Search SolverError
    unfolding expand_mask
    run_search departure_slot wait_minutes =
        for_range 1 full_mask expand_mask (ok (initial_search departure_slot wait_minutes))

  -- The ids of the complete routes.
  unfoldable pub terminal_ids : Search → List ℕ
  terminal_ids s =
      if is_partial
      then for_range 1 full_mask
          (λ mask ids.
            if test_bit mask end_location && covers location_count mask required_mask
            then ids ++ get_or s.frontiers (index mask end_location location_count) []
            else ids)
          []
      else get_or s.frontiers (index full_mask end_location location_count) []

  -- The order of two complete routes, both of the arena.
  abbrev pub compare_ids : List ParetoState → ℕ → ℕ → ℕ → Ordering
  compare_ids arena start left right = elim (get_elem? arena left) [
    | none ↦ Ordering.eq
    | some a ↦ elim (get_elem? arena right) [
      | none ↦ Ordering.eq
      | some b ↦
          objective.cmp (metrics input.problem.start_policy start a)
            (metrics input.problem.start_policy start b)
    ]
  ]

  -- The best complete route, traced back through the arena.
  unfoldable pub select_best : (start_time_slot : ℕ) → Search → Option ExactSolveResult
  select_best start s = do
    best_id ← min_by (compare_ids s.arena start) (terminal_ids s)
    best ← get_elem? s.arena best_id
    some (record {
      solution = record { visit_order = reverse (trace (length s.arena) s.arena (some best_id)) };
      metrics = metrics input.problem.start_policy start best;
      stats = record {
        generated_states = length s.arena;
        frontier_states = total_length s.frontiers;
        frontier_cells = count_nonempty s.frontiers;
      };
    })

  unfoldable pub search_at_start :
      FrontierPolicy → (start_time_slot : ℕ) → Result (Option ExactSolveResult) SolverError
  search_at_start policy start = elim (initial_service input start) [
    | none ↦ ok none
    | some initial ↦
        Results.◌>>=◌ (run_search policy initial.departure_slot initial.wait_minutes)
          (λ s. ok (select_best start s))
  ]
