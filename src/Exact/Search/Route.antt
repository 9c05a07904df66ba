-- ===== src/Exact/Search/Route.antt =====
-- src/solver/exact/bit_dp.rs: the route that a state of the search stands for, driven as
-- src/solver.rs drives a complete one.
use troute.Prelude.{
  ℕ, ◌+◌, ◌^◌, ◌≤◌, ◌<◌, ◌≡◌, refl, sym, ◌∙◌, inl, inr, Bool-cases, Option-cases, Bool, true, false,
  ◌==◌, ◌||◌, if◌then◌else◌, leb, none, some, List, [], ◌∷◌, ◌++◌, length, get_elem?, get_or, set,
  replicate, first, last, length-set, length-replicate, get_or-set_self, get_or-set_ne, arith,
}
use troute.Prelude.Options.{◌>>=◌}
use troute.Domain.{OptimizationProblem}
use troute.Matrix
use troute.Solver.Types.{SolverInput}
use troute.Solver.Objective.{ObjectivePolicy}
use troute.Solver.Transition.{slots_per_day, initial_service}
use troute.Solver.Evaluate.{
  Progress, simulate_edge, simulate_edges, simulate_route, mark_all, count_optional, sum_priority,
  is_optional, priority_of,
}
use troute.Solver.Evaluate.Monotone.{IsSound, simulate_edge-IsSound}
use troute.Exact.{ParetoState}
use troute.Exact.Sums.{mask_sum, mask_sum-set_bit}
use troute.Exact.Masks.{test_bit, set_bit, test_bit-set_bit}
use troute.Exact.Search.{transition}

-- The running values of the drive to a state.
abbrev pub progress_of : ParetoState → Progress
progress_of state = record {
  time_slot = state.time_slot;
  travel_minutes = state.travel_minutes;
  wait_minutes = state.wait_minutes;
}

-- What a location adds to the optional visits and to their priority.
abbrev pub optional_one : OptimizationProblem → ℕ → ℕ
optional_one problem index = if is_optional problem index then 1 else 0

abbrev pub optional_priority : OptimizationProblem → ℕ → ℕ
optional_priority problem index = if is_optional problem index then priority_of problem index else 0

simulate_edges-snoc :
    (input : SolverInput) (from to l : ℕ) (rest : List ℕ) (s : Progress)
    → last (from ∷ rest) ≡ some l
    → simulate_edges input from (rest ++ (to ∷ [])) s
      ≡ (simulate_edges input from rest s >>= simulate_edge input l to)
unfolding simulate_edges
simulate_edges-snoc input from to l [] s h =
    let same : from ≡ l = cc in
    elim (Option-cases (simulate_edge input l to s)) [
      | inl e ↦ rw (same, e) refl
      | inr (x, e) ↦ rw (same, e) refl
    ]
simulate_edges-snoc input from to l (x ∷ xs) s h =
    elim (Option-cases (simulate_edge input from x s)) [
      | inl e ↦ rw e refl
      | inr (s', e) ↦ rw e (simulate_edges-snoc input x to l xs s' h)
    ]

mark_all-snoc :
    (n : ℕ) (seen : List Bool) (xs : List ℕ) (x : ℕ)
    → mark_all n seen (xs ++ (x ∷ [])) ≡ (
        mark_all n seen xs >>= λ marked.
        if leb n x || get_or marked x false then none else some (set marked x true))
unfolding mark_all
mark_all-snoc n seen [] x = refl
mark_all-snoc n seen (y ∷ ys) x = elim (Bool-cases (leb n y || get_or seen y false)) [
  | inl e ↦ rw e refl
  | inr e ↦ rw e (mark_all-snoc n (set seen y true) ys x)
]

pub length-mark_all :
    (n : ℕ) (seen : List Bool) (xs : List ℕ) {marked : List Bool}
    → mark_all n seen xs ≡ some marked
    → length marked ≡ length seen
unfolding mark_all
length-mark_all n seen [] h = ground arith
length-mark_all n seen (y ∷ ys) {marked} h = elim (Bool-cases (leb n y || get_or seen y false)) [
  | inl e ↦ absurd (ground arith)
  | inr e ↦
      length-mark_all n (set seen y true) ys {marked = marked} (ground arith)
      ∙ length-set seen y true
]

count_optional-snoc :
    (problem : OptimizationProblem) (xs : List ℕ) (x : ℕ)
    → count_optional problem (xs ++ (x ∷ [])) ≡ count_optional problem xs + optional_one problem x
unfolding count_optional
count_optional-snoc problem [] x = omega arith
count_optional-snoc problem (y ∷ ys) x = omega (arith, count_optional-snoc problem ys x)

sum_priority-snoc :
    (problem : OptimizationProblem) (xs : List ℕ) (x : ℕ)
    → sum_priority problem (xs ++ (x ∷ [])) ≡ sum_priority problem xs + optional_priority problem x
unfolding sum_priority
sum_priority-snoc problem [] x = omega arith
sum_priority-snoc problem (y ∷ ys) x = omega (arith, sum_priority-snoc problem ys x)

pub last-snoc {ℓ} : {A : Type ℓ} (xs : List A) (x : A) → last (xs ++ (x ∷ [])) ≡ some x
last-snoc [] x = refl
last-snoc (y ∷ []) x = refl
last-snoc (y ∷ (z ∷ zs)) x = last-snoc (z ∷ zs) x

module _ (objective : ObjectivePolicy) (input : SolverInput) where
  -- A transition of the search to a location drives the edge to it as `simulate_edge` does, and
  -- counts what the location adds.
  pub transition-simulate_edge :
      (a : ParetoState) (predecessor next : ℕ) {b : ParetoState}
      → transition objective input a predecessor next ≡ some b
      → (simulate_edge input a.location next (progress_of a) ≡ some (progress_of b))
        × (b.location ≡ next)
        × (b.predecessor ≡ some predecessor)
        × (b.score ≡ objective.score b.travel_minutes b.wait_minutes)
        × (b.frontier_cost ≡ objective.frontier_cost b.travel_minutes b.wait_minutes)
        × (b.visited_optional_count ≡ a.visited_optional_count + optional_one input.problem next)
        × (b.visited_optional_priority
            ≡ a.visited_optional_priority + optional_priority input.problem next)
        × (b.visited_optional_priority < 2 ^ 32)
        × (b.time_slot < slots_per_day)
  unfolding transition simulate_edge
  transition-simulate_edge a predecessor next h =
      elim (Option-cases (Matrix.travel_minutes input.matrix a.location next)) [
        | inl cut ↦ absurd (ground arith)
        | inr (travel, driven) ↦ elim (Option-cases (get_elem? input.problem.locations next)) [
          | inl missing ↦ absurd (ground arith)
          | inr (l, found) ↦ (
            ground arith,
            ground arith,
            ground arith,
            ground arith,
            ground arith,
            ground arith,
            ground arith,
            ground arith,
            ground arith,
          )
        ]
      ]

  -- A state at which a visit order ends, with the locations of `mask` visited.
  pub record Drives (start mask : ℕ) (order : List ℕ) (state : ParetoState) : Type 0 where
    pub begins : first order ≡ some 0
    pub ends : last order ≡ some state.location
    pub driven : simulate_route input order start ≡ some (progress_of state)
    pub counted : state.visited_optional_count ≡ count_optional input.problem order
    pub valued : state.visited_optional_priority ≡ sum_priority input.problem order
    pub fits : state.visited_optional_priority < 2 ^ 32
    pub scored : state.score ≡ objective.score state.travel_minutes state.wait_minutes
    pub costed :
        state.frontier_cost ≡ objective.frontier_cost state.travel_minutes state.wait_minutes
    pub in_day : state.time_slot < slots_per_day
    pub waited : state.wait_minutes ≤ state.time_slot
    pub count_of_mask :
        state.visited_optional_count
        ≡ mask_sum (optional_one input.problem) (length input.problem.locations) mask
    pub priority_of_mask :
        state.visited_optional_priority
        ≡ mask_sum (optional_priority input.problem) (length input.problem.locations) mask
    pub marked : List Bool
    pub marks :
        mark_all
          (length input.problem.locations)
          (replicate (length input.problem.locations) false)
          order
        ≡ some marked
    pub masked :
        (j : ℕ) → j < length input.problem.locations → get_or marked j false ≡ test_bit mask j

  simulate_route-snoc :
      (order : List ℕ) (start l next : ℕ)
      → last order ≡ some l
      → simulate_route input (order ++ (next ∷ [])) start
        ≡ (simulate_route input order start >>= simulate_edge input l next)
  unfolding simulate_route
  simulate_route-snoc [] start l next h = cc
  simulate_route-snoc (from ∷ rest) start l next h =
      elim (Option-cases (initial_service input start)) [
        | inl e ↦ rw e refl
        | inr (i, e) ↦ rw e (simulate_edges-snoc input from next l rest _ h)
      ]

  first-append :
      (order : List ℕ) (next : ℕ) → first order ≡ some 0 → first (order ++ (next ∷ [])) ≡ some 0
  first-append [] next h = cc
  first-append (x ∷ xs) next h = h

  -- A transition to a location that is not visited yet drives the order on to it.
  pub transition-Drives :
      (start mask predecessor next : ℕ) (order : List ℕ) (a : ParetoState) {b : ParetoState}
      → next < length input.problem.locations
      → test_bit mask next ≡ false
      → Drives start mask order a
      → transition objective input a predecessor next ≡ some b
      → Drives start (set_bit mask next) (order ++ (next ∷ [])) b
  transition-Drives start mask predecessor next order a {b} lt fresh d h =
      let n : ℕ = length input.problem.locations in
      let (edge, here, _, scored, costed, counted, valued, fits, in_day) =
        transition-simulate_edge a predecessor next h in
      let sound : IsSound (progress_of b) =
        simulate_edge-IsSound input a.location next (progress_of a)
          (record { waited = d.waited; in_day = d.in_day }) edge in
      let unseen : get_or d.marked next false ≡ false = d.masked next lt ∙ fresh in
      let size : length d.marked ≡ n =
        length-mark_all n (replicate n false) order d.marks ∙ length-replicate n false in
      record {
        begins = first-append order next d.begins;
        ends = rw here (last-snoc order next);
        driven = simulate_route-snoc order start a.location next d.ends ∙ rw d.driven edge;
        counted = counted ∙ rw (d.counted) (sym (count_optional-snoc input.problem order next));
        valued = valued ∙ rw (d.valued) (sym (sum_priority-snoc input.problem order next));
        fits = fits;
        scored = scored;
        costed = costed;
        in_day = in_day;
        waited = sound.waited;
        count_of_mask = ground (
          arith,
          counted,
          d.count_of_mask,
          mask_sum-set_bit (optional_one input.problem) n mask next,
        );
        priority_of_mask = ground (
          arith,
          valued,
          d.priority_of_mask,
          mask_sum-set_bit (optional_priority input.problem) n mask next,
        );
        marked = set d.marked next true;
        marks = mark_all-snoc n (replicate n false) order next ∙ rw d.marks (ground arith);
        masked = λ j j_lt. elim (Bool-cases (next == j)) [
          | inl same ↦
              let eq : next ≡ j = ground arith in
              ground (arith, test_bit-set_bit mask next j, get_or-set_self d.marked j true false)
          | inr other ↦ ground (
            arith,
            test_bit-set_bit mask next j,
            d.masked j,
            get_or-set_ne d.marked next j true false,
          )
        ];
      }
