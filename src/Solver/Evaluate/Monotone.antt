-- ===== src/Solver/Evaluate/Monotone.antt =====
-- src/solver.rs: drives of one route from an earlier and a later start.
use troute.Prelude.{
  ℕ, ◌+◌, ◌-◌, ◌≤◌, ◌<◌, max, ◌≡◌, refl, inl, inr, Option-cases, some, List, [], ◌∷◌, get_elem?,
  arith,
}
use troute.Domain.{start_location}
use troute.Matrix
use troute.Solver.Types.{SolverInput, SolverSolution, SolutionMetrics}
use troute.Solver.Objective.{ObjectivePolicy}
use troute.Solver.Transition.{InitialService, initial_service, slots_per_day}
use troute.Solver.Evaluate.{
  Progress, metrics_of, simulate_edge, simulate_edges, simulate_route, simulate_solution,
}

-- Progress within the day, in which the minutes waited have passed.
pub record IsSound (a : Progress) : Type 0 where
  pub waited : a.wait_minutes ≤ a.time_slot
  pub in_day : a.time_slot < slots_per_day

-- The same edges, driven no later.
pub record IsNoLater (a b : Progress) : Type 0 where
  pub time : a.time_slot ≤ b.time_slot
  pub travel : a.travel_minutes ≡ b.travel_minutes
  pub sound : IsSound a

pub simulate_edge-IsSound :
    (input : SolverInput) (from to : ℕ) (a : Progress) {a' : Progress}
    → IsSound a
    → simulate_edge input from to a ≡ some a'
    → IsSound a'
unfolding simulate_edge
simulate_edge-IsSound input from to a s h = ground (arith, s.waited, s.in_day)

simulate_edge_mono :
    (input : SolverInput) (from to : ℕ) (a b : Progress) {b' : Progress}
    → IsNoLater a b
    → simulate_edge input from to b ≡ some b'
    → (a' : Progress) × (simulate_edge input from to a ≡ some a') × IsNoLater a' b'
unfolding simulate_edge
simulate_edge_mono input from to a b {b'} e h =
    elim (Option-cases (Matrix.travel_minutes input.matrix from to)) [
      | inl cut ↦ absurd (ground arith)
      | inr (travel, driven) ↦ elim (Option-cases (get_elem? input.problem.locations to)) [
        | inl missing ↦ absurd (ground arith)
        | inr (l, found) ↦
            let service : ℕ = max (a.time_slot + travel) l.time_window.opens.minutes in
            let a' : Progress = record {
              time_slot = service + l.stay_minutes;
              travel_minutes = a.travel_minutes + travel;
              wait_minutes = a.wait_minutes + (service - (a.time_slot + travel));
            } in
            (a', ground arith, ground arith)
      ]
    ]

simulate_edges_mono :
    (input : SolverInput) (from : ℕ) (rest : List ℕ) (a b : Progress) {b' : Progress}
    → IsNoLater a b
    → simulate_edges input from rest b ≡ some b'
    → (a' : Progress) × (simulate_edges input from rest a ≡ some a') × IsNoLater a' b'
unfolding simulate_edges
simulate_edges_mono input from [] a b {b'} e h = (a, refl, ground arith)
simulate_edges_mono input from (to ∷ rest) a b {b'} e h =
    elim (Option-cases (simulate_edge input from to b)) [
      | inl cut ↦ absurd (ground arith)
      | inr (b₁, step) ↦
          let (a₁, step', e₁) = simulate_edge_mono input from to a b e step in
          let (a₂, steps', e₂) =
            simulate_edges_mono input to rest a₁ b₁ {b' = b'} e₁ (ground arith) in
          (a₂, rw step' steps', e₂)
    ]

-- The progress with which a route begins.
abbrev pub depart : (start departure wait : ℕ) → Progress
depart start departure wait = record {
  time_slot = departure;
  travel_minutes = 0;
  wait_minutes = wait;
}

initial_service_mono :
    (input : SolverInput) (s t : ℕ) {late : InitialService}
    → s ≤ t
    → initial_service input t ≡ some late
    → (early : InitialService) × (initial_service input s ≡ some early)
      × (early.departure_slot ≤ late.departure_slot)
      × (early.wait_minutes ≤ early.departure_slot)
      × (early.departure_slot < slots_per_day)
unfolding initial_service
initial_service_mono input s t {late} e h = elim (Option-cases (start_location input.problem)) [
  | inl empty ↦ absurd (ground arith)
  | inr (l, found) ↦
      let service : ℕ = max s l.time_window.opens.minutes in
      (
        record { departure_slot = service + l.stay_minutes; wait_minutes = service - s },
        ground arith,
        ground arith,
        ground arith,
        ground arith,
      )
]

simulate_route_mono :
    (input : SolverInput) (order : List ℕ) (s t : ℕ) {late : Progress}
    → s ≤ t
    → simulate_route input order t ≡ some late
    → (early : Progress) × (simulate_route input order s ≡ some early) × IsNoLater early late
unfolding simulate_route
simulate_route_mono input [] s t e h = absurd (ground arith)
simulate_route_mono input (from ∷ rest) s t {late} e h =
    elim (Option-cases (initial_service input t)) [
      | inl shut ↦ absurd (ground arith)
      | inr (i, started) ↦
          let (j, begun, no_later, waited, in_day) =
            initial_service_mono input s t {late = i} e started in
          let (early, driven, r) =
            simulate_edges_mono input from rest (depart s j.departure_slot j.wait_minutes)
              (depart t i.departure_slot i.wait_minutes) {b' = late} (ground arith)
              (ground arith) in
          (early, rw begun driven, r)
    ]

simulate_edges-IsSound :
    (input : SolverInput) (from : ℕ) (rest : List ℕ) (a : Progress) {a' : Progress}
    → IsSound a
    → simulate_edges input from rest a ≡ some a'
    → IsSound a'
unfolding simulate_edges
simulate_edges-IsSound input from [] a s h = ground arith
simulate_edges-IsSound input from (to ∷ rest) a s h =
    elim (Option-cases (simulate_edge input from to a)) [
      | inl cut ↦ absurd (ground arith)
      | inr (b, step) ↦
          simulate_edges-IsSound input to rest b (simulate_edge-IsSound input from to a s step)
            (ground arith)
    ]

-- A simulated route ends within the day, after the minutes that were waited.
pub simulate_route-IsSound :
    (input : SolverInput) (order : List ℕ) (s : ℕ) {a : Progress}
    → simulate_route input order s ≡ some a
    → IsSound a
unfolding simulate_route
simulate_route-IsSound input [] s h = absurd (ground arith)
simulate_route-IsSound input (from ∷ rest) s {a} h = elim (Option-cases (initial_service input s)) [
  | inl shut ↦ absurd (ground arith)
  | inr (i, started) ↦
      let (j, begun, _, waited, in_day) =
        initial_service_mono input s s {late = i} (omega arith) started in
      let same : i ≡ j = cc in
      simulate_edges-IsSound input from rest (depart s i.departure_slot i.wait_minutes) {a' = a}
        (rw same (record { waited = waited; in_day = in_day })) (ground arith)
]

-- A route that is feasible from the minute `t` is feasible from every earlier minute `s`; it then
-- finishes no later, and the travel is the same.
pub simulate_solution_mono :
    (objective : ObjectivePolicy) (input : SolverInput) (solution : SolverSolution) (s t : ℕ)
    {late : SolutionMetrics}
    → s ≤ t
    → simulate_solution objective input solution t ≡ some late
    → (early : SolutionMetrics) × (simulate_solution objective input solution s ≡ some early)
      × (early.finish_time_slot ≤ late.finish_time_slot)
      × (early.travel_minutes ≡ late.travel_minutes)
unfolding simulate_solution
simulate_solution_mono objective input solution s t {late} e h =
    elim (Option-cases (simulate_route input solution.visit_order t)) [
      | inl cut ↦ absurd (ground arith)
      | inr (b, driven) ↦
          let (a, early, r) =
            simulate_route_mono input solution.visit_order s t {late = b} e driven in
          let sound = simulate_route-IsSound input solution.visit_order t driven in
          (
            metrics_of objective input.problem solution.visit_order s a,
            ground arith,
            ground arith,
            ground arith,
          )
    ]
