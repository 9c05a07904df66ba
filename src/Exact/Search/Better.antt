-- ===== src/Exact/Search/Better.antt =====
-- src/solver/exact/frontier.rs: what it means for the rest of a route that one state dominates
-- another.
use troute.Prelude.{
  ℕ, ◌+◌, ◌-◌, ◌^◌, ◌≤◌, ◌<◌, ◌≡◌, refl, ◌≢◌, ◌⊎◌, max, inl, inr, Option-cases, true, some,
  get_elem?, Ordering, arith,
}
use troute.Domain.{StartPolicy, Location}
use troute.Matrix
use troute.Solver.Types.{SolverInput, SolutionMetrics}
use troute.Solver.Objective.{
  default_objective_policy, default_compare, start_order, default_frontier_cost, default_score,
}
use troute.Solver.Transition.{slots_per_day}
use troute.Solver.Evaluate.{Progress, simulate_edge}
use troute.Solver.Evaluate.Monotone.{IsSound}
use troute.Exact.{ParetoState, frontier_point, time_cost_dominates}
use troute.Exact.Search.{transition, metrics}
use troute.Exact.Search.Route.{progress_of, optional_one, optional_priority}

-- No later, with no more travel, and on a tie with no more waiting even after waiting for the other.
pub record IsBetter (a b : Progress) : Type 0 where
  pub time : a.time_slot ≤ b.time_slot
  pub cost :
      (a.travel_minutes < b.travel_minutes)
      ⊎ ((a.travel_minutes ≡ b.travel_minutes)
          × (a.wait_minutes + (b.time_slot - a.time_slot) ≤ b.wait_minutes))

pub IsBetter-refl : (a : Progress) → IsBetter a a
IsBetter-refl a = ground arith

pub IsBetter-trans : {a b c : Progress} → IsBetter a b → IsBetter b c → IsBetter a c
IsBetter-trans p q = ground (arith, p.cost, q.cost)

-- A dominating state of the frontier, within the day, is better.
pub time_cost_dominates-IsBetter :
    (a b : ParetoState)
    → a.frontier_cost ≡ default_objective_policy.frontier_cost a.travel_minutes a.wait_minutes
    → b.frontier_cost ≡ default_objective_policy.frontier_cost b.travel_minutes b.wait_minutes
    → IsSound (progress_of a)
    → IsSound (progress_of b)
    → time_cost_dominates (frontier_point a) (frontier_point b) ≡ true
    → IsBetter (progress_of a) (progress_of b)
unfolding time_cost_dominates frontier_point default_frontier_cost
time_cost_dominates-IsBetter a b ca cb sa sb h = ground arith

simulate_edge_reads :
    (input : SolverInput) (from to : ℕ) (p : Progress) {p' : Progress}
    → simulate_edge input from to p ≡ some p'
    → (travel : ℕ) × (l : Location) × (Matrix.travel_minutes input.matrix from to ≡ some travel)
      × (get_elem? input.problem.locations to ≡ some l)
unfolding simulate_edge
simulate_edge_reads input from to p h =
    elim (Option-cases (Matrix.travel_minutes input.matrix from to)) [
      | inl cut ↦ absurd (ground arith)
      | inr (travel, driven) ↦ elim (Option-cases (get_elem? input.problem.locations to)) [
        | inl missing ↦ absurd (ground arith)
        | inr (l, found) ↦ (travel, l, driven, found)
      ]
    ]

module _ (input : SolverInput) (from to : ℕ) {travel : ℕ} {l : Location}
    (driven : Matrix.travel_minutes input.matrix from to ≡ some travel)
    (found : get_elem? input.problem.locations to ≡ some l) where
  -- The edge of a successful drive, in minutes.
  simulate_edge_inv :
      (p : Progress) {p' : Progress}
      → simulate_edge input from to p ≡ some p'
      → (p'.time_slot ≡ max (p.time_slot + travel) l.time_window.opens.minutes + l.stay_minutes)
        × (p'.travel_minutes ≡ p.travel_minutes + travel)
        × (p'.wait_minutes
            ≡ p.wait_minutes
              + (max (p.time_slot + travel) l.time_window.opens.minutes - (p.time_slot + travel)))
        × (p'.time_slot ≤ l.time_window.closes.minutes)
        × (p'.time_slot < slots_per_day)
        × (p'.travel_minutes < 2 ^ 32)
  unfolding simulate_edge
  simulate_edge_inv p h =
      (ground arith, ground arith, ground arith, ground arith, ground arith, ground arith)

  -- A transition within the day and the window succeeds.
  transition-some :
      (a : ParetoState) (predecessor service : ℕ)
      → a.location ≡ from
      → service ≡ max (a.time_slot + travel) l.time_window.opens.minutes
      → service + l.stay_minutes ≤ l.time_window.closes.minutes
      → service + l.stay_minutes < slots_per_day
      → a.travel_minutes + travel < 2 ^ 32
      → a.wait_minutes ≤ a.time_slot
      → a.visited_optional_priority + optional_priority input.problem to < 2 ^ 32
      → (b : ParetoState) × (transition default_objective_policy input a predecessor to ≡ some b)
        × (b.time_slot ≡ service + l.stay_minutes)
        × (b.travel_minutes ≡ a.travel_minutes + travel)
        × (b.wait_minutes ≡ a.wait_minutes + (service - (a.time_slot + travel)))
  unfolding transition
  transition-some a predecessor service here e closes in_day fits waited priority =
      let wait : ℕ = a.wait_minutes + (service - (a.time_slot + travel)) in
      let b : ParetoState = record {
        time_slot = service + l.stay_minutes;
        travel_minutes = a.travel_minutes + travel;
        wait_minutes = wait;
        visited_optional_count = a.visited_optional_count + optional_one input.problem to;
        visited_optional_priority =
            a.visited_optional_priority + optional_priority input.problem to;
        score = default_objective_policy.score (a.travel_minutes + travel) wait;
        frontier_cost = default_objective_policy.frontier_cost (a.travel_minutes + travel) wait;
        predecessor = some predecessor;
        location = to;
      } in
      (b, ground arith, refl, refl, refl)

-- The better of two drives can take every edge that the other takes, and stays better.
pub transition-IsBetter :
    (input : SolverInput) (a : ParetoState) (predecessor next : ℕ) (p : Progress) {p' : Progress}
    → IsSound (progress_of a)
    → IsBetter (progress_of a) p
    → a.visited_optional_priority + optional_priority input.problem next < 2 ^ 32
    → simulate_edge input a.location next p ≡ some p'
    → (b : ParetoState) × (transition default_objective_policy input a predecessor next ≡ some b)
      × IsBetter (progress_of b) p'
transition-IsBetter input a predecessor next p {p'} s e fits h =
    let (travel, l, driven, found) = simulate_edge_reads input a.location next p h in
    let (time, travelled, wait, closes, in_day, small) =
      simulate_edge_inv input a.location next driven found p h in
    let (b, made, bt, btr, bw) =
      transition-some input a.location next driven found a predecessor
        (max (a.time_slot + travel) l.time_window.opens.minutes) refl refl (ground (arith, e.time))
        (ground (arith, e.time)) (ground (arith, e.cost)) s.waited fits in
    (b, made, ground (arith, e.cost))

-- The metrics of the better of two complete routes with the same optional visits do not compare as
-- worse.
pub default_compare-IsBetter :
    (m : SolutionMetrics) (policy : StartPolicy) (start : ℕ) (a : ParetoState)
    → m.start_policy ≡ policy
    → m.start_time_slot ≡ start
    → m.visited_optional_count ≡ a.visited_optional_count
    → m.visited_optional_priority ≡ a.visited_optional_priority
    → m.score ≡ default_objective_policy.score m.travel_minutes m.wait_minutes
    → a.score ≡ default_objective_policy.score a.travel_minutes a.wait_minutes
    → IsBetter (progress_of a) (record {
      time_slot = m.finish_time_slot;
      travel_minutes = m.travel_minutes;
      wait_minutes = m.wait_minutes;
    })
    → default_compare (metrics policy start a) m ≢ Ordering.gt
unfolding default_compare metrics start_order default_score
default_compare-IsBetter m policy start a e₁ e₂ e₃ e₄ e₅ e₆ b = ground (arith, b.cost)
