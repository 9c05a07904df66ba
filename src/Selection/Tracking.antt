-- ===== src/Selection/Tracking.antt =====
-- src/solver/orchestrator/candidate_accumulator.rs: which candidate the accumulator tracks.
use troute.Prelude.{
  ℕ, ◌+◌, Bool, true, false, ◌||◌, not, if◌then◌else◌, inl, inr, Bool-cases, Option, none, some,
  Option-cases, List, [], ◌∷◌, Ordering, ◌≡◌, ap, arith, length, get_elem?, get_elem?-append_lt,
  get_elem?-append_length, get_elem?-lt,
}
use troute.Prelude.Options.{◌>>=◌, is_some}
use troute.Solver.Types.{SolverSolution, SolutionMetrics}
use troute.Selection.{
  SolverCandidate, is_selectable, compare_scores, compare_feasible, compare_candidates,
}
use troute.Selection.Tracker.{
  TrackedBest, CandidateAccumulator, keeps, consider_validated, consider, push, accumulate,
  warm_start, solver_id_for_strategy, route_fingerprint,
}

-- A candidate with a score has the route that was scored.
abbrev pub has_route : SolverCandidate → Bool
has_route c = not (is_selectable c) || is_some c.route

abbrev pub all_have_routes : List SolverCandidate → Bool
all_have_routes [] = true
all_have_routes (c ∷ cs) = if has_route c then all_have_routes cs else false

selectable-parts :
    (c : SolverCandidate)
    → is_selectable c ≡ true
    → has_route c ≡ true
    → (m : SolutionMetrics) × (r : SolverSolution) × (c.feasible ≡ true)
      × (c.objective_score ≡ some m)
      × (c.route ≡ some r)
selectable-parts c u h = elim (Option-cases c.route) [
  | inl e ↦ absurd (ground arith)
  | inr (r, e) ↦ elim (Option-cases c.objective_score) [
    | inl s ↦ absurd (ground arith)
    | inr (m, s) ↦ (m, r, ground arith, s, e)
  ]
]

module _ (compare_metrics : SolutionMetrics → SolutionMetrics → Ordering) where
  -- The candidate held after one more has arrived.
  unfoldable pub hold : Option SolverCandidate → SolverCandidate → Option SolverCandidate
  unfolding compare_candidates compare_scores compare_feasible
  hold none c = if is_selectable c then some c else none
  hold (some b) c =
      if is_selectable c
      then elim (compare_candidates compare_metrics c b) [ Ordering.lt ↦ some c | _ ↦ some b ]
      else some b

  unfoldable pub hold_all : Option SolverCandidate → List SolverCandidate → Option SolverCandidate
  unfolding hold
  hold_all held [] = held
  hold_all held (c ∷ cs) = hold_all (hold held c) cs

  unfoldable pub Tracks : CandidateAccumulator → Option SolverCandidate → Type 0
  Tracks a none = (a.best ≡ none) × (a.best_index ≡ none)
  Tracks a (some b) =
      (i : ℕ) × (t : TrackedBest) × (d : SolverCandidate) × (a.best ≡ some t)
      × (a.best_index ≡ some i)
      × (get_elem? a.candidates i ≡ some d)
      × (d.route ≡ b.route)
      × (is_selectable b ≡ true)
      × (b.objective_score ≡ some t.objective)

  unfoldable pub Taken : CandidateAccumulator → SolverCandidate → CandidateAccumulator
  Taken a c = push (consider compare_metrics a c).0 (consider compare_metrics a c).1

  -- What is tracked after an improvement.
  abbrev tracked :
      CandidateAccumulator → SolverCandidate → SolverSolution → SolutionMetrics → TrackedBest
  tracked a c route objective = record {
    candidate_index = length a.candidates;
    solver_id = solver_id_for_strategy c.strategy;
    run_id = length a.candidates + 1;
    objective = objective;
    route_fingerprint = route_fingerprint route.visit_order;
    updated_at_ms = c.elapsed_ms;
  }

  -- An improvement is held where it is pushed.
  Tracks-improved :
      (a : CandidateAccumulator) (c : SolverCandidate) {m : SolutionMetrics} {r : SolverSolution}
      → c.feasible ≡ true
      → c.objective_score ≡ some m
      → c.route ≡ some r
      → keeps compare_metrics a.best m ≡ false
      → Tracks (Taken a c) (some c)
  unfolding Tracks Taken push consider consider_validated
  Tracks-improved a c {m = m} {r = r} f s e k = (
    length a.candidates,
    tracked a c r m,
    record c { improved_global_best = some true },
    ground arith,
    ground arith,
    ground (
      arith,
      get_elem?-append_length a.candidates (record c { improved_global_best = some true }),
    ),
    ground arith,
    ground arith,
    ground arith,
  )

  -- A candidate that does not improve the best only joins the list.
  Tracks-kept :
      (a : CandidateAccumulator) (held : Option SolverCandidate) (c : SolverCandidate)
      → Tracks a held
      → (consider compare_metrics a c).0 ≡ a
      → Tracks (Taken a c) held
  unfolding Tracks Taken push
  Tracks-kept a none c h e = ground (arith, ap CandidateAccumulator.best e)
  Tracks-kept a (some b) c h e =
      let (i, t, d, best, index, at_i, same, usable, score) = h in
      let marked = (consider compare_metrics a c).1 in
      (
        i,
        t,
        d,
        ground arith,
        ground arith,
        ground (
          arith,
          get_elem?-append_lt a.candidates (marked ∷ []) i,
          get_elem?-lt a.candidates i {x = d},
        ),
        same,
        usable,
        score,
      )

  Tracks-consider :
      (a : CandidateAccumulator) (held : Option SolverCandidate) (c : SolverCandidate)
      → Tracks a held
      → has_route c ≡ true
      → Tracks (Taken a c) (hold held c)
  unfolding Tracks hold consider consider_validated keeps compare_candidates compare_scores
      compare_feasible
  Tracks-consider a none c h r = elim (Bool-cases (is_selectable c)) [
    | inl u ↦
        let (m, route, f, s, e) = selectable-parts c u r in
        let taken : hold none c ≡ some c = ground arith in
        rw taken (Tracks-improved a c f s e (ground arith))
    | inr u ↦
        let same : hold none c ≡ none = ground arith in
        rw same (Tracks-kept a none c h (ground arith))
  ]
  Tracks-consider a (some b) c h r = elim (Bool-cases (is_selectable c)) [
    | inl u ↦
        let (m, route, f, s, e) = selectable-parts c u r in
        let (i, t, d, best, index, at_i, same, usable, score) = h in
        elim (Bool-cases (keeps compare_metrics a.best m)) [
          | inl k ↦
              let same : hold (some b) c ≡ some b = ground arith in
              rw same (Tracks-kept a (some b) c h (ground arith))
          | inr k ↦
              let taken : hold (some b) c ≡ some c = ground arith in
              rw taken (Tracks-improved a c f s e k)
        ]
    | inr u ↦
        let same : hold (some b) c ≡ some b = ground arith in
        rw same (Tracks-kept a (some b) c h (ground arith))
  ]

  pub Tracks-accumulate :
      (a : CandidateAccumulator) (held : Option SolverCandidate) (cs : List SolverCandidate)
      → Tracks a held
      → all_have_routes cs ≡ true
      → Tracks (accumulate compare_metrics a cs) (hold_all held cs)
  unfolding accumulate hold_all Taken
  Tracks-accumulate a held [] h r = h
  Tracks-accumulate a held (c ∷ cs) h r =
      Tracks-accumulate (Taken a c) (hold held c) cs (Tracks-consider a held c h (ground arith))
        (ground arith)

  pub Tracks-warm_start :
      (a : CandidateAccumulator) (held : Option SolverCandidate)
      → Tracks a held
      → warm_start a ≡ (held >>= λ c. c.route)
  unfolding Tracks warm_start
  Tracks-warm_start a none h = ground arith
  Tracks-warm_start a (some b) h = ground arith
