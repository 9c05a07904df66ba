-- ===== src/Selection/Tracker.antt =====
-- src/solver/portfolio/objective.rs and src/solver/orchestrator/candidate_accumulator.rs: the best
-- candidate so far, kept while candidates arrive.
use troute.Prelude.{
  ℕ, Bool, true, false, ◌&&◌, ◌||◌, not, if◌then◌else◌, leb, ◌==◌, ◌+◌, ◌-◌, ◌*◌, ◌/◌, ◌%◌, ◌^◌,
  zero, suc, Option, none, some, List, [], ◌∷◌, ◌++◌, Ordering, length, get_elem?,
}
use troute.Prelude.Options.{◌>>=◌, is_some}
use troute.Domain.{StartPolicy}
use troute.Solver.Types.{SolverSolution, SolutionMetrics}
use troute.Selection.{SolverCandidate}

pub record ObjectiveVector : Type 0 where
  pub visited_optional_count : ℕ
  pub visited_optional_priority : ℕ
  pub start_policy : StartPolicy
  pub selected_start : ℕ
  pub finish : ℕ
  pub travel : ℕ
  pub wait : ℕ

abbrev pub objective_vector : SolutionMetrics → ObjectiveVector
objective_vector metrics = record {
  visited_optional_count = metrics.visited_optional_count;
  visited_optional_priority = metrics.visited_optional_priority;
  start_policy = metrics.start_policy;
  selected_start = metrics.start_time_slot;
  finish = metrics.finish_time_slot;
  travel = metrics.travel_minutes;
  wait = metrics.wait_minutes;
}

pub record TrackedBest : Type 0 where
  pub candidate_index : ℕ
  pub solver_id : List ℕ
  pub run_id : ℕ
  pub objective : SolutionMetrics
  pub route_fingerprint : List ℕ
  pub updated_at_ms : ℕ

pub record BestUpdate : Type 0 where
  pub previous : Option TrackedBest
  pub current : TrackedBest
  pub first_feasible : Bool

-- `^` on numbers of at most so many bits.
xor : ℕ → ℕ → ℕ → ℕ
xor zero a b = 0
xor (suc bits) a b = (a + b) % 2 + 2 * xor bits (a / 2) (b / 2)

-- The `bytes` lowest bytes of a number, the lowest first, mixed into the hash.
hash_bytes : ℕ → ℕ → ℕ → ℕ
unfolding xor
hash_bytes zero index hash = hash
hash_bytes (suc bytes) index hash =
    hash_bytes bytes (index / 256) (xor 64 hash (index % 256) * 1099511628211 % 2 ^ 64)

hash_route : List ℕ → ℕ → ℕ
unfolding hash_bytes
hash_route [] hash = hash
hash_route (index ∷ route) hash = hash_route route (hash_bytes 8 index hash)

hex_digit : ℕ → ℕ
hex_digit d = if leb d 9 then b'0' + d else b'a' - 10 + d

-- `{:0digits$x}`.
hex : ℕ → ℕ → List ℕ
unfolding hex_digit
hex zero n = []
hex (suc digits) n = hex digits (n / 16) ++ (hex_digit (n % 16) ∷ [])

unfoldable pub route_fingerprint : List ℕ → List ℕ
unfolding hash_route hex
route_fingerprint route = hex 16 (hash_route route 14695981039346656037)

-- The lock is held from the read to the write, so one call is one step on the tracked best.
module _ (compare_metrics : SolutionMetrics → SolutionMetrics → Ordering) where
  -- `current` is kept unless the objective compares as less.
  unfoldable pub keeps : Option TrackedBest → SolutionMetrics → Bool
  keeps none objective = false
  keeps (some current) objective = elim (compare_metrics objective current.objective) [
    | Ordering.lt ↦ false
    | _ ↦ true
  ]

  unfoldable pub consider_validated :
      Option TrackedBest
      → (candidate_index : ℕ) → (solver_id : List ℕ) → (run_id : ℕ) → SolverCandidate
      → (updated_at_ms : ℕ) → Option BestUpdate × Option TrackedBest
  unfolding keeps
  consider_validated best candidate_index solver_id run_id candidate updated_at_ms =
      if not candidate.feasible then (none, best) else elim candidate.route [
        | none ↦ (none, best)
        | some route ↦ elim candidate.objective_score [
          | none ↦ (none, best)
          | some objective ↦
              if keeps best objective
              then (none, best)
              else let current : TrackedBest = record {
                candidate_index = candidate_index;
                solver_id = solver_id;
                run_id = run_id;
                objective = objective;
                route_fingerprint = route_fingerprint route.visit_order;
                updated_at_ms = updated_at_ms;
              } in
                (
                  some (record {
                    previous = best;
                    current = current;
                    first_feasible = not (is_some best);
                  }),
                  some current,
                )
        ]
      ]

-- `starts_with("sa_")`.
starts_with_sa : List ℕ → Bool
starts_with_sa (a ∷ (b ∷ (c ∷ rest))) = (a == b's') && (b == b'a') && (c == b'_')
starts_with_sa text = false

is_id_character : ℕ → Bool
is_id_character c = (leb b'a' c && leb c b'z') || (leb b'0' c && leb c b'9') || (c == b'_')

all_id_characters : List ℕ → Bool
unfolding is_id_character
all_id_characters [] = true
all_id_characters (c ∷ cs) = is_id_character c && all_id_characters cs

-- `SolverId::new`, with `none` for `InvalidSolverId`.
unfoldable pub new_solver_id : List ℕ → Option (List ℕ)
unfolding all_id_characters
new_solver_id [] = none
new_solver_id (c ∷ cs) = if all_id_characters (c ∷ cs) then some (c ∷ cs) else none

unfoldable pub solver_id_for_strategy : List ℕ → List ℕ
unfolding starts_with_sa new_solver_id
solver_id_for_strategy strategy =
    elim (new_solver_id (if starts_with_sa strategy then b's' ∷ b'a' ∷ [] else strategy)) [
      | some id ↦ id
      | none ↦ b'c' ∷ b'u' ∷ b's' ∷ b't' ∷ b'o' ∷ b'm' ∷ []
    ]

pub record CandidateAccumulator : Type 0 where
  pub candidates : List SolverCandidate
  pub best_index : Option ℕ
  pub global_best_updates : ℕ
  pub best : Option TrackedBest

abbrev pub new_accumulator : CandidateAccumulator
new_accumulator = record {
  candidates = [];
  best_index = none;
  global_best_updates = 0;
  best = none;
}

unfoldable pub push : CandidateAccumulator → SolverCandidate → CandidateAccumulator
push accumulator candidate = record accumulator {
  candidates = accumulator.candidates ++ (candidate ∷ []);
}

unfoldable pub has_best : CandidateAccumulator → Bool
has_best accumulator = is_some accumulator.best_index

-- `self.candidates[index]` panics out of bounds, written here as no answer.
unfoldable pub warm_start : CandidateAccumulator → Option SolverSolution
warm_start accumulator = do
  index ← accumulator.best_index
  candidate ← get_elem? accumulator.candidates index
  candidate.route

module _ (compare_metrics : SolutionMetrics → SolutionMetrics → Ordering) where
  -- The accumulator afterwards, and the candidate with the mark that it improved the best.
  unfoldable pub consider :
      CandidateAccumulator → SolverCandidate → CandidateAccumulator × SolverCandidate
  consider accumulator candidate =
      let candidate_index = length accumulator.candidates in
      let (update, best) =
        consider_validated compare_metrics accumulator.best candidate_index
          (solver_id_for_strategy candidate.strategy) (candidate_index + 1) candidate
          candidate.elapsed_ms in
      let improved = is_some update in
      (
        if improved
            then record accumulator {
              best = best;
              best_index = some candidate_index;
              global_best_updates = accumulator.global_best_updates + 1;
            }
            else record accumulator { best = best },
        record candidate { improved_global_best = some improved },
      )

  -- How the runner takes candidates in: each is considered, then pushed.
  unfoldable pub accumulate : CandidateAccumulator → List SolverCandidate → CandidateAccumulator
  unfolding consider push
  accumulate accumulator [] = accumulator
  accumulate accumulator (c ∷ cs) =
      let (next, marked) = consider accumulator c in accumulate (push next marked) cs
