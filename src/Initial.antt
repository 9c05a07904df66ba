-- ===== src/Initial.antt =====
-- src/solver/initial: the routes from which the search for a better one starts.
pub mod Counts
pub mod Complete
pub mod Euler
pub mod Tours
pub mod Mst
mod Tests
use troute.Prelude.{
  ℕ, zero, suc, ◌+◌, ◌-◌, ◌^◌, ◌≡◌, ltb, ◌==◌, if◌then◌else◌, Bool, true, false, not, ◌||◌, ◌&&◌,
  Option, none, some, Result, ok, err, List, [], ◌∷◌, ◌++◌, length, get_elem?,
}
use troute.Prelude.Results.{◌>>◌}
use troute.Prelude.Loops.{retain}
use troute.Domain.{Location, end_location_index, start_location_index}
use troute.Matrix
use troute.Solver.Types.{SolverInput, SolverSolution, SolverError}

unfoldable pub validate_generator_input : SolverInput → Result (Unit {0}) SolverError
validate_generator_input input =
    let locations = length input.problem.locations in
    if input.cancelled
    then err SolverError.cancelled
    else if not (Matrix.size input.matrix == locations)
    then err (SolverError.matrix_size_mismatch (Matrix.size input.matrix) locations)
    else ok tt

-- `start..start + count`.
abbrev pub span : (start count : ℕ) → List ℕ
span start zero = []
span start (suc count) = start ∷ span (suc start) count

-- The key by which the greedy route chooses: the travel, the closing time and the location itself.
pub record GreedyKey : Type 0 where
  pub travel : ℕ
  pub closes : ℕ
  pub candidate : ℕ

-- `unwrap_or(u32::MAX)`.
abbrev pub or_max : Option ℕ → ℕ
or_max none = 2 ^ 32 - 1
or_max (some travel) = travel

-- The closing time; the index is in range for a location of the problem.
abbrev pub closing_of : Option Location → ℕ
closing_of none = 0
closing_of (some l) = l.time_window.closes.minutes

unfoldable pub greedy_key : SolverInput → (current candidate : ℕ) → GreedyKey
greedy_key input current candidate = record {
  travel = or_max (Matrix.travel_minutes input.matrix current candidate);
  closes = closing_of (get_elem? input.problem.locations candidate);
  candidate = candidate;
}

-- The order of the tuples.
unfoldable pub key_less : GreedyKey → GreedyKey → Bool
key_less a b =
    ltb a.travel b.travel
    || ((a.travel == b.travel)
        && (ltb a.closes b.closes || ((a.closes == b.closes) && ltb a.candidate b.candidate)))

-- `min_by_key` over the other candidates: the first of the least.
unfoldable pub nearest : SolverInput → (current best : ℕ) → List ℕ → ℕ
unfolding greedy_key key_less
nearest input current best [] = best
nearest input current best (x ∷ xs) =
    nearest input current
      (if key_less (greedy_key input current x) (greedy_key input current best) then x else best) xs

-- `while !remaining.is_empty()`: each round takes one location, so as many rounds as there are
-- locations are enough.
unfoldable pub greedy_loop : (rounds : ℕ) → SolverInput → (remaining : List ℕ) → ℕ → List ℕ
unfolding nearest
greedy_loop zero input remaining current = []
greedy_loop (suc rounds) input [] current = []
greedy_loop (suc rounds) input (x ∷ xs) current =
    let next = nearest input current x xs in
    next ∷ greedy_loop rounds input (retain (λ j. not (j == next)) (x ∷ xs)) next

-- The start, the other locations and the end.
abbrev pub between : SolverInput → List ℕ → SolverSolution
between input middle = record {
  visit_order =
      start_location_index input.problem ∷ (middle ++ (end_location_index input.problem ∷ []));
}

abbrev pub lone_route : SolverSolution
lone_route = record { visit_order = 0 ∷ [] }

-- `GreedyInitialRoute::generate`.
unfoldable pub greedy_route : SolverInput → Result SolverSolution SolverError
greedy_route input =
    validate_generator_input input
    >> (let end = end_location_index input.problem in
        let remaining = span 1 (end - 1) in
        if end == 0
        then ok lone_route
        else ok (
            between input (
              greedy_loop (length remaining) input remaining (start_location_index input.problem))))

-- `RandomInitialRoute::generate`, with the shuffle of the `rand` crate as a parameter.
unfoldable pub random_route :
    (shuffle : List ℕ → List ℕ) → SolverInput → Result SolverSolution SolverError
random_route shuffle input =
    validate_generator_input input
    >> (let end = end_location_index input.problem in
        if end == 0 then ok lone_route else ok (between input (shuffle (span 1 (end - 1)))))
