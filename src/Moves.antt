-- ===== src/Moves.antt =====
-- src/solver/heuristic/annealing/neighbor.rs: the moves from a route to a neighbour.
pub mod Counts
pub mod Complete
mod Tests
use mathlib.Core.List.{reverse}
use troute.Prelude.{
  ℕ, zero, suc, ◌+◌, ◌-◌, ltb, leb, ◌==◌, if◌then◌else◌, Bool, true, false, not, ◌&&◌, List, [],
  ◌∷◌, ◌++◌, length, get_or, set,
}
use troute.Prelude.Loops.{any}

pub data NeighborhoodMove : Type 0 where
  swap : (left right : ℕ) → NeighborhoodMove
  relocate : (from to : ℕ) → NeighborhoodMove
  two_opt : (start end : ℕ) → NeighborhoodMove
  insert_optional : (location position : ℕ) → NeighborhoodMove
  remove_optional : (position : ℕ) → NeighborhoodMove
  replace_optional : (position location : ℕ) → NeighborhoodMove

-- `Vec::remove`, `Vec::insert` and the two parts of a slice, inside their bounds.
abbrev pub remove_at : ℕ → List ℕ → List ℕ
remove_at i [] = []
remove_at zero (x ∷ xs) = xs
remove_at (suc i) (x ∷ xs) = x ∷ remove_at i xs

abbrev pub insert_at : ℕ → ℕ → List ℕ → List ℕ
insert_at zero v xs = v ∷ xs
insert_at (suc i) v [] = v ∷ []
insert_at (suc i) v (x ∷ xs) = x ∷ insert_at i v xs

abbrev pub take : ℕ → List ℕ → List ℕ
take zero xs = []
take (suc n) [] = []
take (suc n) (x ∷ xs) = x ∷ take n xs

abbrev pub drop : ℕ → List ℕ → List ℕ
drop zero xs = xs
drop (suc n) [] = []
drop (suc n) (x ∷ xs) = drop n xs

-- `route[start..=end].reverse()`, with the number of places from the start to the end.
abbrev pub reverse_slice : (start places : ℕ) → List ℕ → List ℕ
reverse_slice zero places xs = reverse (take places xs) ++ drop places xs
reverse_slice (suc start) places [] = []
reverse_slice (suc start) places (x ∷ xs) = x ∷ reverse_slice start places xs

abbrev pub is_interior : List ℕ → ℕ → Bool
is_interior route index = ltb 0 index && ltb (index + 1) (length route)

abbrev pub contains : List ℕ → ℕ → Bool
contains route location = any (λ x. x == location) route

-- The guard of a move.
unfoldable pub is_allowed : List ℕ → NeighborhoodMove → Bool
is_allowed route (NeighborhoodMove.swap left right) =
    not (left == right) && is_interior route left && is_interior route right
is_allowed route (NeighborhoodMove.relocate from to) =
    not (from == to) && is_interior route from && is_interior route to
is_allowed route (NeighborhoodMove.two_opt start end) =
    ltb start end && is_interior route start && is_interior route end
is_allowed route (NeighborhoodMove.insert_optional location position) =
    ltb 0 position && ltb position (length route) && not (contains route location)
is_allowed route (NeighborhoodMove.remove_optional position) = is_interior route position
is_allowed route (NeighborhoodMove.replace_optional position location) =
    is_interior route position && not (contains route location)

-- What a move does to the route. The indices are in range where its guard holds.
unfoldable pub moved : List ℕ → NeighborhoodMove → List ℕ
moved route (NeighborhoodMove.swap left right) =
    set (set route left (get_or route right 0)) right (get_or route left 0)
moved route (NeighborhoodMove.relocate from to) =
    insert_at to (get_or route from 0) (remove_at from route)
moved route (NeighborhoodMove.two_opt start end) = reverse_slice start (end + 1 - start) route
moved route (NeighborhoodMove.insert_optional location position) = insert_at position location route
moved route (NeighborhoodMove.remove_optional position) = remove_at position route
moved route (NeighborhoodMove.replace_optional position location) = set route position location

unfoldable pub apply_neighborhood_move : List ℕ → NeighborhoodMove → List ℕ × Bool
unfolding is_allowed moved
apply_neighborhood_move route movement =
    if is_allowed route movement then (moved route movement, true) else (route, false)
