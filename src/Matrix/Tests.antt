-- ===== src/Matrix/Tests.antt =====
-- Matrices at concrete rows.
use troute.Prelude.{ℕ, ◌≡◌, ◌↔◌, refl, Option, none, some, ok, err, List, [], ◌∷◌, arith}
use troute.Matrix.{MatrixError, TravelTimeMatrix, new_sparse, travel_minutes}
use troute.Matrix.Laws.{IsMatrix, new_sparse-IsMatrix, travel_minutes_self}

-- Three places, with no way back from the last one.
abbrev one_way : List (List (Option ℕ))
one_way =
    (some 0 ∷ some 7 ∷ some 9 ∷ [])
    ∷ (some 4 ∷ some 0 ∷ some 3 ∷ [])
    ∷ (none ∷ none ∷ some 0 ∷ [])
    ∷ []

abbrev one_way_matrix : TravelTimeMatrix
one_way_matrix = record { rows = one_way }

abbrev ragged : List (List (Option ℕ))
ragged = (some 0 ∷ some 7 ∷ []) ∷ (some 0 ∷ []) ∷ []

one_way-IsMatrix : IsMatrix one_way
unfolding new_sparse
one_way-IsMatrix = ((new_sparse-IsMatrix one_way one_way_matrix).0 refl).1

new_sparse-IsMatrix_example :
    (new_sparse one_way ≡ ok one_way_matrix) ↔ ((one_way ≡ one_way) × IsMatrix one_way)
new_sparse-IsMatrix_example = new_sparse-IsMatrix one_way one_way_matrix

ragged_is_refused : new_sparse ragged ≡ err (MatrixError.not_square 1 2 1)
unfolding new_sparse
ragged_is_refused = refl

travel_minutes_self_example : travel_minutes one_way_matrix 2 2 ≡ some 0
travel_minutes_self_example = travel_minutes_self one_way_matrix 2 one_way-IsMatrix (omega arith)

unreachable : travel_minutes one_way_matrix 2 0 ≡ none
unfolding travel_minutes
unreachable = refl
