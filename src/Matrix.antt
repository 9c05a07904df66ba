-- ===== src/Matrix.antt =====
-- src/matrix.rs: the directed travel-time matrix, in which `none` is an unreachable arc.
pub mod Laws
mod Tests
use troute.Prelude.{
  ℕ, suc, ◌==◌, if◌then◌else◌, Bool, false, Option, none, some, Result, ok, err, List, [], ◌∷◌, map,
  length, get_elem?, get_or,
}
use troute.Prelude.Options.{◌>>=◌}

pub record TravelTimeMatrix : Type 0 where
  pub rows : List (List (Option ℕ))

pub data MatrixError : Type 0 where
  empty : MatrixError
  not_square : (row expected actual : ℕ) → MatrixError
  invalid_diagonal : (index : ℕ) (actual : Option ℕ) → MatrixError

-- The first row, counted from `row`, whose length is not `size`, with its length.
find_ragged : (size row : ℕ) → List (List (Option ℕ)) → Option (ℕ × ℕ)
find_ragged size row [] = none
find_ragged size row (values ∷ rows) =
    let rest = find_ragged size (suc row) rows in
    if length values == size then rest else some (row, length values)

-- `value != Some(0)` on the diagonal.
abbrev pub is_zero : Option ℕ → Bool
is_zero none = false
is_zero (some v) = v == 0

-- The first index, counted from `index`, whose diagonal entry is not zero. `row[index]` is in
-- range there, since the rows are known to be square.
find_nonzero : (index : ℕ) → List (List (Option ℕ)) → Option (ℕ × Option ℕ)
find_nonzero index [] = none
find_nonzero index (row ∷ rows) =
    let rest = find_nonzero (suc index) rows in
    if is_zero (get_or row index none) then rest else some (index, get_or row index none)

check_diagonal : List (List (Option ℕ)) → Result TravelTimeMatrix MatrixError
unfolding find_nonzero
check_diagonal rows = elim (find_nonzero 0 rows) [
  | none ↦ ok (record { rows = rows })
  | some (index, actual) ↦ err (MatrixError.invalid_diagonal index actual)
]

check_square : List (List (Option ℕ)) → Result TravelTimeMatrix MatrixError
unfolding find_ragged check_diagonal
check_square rows = elim (find_ragged (length rows) 0 rows) [
  | none ↦ check_diagonal rows
  | some (row, actual) ↦ err (MatrixError.not_square row (length rows) actual)
]

unfoldable pub new_sparse : List (List (Option ℕ)) → Result TravelTimeMatrix MatrixError
unfolding check_square
new_sparse [] = err MatrixError.empty
new_sparse (row ∷ rows) = check_square (row ∷ rows)

unfoldable pub new : List (List ℕ) → Result TravelTimeMatrix MatrixError
unfolding new_sparse
new rows = new_sparse (map (map some) rows)

abbrev pub size : TravelTimeMatrix → ℕ
size m = length m.rows

-- `rows.get(from)?.get(to).copied().flatten()`.
unfoldable pub travel_minutes : TravelTimeMatrix → ℕ → ℕ → Option ℕ
travel_minutes m from to = do row ← get_elem? m.rows from; cell ← get_elem? row to; cell
