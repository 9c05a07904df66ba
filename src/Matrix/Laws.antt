-- ===== src/Matrix/Laws.antt =====
-- What `new_sparse` and `new` of src/matrix.rs accept, and which error they report.
use troute.Prelude.{
  ℕ, zero, suc, ◌+◌, ◌<◌, ◌≡◌, ◌≢◌, ◌↔◌, refl, sym, ap, ◌∙◌, subst, Bool-cases, ◌==◌, ==_iff, inl,
  inr, Option, none, some, ok, err, List, [], ◌∷◌, length, get_elem?, get_or, get_elem?-some,
  get_elem?_of_lt, Option-cases, arith,
}
use troute.Matrix.{
  TravelTimeMatrix, MatrixError, find_ragged, find_nonzero, new_sparse, travel_minutes, size,
}

-- A non-empty square matrix whose diagonal is zero.
pub record IsMatrix (rows : List (List (Option ℕ))) : Type 0 where
  pub nonempty : 0 < length rows
  pub square : (i : ℕ) → i < length rows → length (get_or rows i []) ≡ length rows
  pub diagonal : (i : ℕ) → i < length rows → get_or (get_or rows i []) i none ≡ some 0

-- Row `i` is the first of a wrong length.
pub record IsFirstRagged (rows : List (List (Option ℕ))) (n i actual : ℕ) : Type 0 where
  pub inside : i < length rows
  pub here : actual ≡ length (get_or rows i [])
  pub ragged : actual ≢ n
  pub before : (j : ℕ) → j < i → length (get_or rows j []) ≡ n

module _ (n : ℕ) where
  -- The search finds nothing only where every row has length `n`.
  find_ragged-none :
      (k : ℕ) (rows : List (List (Option ℕ))) (i : ℕ)
      → find_ragged n k rows ≡ none
      → i < length rows
      → length (get_or rows i []) ≡ n
  unfolding find_ragged
  find_ragged-none k [] i h lt = absurd (omega arith)
  find_ragged-none k (r ∷ rows) zero h lt = ground arith
  find_ragged-none k (r ∷ rows) (suc i) h lt = ground (arith, find_ragged-none (suc k) rows i)

  find_ragged_all :
      (k : ℕ) (rows : List (List (Option ℕ)))
      → ((i : ℕ) → i < length rows → length (get_or rows i []) ≡ n)
      → find_ragged n k rows ≡ none
  unfolding find_ragged
  find_ragged_all k [] h = refl
  find_ragged_all k (r ∷ rows) h =
      let rest : find_ragged n (suc k) rows ≡ none =
        find_ragged_all (suc k) rows (λ i lt. h (suc i) (omega arith)) in
      let here : length r ≡ n = h 0 (omega arith) in ground arith

  -- What it finds from row `k` on is the first ragged row.
  find_ragged-some :
      (k : ℕ) (rows : List (List (Option ℕ))) {row actual : ℕ}
      → find_ragged n k rows ≡ some (row, actual)
      → (i : ℕ) × (row ≡ k + i) × IsFirstRagged rows n i actual
  unfolding find_ragged
  find_ragged-some k [] h = cc
  find_ragged-some k (r ∷ rows) {row} {actual} h = elim (Bool-cases (length r == n)) [
    | inl same ↦
        let (i, at, found) =
          find_ragged-some (suc k) rows {row = row} {actual = actual} (ground arith) in
        (
          suc i,
          omega arith,
          record {
            inside = omega (arith, found.inside);
            here = found.here;
            ragged = found.ragged;
            before = elim [
              | zero ↦ λ _. (==_iff _ _).0 same
              | suc j ↦ λ lt. found.before j (omega arith)
            ];
          },
        )
    | inr other ↦ (
      0,
      ground arith,
      record {
        inside = omega arith;
        here = ground arith;
        ragged = ground arith;
        before = λ j lt. absurd (omega arith);
      },
    )
  ]

find_nonzero-none :
    (k : ℕ) (rows : List (List (Option ℕ))) (i : ℕ)
    → find_nonzero k rows ≡ none
    → i < length rows
    → get_or (get_or rows i []) (k + i) none ≡ some 0
unfolding find_nonzero
find_nonzero-none k [] i h lt = absurd (omega arith)
find_nonzero-none k (r ∷ rows) zero h lt = let e : k + 0 ≡ k = omega arith in rw e (ground arith)
find_nonzero-none k (r ∷ rows) (suc i) h lt =
    let e : k + suc i ≡ suc k + i = omega arith in
    rw e (ground (arith, find_nonzero-none (suc k) rows i))

find_nonzero_all :
    (k : ℕ) (rows : List (List (Option ℕ)))
    → ((i : ℕ) → i < length rows → get_or (get_or rows i []) (k + i) none ≡ some 0)
    → find_nonzero k rows ≡ none
unfolding find_nonzero
find_nonzero_all k [] h = refl
find_nonzero_all k (r ∷ rows) h =
    let e : k + 0 ≡ k = omega arith in
    let here : get_or r k none ≡ some 0 = rw e at (h 0 (omega arith)) in
    let rest : find_nonzero (suc k) rows ≡ none = find_nonzero_all (suc k) rows (step h) in
    ground arith
  where
    step :
        ((i : ℕ) → i < suc (length rows) → get_or (get_or (r ∷ rows) i []) (k + i) none ≡ some 0)
        → (i : ℕ) → i < length rows
        → get_or (get_or rows i []) (suc k + i) none ≡ some 0
    step all i lt =
        let e : k + suc i ≡ suc k + i = omega arith in rw e at (all (suc i) (omega arith))

-- `new_sparse` accepts exactly the non-empty square matrices with a zero diagonal: it answers with a
-- matrix exactly where the rows are such and the matrix has these rows.
pub new_sparse-IsMatrix :
    (rows : List (List (Option ℕ))) (m : TravelTimeMatrix)
    → (new_sparse rows ≡ ok m) ↔ ((m.rows ≡ rows) × IsMatrix rows)
unfolding new_sparse
new_sparse-IsMatrix rows m = (
  λ h. (keeps rows h, accepts rows h),
  λ both. accepted rows both.1 ∙ ap (λ rs. ok (record { rows = rs })) (sym both.0),
)
  where
    keeps : (rs : List (List (Option ℕ))) → new_sparse rs ≡ ok m → m.rows ≡ rs
    keeps [] h = cc
    keeps (r ∷ rs) h = ground arith

    accepts : (rs : List (List (Option ℕ))) → new_sparse rs ≡ ok m → IsMatrix rs
    accepts [] h = cc
    accepts (r ∷ rs) h = record {
      nonempty = omega arith;
      square = λ i lt. find_ragged-none _ 0 (r ∷ rs) i (ground arith) lt;
      diagonal = λ i lt.
          let e : 0 + i ≡ i = omega arith in
          rw e at (find_nonzero-none 0 (r ∷ rs) i (ground arith) lt);
    }

    accepted :
        (rs : List (List (Option ℕ))) → IsMatrix rs → new_sparse rs ≡ ok (record { rows = rs })
    accepted [] m = absurd (omega (arith, m.nonempty))
    accepted (r ∷ rs) m =
        let a : find_ragged (length (r ∷ rs)) 0 (r ∷ rs) ≡ none =
          find_ragged_all _ 0 (r ∷ rs) m.square in
        let b : find_nonzero 0 (r ∷ rs) ≡ none =
          find_nonzero_all 0 (r ∷ rs)
            (λ i lt. let e : 0 + i ≡ i = omega arith in rw e (m.diagonal i lt)) in
        ground arith

-- A matrix that is refused for its shape names its first row of a wrong length, with that length
-- and the length that was expected.
pub new_sparse-not_square :
    (rows : List (List (Option ℕ))) {row expected actual : ℕ}
    → new_sparse rows ≡ err (MatrixError.not_square row expected actual)
    → (expected ≡ length rows) × IsFirstRagged rows (length rows) row actual
unfolding new_sparse
new_sparse-not_square [] h = cc
new_sparse-not_square (r ∷ rs) {row} {expected} {actual} h =
    let found : find_ragged (length (r ∷ rs)) 0 (r ∷ rs) ≡ some (row, actual) = reported in
    let (i, at, ragged) = find_ragged-some (length (r ∷ rs)) 0 (r ∷ rs) found in
    let here : i ≡ row = omega arith in
    (ground arith, subst (λ k. IsFirstRagged (r ∷ rs) (length (r ∷ rs)) k actual) here ragged)
  where
    reported : find_ragged (length (r ∷ rs)) 0 (r ∷ rs) ≡ some (row, actual)
    reported = ground arith

travel_minutes-some :
    (m : TravelTimeMatrix) (from to : ℕ) {minutes : ℕ}
    → travel_minutes m from to ≡ some minutes
    → (row : List (Option ℕ)) × (get_elem? m.rows from ≡ some row)
      × (get_elem? row to ≡ some (some minutes))
unfolding travel_minutes
travel_minutes-some m from to h = elim (Option-cases (get_elem? m.rows from)) [
  | inl e ↦ absurd (ground arith)
  | inr (row, e) ↦ (row, e, ground arith)
]

-- In a well-formed matrix an arc that has a travel time runs between two of its locations.
pub travel_minutes-in_range :
    (m : TravelTimeMatrix) (from to : ℕ) {minutes : ℕ}
    → IsMatrix m.rows
    → travel_minutes m from to ≡ some minutes
    → (from < size m) × (to < size m)
travel_minutes-in_range m from to w h =
    let (row, a, b) = travel_minutes-some m from to h in
    let (inside, here) = get_elem?-some m.rows from [] a in
    let wide : length row ≡ length m.rows = rw here at (w.square from inside) in
    (inside, rw wide at ((get_elem?-some row to none b).0))

-- Travel from a location of a well-formed matrix to itself takes no time.
pub travel_minutes_self :
    (m : TravelTimeMatrix) (i : ℕ) → IsMatrix m.rows → i < size m → travel_minutes m i i ≡ some 0
unfolding travel_minutes
travel_minutes_self m i w lt =
    let a = get_elem?_of_lt m.rows i [] lt in
    let b = get_elem?_of_lt (get_or m.rows i []) i none (rw (w.square i lt) lt) in
    rw a (rw b (w.diagonal i lt))
