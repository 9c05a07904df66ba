-- ===== src/Moves/Complete.antt =====
-- src/solver/heuristic/annealing/neighbor.rs: the routes a move keeps.
use troute.Prelude.{
  ok, ℕ, ◌+◌, ◌-◌, ◌≤◌, ◌<◌, ◌≡◌, ◌≢◌, ◌∙◌, ltb, ◌==◌, if◌then◌else◌, Bool-cases, true, inl, inr,
  some, List, length, get_or, set, first, last, length-set, get_or-set_ne, arith,
}
use troute.Domain.{OptimizationProblem, end_location_index}
use troute.Solver.Evaluate.{validate_visit_order}
use troute.Initial.Counts.{count, complete-valid}
use troute.Moves.{
  NeighborhoodMove, remove_at, is_interior, is_allowed, moved, apply_neighborhood_move,
}
use troute.Moves.Counts.{
  count-set, count-remove_at, count-insert_at, count-reverse_slice, first-set, first-remove_at,
  first-insert_at, first-reverse_slice, last-set, length-remove_at, last-remove_at, last-insert_at,
  last-reverse_slice, count-contains,
}

-- A move that neither adds nor takes away a location.
abbrev pub IsReordering : NeighborhoodMove → Type 0
IsReordering (NeighborhoodMove.swap left right) = Unit
IsReordering (NeighborhoodMove.relocate from to) = Unit
IsReordering (NeighborhoodMove.two_opt start end) = Unit
IsReordering (NeighborhoodMove.insert_optional location position) = ⊥
IsReordering (NeighborhoodMove.remove_optional position) = ⊥
IsReordering (NeighborhoodMove.replace_optional position location) = ⊥

abbrev pub SameEnds : List ℕ → List ℕ → Type 0
SameEnds before after = (first after ≡ first before) × (last after ≡ last before)

interior_lem :
    (route : List ℕ) (i : ℕ) → is_interior route i ≡ true → (0 < i) × (i + 1 < length route)
interior_lem route i h = ground arith

count-swap :
    (x : ℕ) (route : List ℕ) (left right : ℕ)
    → right ≢ left
    → left < length route
    → right < length route
    → count x (moved route (NeighborhoodMove.swap left right)) ≡ count x route
unfolding moved
count-swap x route left right ne l r =
    let once = set route left (get_or route right 0) in
    let kept : get_or once right 0 ≡ get_or route right 0 =
      get_or-set_ne route left right (get_or route right 0) 0 ne in
    let a = count-set x route left (get_or route right 0) l in
    let b =
      count-set x once right (get_or route left 0)
        (omega (arith, length-set route left (get_or route right 0))) in
    ground (arith, kept)

count-relocate :
    (x : ℕ) (route : List ℕ) (from to : ℕ)
    → from < length route
    → count x (moved route (NeighborhoodMove.relocate from to)) ≡ count x route
unfolding moved
count-relocate x route from to l = omega (
  arith,
  count-insert_at x to (get_or route from 0) (remove_at from route),
  count-remove_at x route from l,
)

-- An allowed move keeps both ends of a route.
pub moved-SameEnds :
    (route : List ℕ) (movement : NeighborhoodMove)
    → is_allowed route movement ≡ true
    → SameEnds route (moved route movement)
unfolding is_allowed moved
moved-SameEnds route (NeighborhoodMove.swap left right) h =
    let (l, l') = interior_lem route left (ground arith) in
    let (r, r') = interior_lem route right (ground arith) in
    let once = set route left (get_or route right 0) in
    (
      first-set once right (get_or route left 0) r ∙ first-set route left (get_or route right 0) l,
      last-set once right (get_or route left 0)
            (omega (arith, length-set route left (get_or route right 0)))
          ∙ last-set route left (get_or route right 0) l',
    )
moved-SameEnds route (NeighborhoodMove.relocate from to) h =
    let (f, f') = interior_lem route from (ground arith) in
    let (t, t') = interior_lem route to (ground arith) in
    let size = length-remove_at route from (omega arith) in
    (
      first-insert_at (remove_at from route) to (get_or route from 0) t (omega arith)
          ∙ first-remove_at route from f,
      last-insert_at (remove_at from route) to (get_or route from 0) (omega arith)
          ∙ last-remove_at route from f',
    )
moved-SameEnds route (NeighborhoodMove.two_opt start end) h =
    let (s, s') = interior_lem route start (ground arith) in
    let (e, e') = interior_lem route end (ground arith) in
    (
      first-reverse_slice route start (end + 1 - start) s,
      last-reverse_slice route start (end + 1 - start) (ground arith),
    )
moved-SameEnds route (NeighborhoodMove.insert_optional location position) h = (
  first-insert_at route position location (ground arith) (ground arith),
  last-insert_at route position location (ground arith),
)
moved-SameEnds route (NeighborhoodMove.remove_optional position) h =
    let (p, p') = interior_lem route position h in
    (first-remove_at route position p, last-remove_at route position p')
moved-SameEnds route (NeighborhoodMove.replace_optional position location) h =
    let (p, p') = interior_lem route position (ground arith) in
    (first-set route position location p, last-set route position location p')

-- An allowed move brings in no location a second time.
moved-count :
    (route : List ℕ) (movement : NeighborhoodMove)
    → is_allowed route movement ≡ true
    → (x : ℕ) → count x route ≤ 1
    → count x (moved route movement) ≤ 1
unfolding is_allowed moved
moved-count route (NeighborhoodMove.swap left right) h x c =
    let same = count-swap x route left right (ground arith) (ground arith) (ground arith) in
    ground arith
moved-count route (NeighborhoodMove.relocate from to) h x c =
    let same = count-relocate x route from to (ground arith) in ground arith
moved-count route (NeighborhoodMove.two_opt start end) h x c =
    let same = count-reverse_slice x start (end + 1 - start) route in omega arith
moved-count route (NeighborhoodMove.insert_optional location position) h x c =
    let more = count-insert_at x position location route in
    let new = count-contains location route (ground arith) in
    elim (Bool-cases (location == x)) [
      | inl same ↦ let eq : location ≡ x = ground arith in ground arith
      | inr other ↦ ground arith
    ]
moved-count route (NeighborhoodMove.remove_optional position) h x c =
    let less = count-remove_at x route position (ground arith) in omega arith
moved-count route (NeighborhoodMove.replace_optional position location) h x c =
    let more = count-set x route position location (ground arith) in
    let new = count-contains location route (ground arith) in
    elim (Bool-cases (location == x)) [
      | inl same ↦ let eq : location ≡ x = ground arith in ground arith
      | inr other ↦ ground arith
    ]

-- A route from a start to a finish in which no location stands twice.
abbrev pub IsSimple : (start finish : ℕ) → List ℕ → Type 0
IsSimple start finish route =
    (first route ≡ some start) × (last route ≡ some finish) × ((x : ℕ) → count x route ≤ 1)

-- Every move, allowed or not, keeps the two ends of a route in which no location stands twice, and
-- no location stands twice afterwards.
pub apply_neighborhood_move-IsSimple :
    (start finish : ℕ) (route : List ℕ) (movement : NeighborhoodMove)
    → IsSimple start finish route
    → IsSimple start finish (apply_neighborhood_move route movement).0
unfolding apply_neighborhood_move
apply_neighborhood_move-IsSimple start finish route movement (begins, ends, once) =
    elim (Bool-cases (is_allowed route movement)) [
      | inl allowed ↦ rw allowed (
          let (f, l) = moved-SameEnds route movement allowed in
          (f ∙ begins, l ∙ ends, λ x. moved-count route movement allowed x (once x)))
      | inr refused ↦ rw refused (begins, ends, once)
    ]

-- Swaps, relocations and reversals keep how often a location stands in a route.
reordering-count :
    (route : List ℕ) (movement : NeighborhoodMove)
    → IsReordering movement
    → is_allowed route movement ≡ true
    → (x : ℕ) → count x (moved route movement) ≡ count x route
unfolding is_allowed moved
reordering-count route (NeighborhoodMove.swap left right) r h x =
    count-swap x route left right (ground arith) (ground arith) (ground arith)
reordering-count route (NeighborhoodMove.relocate from to) r h x =
    count-relocate x route from to (ground arith)
reordering-count route (NeighborhoodMove.two_opt start end) r h x =
    count-reverse_slice x start (end + 1 - start) route
reordering-count route (NeighborhoodMove.insert_optional location position) r h x = absurd r
reordering-count route (NeighborhoodMove.remove_optional position) r h x = absurd r
reordering-count route (NeighborhoodMove.replace_optional position location) r h x = absurd r

-- In a problem with a location: the route that a swap, a relocation or a reversal, allowed or not,
-- makes of a route that visits every location once from the start to the end is a visit order that
-- passes the checks.
pub apply_neighborhood_move-valid :
    (problem : OptimizationProblem) (route : List ℕ) (movement : NeighborhoodMove)
    → IsReordering movement
    → 0 < length problem.locations
    → first route ≡ some 0
    → last route ≡ some (end_location_index problem)
    → ((x : ℕ) → count x route ≡ (if ltb x (length problem.locations) then 1 else 0))
    → validate_visit_order problem
        (record { visit_order = (apply_neighborhood_move route movement).0 })
      ≡ ok tt
unfolding apply_neighborhood_move
apply_neighborhood_move-valid problem route movement r pos begins ends once =
    elim (Bool-cases (is_allowed route movement)) [
      | inl allowed ↦ rw allowed (
          let (f, l) = moved-SameEnds route movement allowed in
          complete-valid problem (moved route movement) pos (f ∙ begins) (l ∙ ends)
            (λ x. reordering-count route movement r allowed x ∙ once x))
      | inr refused ↦ rw refused (complete-valid problem route pos begins ends once)
    ]
