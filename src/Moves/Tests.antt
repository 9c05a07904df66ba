-- ===== src/Moves/Tests.antt =====
-- The moves on short routes.
use troute.Prelude.{ℕ, ◌≤◌, ◌≡◌, refl, if◌then◌else◌, ltb, true, false, ok, List, [], ◌∷◌, arith}
use troute.Domain.{OptimizationProblem, StartPolicy, VisitPolicy}
use troute.Solver.Evaluate.{validate_visit_order}
use troute.Solver.Fixtures.{at, place, trip_locations}
use troute.Initial.Counts.{count}
use troute.Moves.{NeighborhoodMove, is_allowed, moved, apply_neighborhood_move}
use troute.Moves.Complete.{
  IsSimple, apply_neighborhood_move-IsSimple, apply_neighborhood_move-valid,
}

abbrev five : List ℕ
five = 0 ∷ 1 ∷ 2 ∷ 3 ∷ 4 ∷ []

swapped : apply_neighborhood_move five (NeighborhoodMove.swap 1 3) ≡ (0 ∷ 3 ∷ 2 ∷ 1 ∷ 4 ∷ [], true)
unfolding apply_neighborhood_move is_allowed moved
swapped = refl

relocated :
    apply_neighborhood_move five (NeighborhoodMove.relocate 1 3) ≡ (0 ∷ 2 ∷ 3 ∷ 1 ∷ 4 ∷ [], true)
unfolding apply_neighborhood_move is_allowed moved
relocated = refl

reversed :
    apply_neighborhood_move five (NeighborhoodMove.two_opt 1 3) ≡ (0 ∷ 3 ∷ 2 ∷ 1 ∷ 4 ∷ [], true)
unfolding apply_neighborhood_move is_allowed moved
reversed = refl

inserted :
    apply_neighborhood_move five (NeighborhoodMove.insert_optional 7 4)
    ≡ (0 ∷ 1 ∷ 2 ∷ 3 ∷ 7 ∷ 4 ∷ [], true)
unfolding apply_neighborhood_move is_allowed moved
inserted = refl

-- The ends do not move.
end_kept : apply_neighborhood_move five (NeighborhoodMove.remove_optional 4) ≡ (five, false)
unfolding apply_neighborhood_move is_allowed moved
end_kept = refl

five-once : (x : ℕ) → count x five ≤ 1
five-once x = ground arith

-- The day trip with a second stop in the park.
abbrev longer_trip : OptimizationProblem
longer_trip = record {
  locations = place 540 1200 0 true ∷ trip_locations;
  start_time = at 540;
  start_policy = StartPolicy.earliest;
  visit_policy = VisitPolicy.all_required;
}

abbrev four : List ℕ
four = 0 ∷ 1 ∷ 2 ∷ 3 ∷ []

four-once : (x : ℕ) → count x four ≡ (if ltb x 4 then 1 else 0)
four-once x = ground arith

apply_neighborhood_move-valid_example :
    validate_visit_order longer_trip (record { visit_order = 0 ∷ 2 ∷ 1 ∷ 3 ∷ [] }) ≡ ok tt
unfolding apply_neighborhood_move is_allowed moved
apply_neighborhood_move-valid_example =
    apply_neighborhood_move-valid longer_trip four (NeighborhoodMove.swap 1 2) tt (omega arith) refl
      refl four-once

apply_neighborhood_move-IsSimple_example :
    IsSimple 0 4 (apply_neighborhood_move five (NeighborhoodMove.replace_optional 2 7)).0
apply_neighborhood_move-IsSimple_example =
    apply_neighborhood_move-IsSimple 0 4 five (NeighborhoodMove.replace_optional 2 7)
      (refl, refl, five-once)
