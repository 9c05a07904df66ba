-- ===== src/Initial/Mst/Tests.antt =====
-- The route by a spanning tree of four places.
use troute.Prelude.{
  ℕ, ◌≤◌, ◌<◌, ◌≡◌, refl, true, false, Option, some, ok, List, [], ◌∷◌, replicate, arith,
}
use troute.Domain.{StartPolicy, VisitPolicy}
use troute.Matrix
use troute.Solver.Types.{SolverInput, SolverSolution}
use troute.Solver.Evaluate.{validate_visit_order}
use troute.Solver.Fixtures.{at, place, trip_locations}
use troute.Schedule.{any_unseen}
use troute.Initial.{validate_generator_input}
use troute.Initial.Counts.{count}
use troute.Initial.Euler.{
  MstEdge, add_edges, sort_neighbors, walk_loop, rounds_for, first_walk, walk_tree,
  doubled_tree_euler_tour,
}
use troute.Initial.Euler.Outcome.{walk_loop_total, doubled_tree_euler_tour-covers}
use troute.Initial.Tours.{shortcut_walk, shortcut_euler_tour, end_at_last, route_of_tour}
use troute.Initial.Mst.{
  average_distance, nearest_node, improve, improve_all, grow, grow_all, minimum_spanning_tree,
  mst_route,
}
use troute.Initial.Mst.Valid.{mst_route-valid}

abbrev four_rows : List (List (Option ℕ))
four_rows =
    (some 0 ∷ some 9 ∷ some 2 ∷ some 3 ∷ [])
    ∷ (some 9 ∷ some 0 ∷ some 8 ∷ some 3 ∷ [])
    ∷ (some 2 ∷ some 8 ∷ some 0 ∷ some 9 ∷ [])
    ∷ (some 4 ∷ some 3 ∷ some 9 ∷ some 0 ∷ [])
    ∷ []

abbrev four_places : SolverInput
four_places = record {
  matrix = record { rows = four_rows };
  problem = record {
    locations = place 540 1200 0 true ∷ trip_locations;
    start_time = at 540;
    start_policy = StartPolicy.earliest;
    visit_policy = VisitPolicy.all_required;
  };
  cancelled = false;
}

abbrev tree : List MstEdge
tree =
    record { from = 0; to = 2; distance = 2 }
    ∷ record { from = 0; to = 3; distance = 3 }
    ∷ record { from = 3; to = 1; distance = 3 }
    ∷ []

grows : minimum_spanning_tree (average_distance four_places.matrix) 4 ≡ ok tree
unfolding minimum_spanning_tree grow_all grow nearest_node improve_all improve average_distance
    Matrix.travel_minutes
grows = refl

abbrev around : List ℕ
around = 0 ∷ 2 ∷ 0 ∷ 3 ∷ 1 ∷ 3 ∷ 0 ∷ []

walks : doubled_tree_euler_tour 4 tree 0 ≡ ok around
unfolding doubled_tree_euler_tour add_edges sort_neighbors walk_tree walk_loop any_unseen
walks = refl

abbrev four_route : SolverSolution
four_route = record { visit_order = 0 ∷ 2 ∷ 1 ∷ 3 ∷ [] }

generates : mst_route (average_distance four_places.matrix) four_places ≡ ok four_route
unfolding mst_route minimum_spanning_tree grow_all grow nearest_node improve_all improve
    average_distance Matrix.travel_minutes doubled_tree_euler_tour add_edges sort_neighbors
    walk_tree walk_loop any_unseen route_of_tour shortcut_euler_tour shortcut_walk end_at_last
    validate_generator_input
generates = refl

mst_route-valid_example : validate_visit_order four_places.problem four_route ≡ ok tt
mst_route-valid_example =
    mst_route-valid (average_distance four_places.matrix) four_places {solution = four_route}
      generates

doubled_tree_euler_tour-covers_example :
    (rest : List ℕ) × (around ≡ 0 ∷ rest)
    × ((x : ℕ) → 1 ≤ count x around → x < 4)
    × ((x : ℕ) → x < 4 → 1 ≤ count x around)
doubled_tree_euler_tour-covers_example =
    doubled_tree_euler_tour-covers 4 tree 0 {tour = around} walks

abbrev neighbors : List (List (ℕ × ℕ))
neighbors = ((2, 2) ∷ (3, 3) ∷ []) ∷ ((3, 3) ∷ []) ∷ ((0, 2) ∷ []) ∷ ((0, 3) ∷ (1, 3) ∷ []) ∷ []

adds : add_edges 4 tree (replicate 4 []) ≡ ok neighbors
unfolding add_edges
adds = refl

walk_loop_total_example :
    (walk_loop
      (rounds_for (replicate 4 false) (sort_neighbors neighbors))
      (sort_neighbors neighbors)
      (first_walk 4 0)).stack
    ≡ []
walk_loop_total_example = walk_loop_total 4 0 tree {adjacency = neighbors} (omega arith) adds
