-- ===== src/Initial/Mst.antt =====
-- src/solver/initial/mst: the initial route by a minimum spanning tree.
pub mod Valid
mod Tests
use troute.Prelude.{
  ℕ, zero, suc, ◌+◌, ◌-◌, ◌/◌, ◌^◌, ltb, leb, ◌==◌, ◌||◌, ◌&&◌, not, if◌then◌else◌, Bool, true,
  false, Option, none, some, Result, ok, err, ok_or, List, [], ◌∷◌, ◌++◌, length, get_or, set,
  replicate,
}
use troute.Prelude.Results.{◌>>=◌, ◌>>◌}
use troute.Matrix
use troute.Matrix.{TravelTimeMatrix}
use troute.Solver.Types.{SolverInput, SolverSolution, SolverError}
use troute.Initial.{validate_generator_input, span}
use troute.Initial.Euler.{MstEdge, doubled_tree_euler_tour}
use troute.Initial.Tours.{route_of_tour}

-- `AverageSymmetricDistance`; the travel times are of a `u32`, so their sum fits a `u64`.
unfoldable pub average_distance : TravelTimeMatrix → (left right : ℕ) → Result ℕ SolverError
average_distance matrix left right = do
  forward ← ok_or (Matrix.travel_minutes matrix left right) SolverError.no_feasible_route
  reverse ← ok_or (Matrix.travel_minutes matrix right left) SolverError.no_feasible_route
  ok ((forward + reverse) / 2)

-- `u64::MAX`.
abbrev pub unreached : ℕ
unreached = 2 ^ 64 - 1

-- The running values of `minimum_spanning_tree`.
pub record Growth : Type 0 where
  pub included : List Bool
  pub best_distance : List ℕ
  pub parent : List (Option ℕ)
  pub edges : List MstEdge

abbrev pub is_nearer : Growth → ℕ → Option ℕ → Bool
is_nearer s node none = true
is_nearer s node (some best) = ltb (get_or s.best_distance node 0) (get_or s.best_distance best 0)

-- `min_by_key` over the nodes not included, by distance and then by node: the nodes come in
-- ascending order, so a later one has to be nearer.
unfoldable pub nearest_node : Growth → Option ℕ → List ℕ → Option ℕ
nearest_node s best [] = best
nearest_node s best (node ∷ nodes) =
    nearest_node s
      (if not (get_or s.included node false) && is_nearer s node best then some node else best)
      nodes

abbrev pub better_parent : (next : ℕ) → Option ℕ → Bool
better_parent next none = true
better_parent next (some old) = ltb next old

module _ (distance : (left right : ℕ) → Result ℕ SolverError) where
  -- The distance of a candidate through the node just included.
  unfoldable pub improve : (next candidate candidate_distance : ℕ) → Growth → Growth
  improve next candidate candidate_distance s =
      let best = get_or s.best_distance candidate 0 in
      if ltb candidate_distance best
        || ((candidate_distance == best) && better_parent next (get_or s.parent candidate none))
      then record s {
        best_distance = set s.best_distance candidate candidate_distance;
        parent = set s.parent candidate (some next);
      }
      else s

  -- The loop over the candidates.
  unfoldable pub improve_all : (next : ℕ) → List ℕ → Growth → Result Growth SolverError
  unfolding improve
  improve_all next [] s = ok s
  improve_all next (candidate ∷ candidates) s =
      (if get_or s.included candidate false || (candidate == next)
        then ok s
        else (distance next candidate >>= λ d. ok (improve next candidate d s)))
      >>= improve_all next candidates

  abbrev pub edge_to : (next distance : ℕ) → Option ℕ → List MstEdge
  edge_to next length none = []
  edge_to next length (some from) = record { from = from; to = next; distance = length } ∷ []

  -- One round: the nearest node joins the tree.
  unfoldable pub grow : (node_count : ℕ) → Growth → Result Growth SolverError
  unfolding nearest_node improve_all
  grow node_count s =
      ok_or (nearest_node s none (span 0 node_count)) (SolverError.failed "MST construction failed")
      >>= λ next.
          let best = get_or s.best_distance next 0 in
          if best == unreached
          then err (SolverError.failed "MST graph is not connected")
          else improve_all next (span 0 node_count) (record s {
            included = set s.included next true;
            edges = s.edges ++ edge_to next best (get_or s.parent next none);
          })

  unfoldable pub grow_all : (rounds node_count : ℕ) → Growth → Result Growth SolverError
  unfolding grow
  grow_all zero node_count s = ok s
  grow_all (suc rounds) node_count s = grow node_count s >>= grow_all rounds node_count

  unfoldable pub minimum_spanning_tree : (node_count : ℕ) → Result (List MstEdge) SolverError
  unfolding grow_all
  minimum_spanning_tree node_count =
      if node_count == 0
      then err (SolverError.invalid_configuration "an MST requires at least one node")
      else (grow_all node_count node_count (record {
        included = replicate node_count false;
        best_distance = set (replicate node_count unreached) 0 0;
        parent = replicate node_count none;
        edges = [];
      })
          >>= λ s. ok s.edges)

  -- `MstDoubleTreeInitialRoute::generate`, with the symmetric distance as a parameter.
  unfoldable pub mst_route : SolverInput → Result SolverSolution SolverError
  unfolding minimum_spanning_tree
  mst_route input =
      validate_generator_input input
      >> (minimum_spanning_tree (length input.problem.locations) >>= λ edges.
          doubled_tree_euler_tour (length input.problem.locations) edges 0 >>= λ tour.
          route_of_tour input.problem tour)
