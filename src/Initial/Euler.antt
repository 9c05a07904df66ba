-- ===== src/Initial/Euler.antt =====
-- src/solver/initial/mst/euler.rs: the walk around a tree that passes each edge twice.
pub mod Rounds
pub mod Neighbors
pub mod Covers
pub mod Outcome
use troute.Prelude.{
  ℕ, zero, suc, ◌+◌, ◌-◌, ltb, leb, ◌==◌, ◌||◌, not, compare, Ordering, if◌then◌else◌, Bool, true,
  false, Option, none, some, Result, ok, err, List, [], ◌∷◌, ◌++◌, map, length, get_elem?, get_or,
  set, replicate,
}
use troute.Prelude.Results.{◌>>=◌}
use troute.Prelude.Sort.{sort_by}
use troute.Solver.Types.{SolverError}
use troute.Solver.Objective.{then_with}
use troute.Schedule.{any_unseen}

pub record MstEdge : Type 0 where
  pub from : ℕ
  pub to : ℕ
  pub distance : ℕ

-- The neighbours of each node, with the distances to them.
abbrev pub Adjacency : Type 0
Adjacency = List (List (ℕ × ℕ))

-- `adjacency[node].push(neighbor)`.
abbrev pub push_neighbor : Adjacency → (node : ℕ) → (ℕ × ℕ) → Adjacency
push_neighbor adjacency node neighbor =
    set adjacency node (get_or adjacency node [] ++ (neighbor ∷ []))

-- The loop over the edges.
unfoldable pub add_edges :
    (node_count : ℕ) → List MstEdge → Adjacency → Result Adjacency SolverError
add_edges node_count [] adjacency = ok adjacency
add_edges node_count (edge ∷ edges) adjacency =
    let rest = add_edges node_count edges (
      push_neighbor (push_neighbor adjacency edge.from (edge.to, edge.distance)) edge.to
        (edge.from, edge.distance)) in
    if leb node_count edge.from || leb node_count edge.to || (edge.from == edge.to)
    then err (SolverError.invalid_configuration "MST edge contains an invalid endpoint")
    else rest

-- By distance, then by node.
abbrev pub compare_neighbors : ℕ × ℕ → ℕ × ℕ → Ordering
compare_neighbors a b = then_with (compare a.1 b.1) (compare a.0 b.0)

unfoldable pub sort_neighbors : Adjacency → Adjacency
sort_neighbors adjacency = map (sort_by compare_neighbors) adjacency

-- The running values of the walk. A frame of the stack, of which the top comes first, is a node and
-- the number of its neighbours that were looked at.
pub record Walk : Type 0 where
  pub seen : List Bool
  pub tour : List ℕ
  pub stack : List (ℕ × ℕ)

-- The node under the top that was taken off, to which the walk comes back.
abbrev pub parent : List (ℕ × ℕ) → List ℕ
parent [] = []
parent (frame ∷ stack) = frame.0 ∷ []

-- The body of the loop, with the next neighbour of the node on top.
abbrev pub visit_next :
    (seen : List Bool) (tour : List ℕ) (node next : ℕ) (stack : List (ℕ × ℕ))
    → Option (ℕ × ℕ)
    → Walk
visit_next seen tour node next stack none = record {
  seen = seen;
  tour = tour ++ parent stack;
  stack = stack;
}
visit_next seen tour node next stack (some (child, distance)) =
    if get_or seen child false
    then record { seen = seen; tour = tour; stack = (node, suc next) ∷ stack }
    else record {
      seen = set seen child true;
      tour = tour ++ (child ∷ []);
      stack = (child, 0) ∷ ((node, suc next) ∷ stack);
    }

abbrev pub visit_top : Adjacency → List Bool → List ℕ → List (ℕ × ℕ) → Walk
visit_top adjacency seen tour [] = record { seen = seen; tour = tour; stack = [] }
visit_top adjacency seen tour (frame ∷ stack) =
    visit_next seen tour frame.0 frame.1 stack (get_elem? (get_or adjacency frame.0 []) frame.1)

-- One round of the loop; where the stack is empty, the loop is over and nothing changes.
unfoldable pub walk_step : Adjacency → Walk → Walk
walk_step adjacency w = visit_top adjacency w.seen w.tour w.stack

unfoldable pub walk_loop : (rounds : ℕ) → Adjacency → Walk → Walk
unfolding walk_step
walk_loop zero adjacency w = w
walk_loop (suc rounds) adjacency w = walk_loop rounds adjacency (walk_step adjacency w)

-- The rounds that are left for nodes not yet seen: one for each neighbour and one for the way back.
abbrev pub rounds_for : List Bool → Adjacency → ℕ
rounds_for [] adjacency = 0
rounds_for (s ∷ seen) [] = 0
rounds_for (s ∷ seen) (row ∷ rows) = (if s then 0 else suc (length row)) + rounds_for seen rows

abbrev pub first_walk : (node_count root : ℕ) → Walk
first_walk node_count root = record {
  seen = set (replicate node_count false) root true;
  tour = root ∷ [];
  stack = (root, 0) ∷ [];
}

-- The walk from the root, with as many rounds as all nodes need.
unfoldable pub walk_tree : (node_count root : ℕ) → Adjacency → Result (List ℕ) SolverError
unfolding walk_loop
walk_tree node_count root adjacency =
    let w =
      walk_loop (rounds_for (replicate node_count false) adjacency) adjacency
        (first_walk node_count root) in
    if any_unseen w.seen
    then err (SolverError.invalid_configuration "MST edges do not connect every node")
    else ok w.tour

unfoldable pub doubled_tree_euler_tour :
    (node_count : ℕ) → List MstEdge → (root : ℕ) → Result (List ℕ) SolverError
unfolding add_edges sort_neighbors walk_tree
doubled_tree_euler_tour node_count edges root =
    if (node_count == 0) || leb node_count root || not (length edges == node_count - 1)
    then err (SolverError.invalid_configuration "Euler tour input must be a rooted spanning tree")
    else add_edges node_count edges (replicate node_count []) >>= λ adjacency.
        walk_tree node_count root (sort_neighbors adjacency)
