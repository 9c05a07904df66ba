-- ===== src/Initial/Euler/Outcome.antt =====
-- src/solver/initial/mst/euler.rs: the tour that is returned.
use troute.Prelude.{
  ℕ, ◌≤◌, ◌<◌, ◌≡◌, sym, ◌∙◌, subst, inl, inr, Result-cases, false, ok, List, [], ◌∷◌, replicate,
  arith,
}
use troute.Schedule.{any_unseen}
use troute.Initial.Counts.{count}
use troute.Initial.Euler.{
  MstEdge, Adjacency, add_edges, sort_neighbors, walk_loop, rounds_for, first_walk, walk_tree,
  doubled_tree_euler_tour,
}
use troute.Initial.Euler.Rounds.{AreNodes, first_walk-ends}
use troute.Initial.Euler.Neighbors.{
  IsAdjacency, add_edges-IsAdjacency, sort_neighbors-IsAdjacency, All-get_elem?,
  no_edges-IsAdjacency,
}
use troute.Initial.Euler.Covers.{Toured, seen-lt, walk_loop-Toured, first_walk-Toured, none_unseen}

IsAdjacency-AreNodes :
    (n : ℕ) (adjacency : Adjacency) → IsAdjacency n adjacency → AreNodes n adjacency
IsAdjacency-AreNodes n adjacency a node next neighbor e =
    All-get_elem? n _ next {x = neighbor} (a.nodes node) e

collected :
    (n : ℕ) (edges : List MstEdge) {adjacency : Adjacency}
    → add_edges n edges (replicate n []) ≡ ok adjacency
    → IsAdjacency n (sort_neighbors adjacency)
collected n edges {adjacency} e = sort_neighbors-IsAdjacency n adjacency (
    add_edges-IsAdjacency n edges (replicate n []) {adjacency = adjacency} (no_edges-IsAdjacency n)
      e)

-- The walk around the neighbours that edges give ends: after as many rounds as all nodes have
-- neighbours, and one more for each node, the stack is empty.
pub walk_loop_total :
    (n root : ℕ) (edges : List MstEdge) {adjacency : Adjacency}
    → root < n
    → add_edges n edges (replicate n []) ≡ ok adjacency
    → (walk_loop
        (rounds_for (replicate n false) (sort_neighbors adjacency))
        (sort_neighbors adjacency)
        (first_walk n root)).stack
      ≡ []
walk_loop_total n root edges {adjacency} lt e =
    let a = collected n edges {adjacency = adjacency} e in
    first_walk-ends n (sort_neighbors adjacency) a.rows
      (IsAdjacency-AreNodes n (sort_neighbors adjacency) a) root lt

walk_tree-covers :
    (n root : ℕ) (adjacency : Adjacency) {tour : List ℕ}
    → root < n
    → IsAdjacency n adjacency
    → walk_tree n root adjacency ≡ ok tour
    → (rest : List ℕ) × (tour ≡ root ∷ rest)
      × ((x : ℕ) → 1 ≤ count x tour → x < n)
      × ((x : ℕ) → x < n → 1 ≤ count x tour)
unfolding walk_tree
walk_tree-covers n root adjacency {tour} lt a e =
    let w = walk_loop (rounds_for (replicate n false) adjacency) adjacency (first_walk n root) in
    let first = first_walk n root in
    let t : Toured n root w =
      walk_loop-Toured n root adjacency (IsAdjacency-AreNodes n adjacency a)
        (rounds_for (replicate n false) adjacency) first.seen first.tour first.stack
        (first_walk-Toured n root lt) in
    let whole : any_unseen w.seen ≡ false = ground arith in
    let same : w.tour ≡ tour = ground arith in
    (
      t.rest,
      sym same ∙ t.begins,
      λ x h.
          subst (λ k. x < k) t.size
            (seen-lt w.seen x (t.marked x (subst (λ k. 1 ≤ count x k) (sym same) h))),
      λ x h.
          subst (λ k. 1 ≤ count x k) same
            (t.passed x (none_unseen w.seen x whole (subst (λ k. x < k) (sym t.size) h))),
    )

-- A tour that is returned begins at the root, passes every node, and nothing else.
pub doubled_tree_euler_tour-covers :
    (n : ℕ) (edges : List MstEdge) (root : ℕ) {tour : List ℕ}
    → doubled_tree_euler_tour n edges root ≡ ok tour
    → (rest : List ℕ) × (tour ≡ root ∷ rest)
      × ((x : ℕ) → 1 ≤ count x tour → x < n)
      × ((x : ℕ) → x < n → 1 ≤ count x tour)
unfolding doubled_tree_euler_tour
doubled_tree_euler_tour-covers n edges root {tour} e =
    elim (Result-cases (add_edges n edges (replicate n []))) [
      | inr (error, failed) ↦ absurd (ground arith)
      | inl (adjacency, added) ↦
          walk_tree-covers n root (sort_neighbors adjacency) {tour = tour} (ground arith)
            (collected n edges {adjacency = adjacency} added) (ground arith)
    ]
