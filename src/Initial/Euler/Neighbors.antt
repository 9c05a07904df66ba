-- ===== src/Initial/Euler/Neighbors.antt =====
-- src/solver/initial/mst/euler.rs: the neighbours collected from the edges are nodes.
use troute.Prelude.{
  ℕ, zero, suc, ◌<◌, ◌≡◌, refl, sym, ap, ◌∙◌, subst, inl, inr, Bool-cases, ◌==◌, some, ok, List, [],
  ◌∷◌, ◌++◌, map, length, get_elem?, get_or, set, replicate, get_or-set_self, get_or-set_ne,
  get_or-replicate, length-set, length-replicate, arith, Ordering,
}
use troute.Prelude.Loops.{All, All-append}
use troute.Prelude.Sort.{insert_by, sort_by}
use troute.Initial.Euler.{
  MstEdge, Adjacency, push_neighbor, add_edges, compare_neighbors, sort_neighbors,
}

abbrev pub IsNode : ℕ → ℕ × ℕ → Type 0
IsNode n neighbor = neighbor.0 < n

-- As many rows as nodes, and only nodes in them.
pub record IsAdjacency (n : ℕ) (adjacency : Adjacency) : Type 0 where
  pub rows : length adjacency ≡ n
  pub nodes : (i : ℕ) → All (IsNode n) (get_or adjacency i [])

push_neighbor-IsAdjacency :
    (n : ℕ) (adjacency : Adjacency) (node : ℕ) (neighbor : ℕ × ℕ)
    → node < n
    → neighbor.0 < n
    → IsAdjacency n adjacency
    → IsAdjacency n (push_neighbor adjacency node neighbor)
push_neighbor-IsAdjacency n adjacency node neighbor lt inside a =
    let row = get_or adjacency node [] ++ (neighbor ∷ []) in
    record {
      rows = length-set adjacency node row ∙ a.rows;
      nodes = λ i. elim (Bool-cases (i == node)) [
        | inl same ↦
            let eq : node ≡ i = ground arith in
            subst (λ k. All (IsNode n) (get_or (set adjacency node row) k [])) eq
              (subst (All (IsNode n))
                (sym (get_or-set_self adjacency node row [] (omega (arith, a.rows))))
                (All-append (IsNode n) (get_or adjacency node []) (neighbor ∷ []) (a.nodes node)
                  (inside, tt)))
        | inr other ↦
            subst (All (IsNode n)) (sym (get_or-set_ne adjacency node i row [] (ground arith)))
              (a.nodes i)
      ];
    }

pub add_edges-IsAdjacency :
    (n : ℕ) (edges : List MstEdge) (before : Adjacency) {adjacency : Adjacency}
    → IsAdjacency n before
    → add_edges n edges before ≡ ok adjacency
    → IsAdjacency n adjacency
unfolding add_edges
add_edges-IsAdjacency n [] before {adjacency} a e =
    let same : before ≡ adjacency = ground arith in subst (IsAdjacency n) same a
add_edges-IsAdjacency n (edge ∷ edges) before {adjacency} a e =
    let from : edge.from < n = ground arith in
    let to : edge.to < n = ground arith in
    let there = push_neighbor before edge.from (edge.to, edge.distance) in
    add_edges-IsAdjacency n edges (push_neighbor there edge.to (edge.from, edge.distance))
      {adjacency = adjacency}
      (push_neighbor-IsAdjacency n there edge.to (edge.from, edge.distance) to from
        (push_neighbor-IsAdjacency n before edge.from (edge.to, edge.distance) from to a))
      (ground arith)

module _ {ℓ κ} {A : Type ℓ} (P : A → Type κ) (cmp : A → A → Ordering) where
  All-insert_by : (x : A) (xs : List A) → P x → All P xs → All P (insert_by cmp x xs)
  All-insert_by x [] p ps = (p, tt)
  All-insert_by x (y ∷ ys) p ps = go (All-insert_by x ys p ps.1) (cmp y x)
    where
      go :
          All P (insert_by cmp x ys)
          → (o : Ordering)
          → All P (elim o [ Ordering.lt ↦ y ∷ insert_by cmp x ys | _ ↦ x ∷ (y ∷ ys) ])
      go later Ordering.lt = (ps.0, later)
      go later Ordering.eq = (p, ps)
      go later Ordering.gt = (p, ps)

  All-sort_by : (xs : List A) → All P xs → All P (sort_by cmp xs)
  All-sort_by [] ps = tt
  All-sort_by (x ∷ xs) ps = All-insert_by x (sort_by cmp xs) ps.0 (All-sort_by xs ps.1)

length-map : (f : List (ℕ × ℕ) → List (ℕ × ℕ)) (xs : Adjacency) → length (map f xs) ≡ length xs
length-map f [] = refl
length-map f (x ∷ xs) = ap suc (length-map f xs)

get_or-map :
    (f : List (ℕ × ℕ) → List (ℕ × ℕ)) (xs : Adjacency) (i : ℕ)
    → f [] ≡ []
    → get_or (map f xs) i [] ≡ f (get_or xs i [])
get_or-map f [] i e = sym e
get_or-map f (x ∷ xs) zero e = refl
get_or-map f (x ∷ xs) (suc i) e = get_or-map f xs i e

pub sort_neighbors-IsAdjacency :
    (n : ℕ) (adjacency : Adjacency)
    → IsAdjacency n adjacency
    → IsAdjacency n (sort_neighbors adjacency)
unfolding sort_neighbors
sort_neighbors-IsAdjacency n adjacency a = record {
  rows = length-map (sort_by compare_neighbors) adjacency ∙ a.rows;
  nodes = λ i.
      subst (All (IsNode n)) (sym (get_or-map (sort_by compare_neighbors) adjacency i refl))
        (All-sort_by (IsNode n) compare_neighbors (get_or adjacency i []) (a.nodes i));
}

pub All-get_elem? :
    (n : ℕ) (xs : List (ℕ × ℕ)) (i : ℕ) {x : ℕ × ℕ}
    → All (IsNode n) xs
    → get_elem? xs i ≡ some x
    → x.0 < n
All-get_elem? n [] i a e = cc
All-get_elem? n (y ∷ ys) zero a e = ground (arith, a.0)
All-get_elem? n (y ∷ ys) (suc i) {x} a e = All-get_elem? n ys i {x = x} a.1 e

pub no_edges-IsAdjacency : (n : ℕ) → IsAdjacency n (replicate n [])
no_edges-IsAdjacency n = record {
  rows = length-replicate n [];
  nodes = λ i. subst (All (IsNode n)) (sym (get_or-replicate n i [])) tt;
}
