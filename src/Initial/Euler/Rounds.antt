-- ===== src/Initial/Euler/Rounds.antt =====
-- src/solver/initial/mst/euler.rs: the rounds of the walk are enough.
use troute.Prelude.{
  ℕ, zero, suc, ◌+◌, ◌-◌, ◌≤◌, ◌<◌, ◌≡◌, refl, sym, ◌∙◌, inl, inr, Bool-cases, Bool, true, false,
  Option, none, some, List, [], ◌∷◌, length, get_elem?, get_or, set, replicate, get_elem?-some,
  get_or-replicate, length-set, length-replicate, arith,
}
use troute.Initial.Euler.{Adjacency, visit_next, walk_step, walk_loop, rounds_for, first_walk}

-- The rounds that the frames of the stack still take.
abbrev pub rounds_left : Adjacency → List (ℕ × ℕ) → ℕ
rounds_left adjacency [] = 0
rounds_left adjacency (frame ∷ stack) =
    suc (length (get_or adjacency frame.0 []) - frame.1) + rounds_left adjacency stack

rounds_for-set :
    (seen : List Bool) (adjacency : Adjacency) (i : ℕ)
    → length seen ≡ length adjacency
    → i < length seen
    → get_or seen i false ≡ false
    → rounds_for (set seen i true) adjacency + suc (length (get_or adjacency i []))
      ≡ rounds_for seen adjacency
rounds_for-set [] adjacency i size lt fresh = absurd (omega arith)
rounds_for-set (s ∷ seen) [] i size lt fresh = absurd (omega arith)
rounds_for-set (s ∷ seen) (row ∷ rows) zero size lt fresh = ground arith
rounds_for-set (s ∷ seen) (row ∷ rows) (suc i) size lt fresh =
    omega (arith, rounds_for-set seen rows i (omega arith) (omega arith) fresh)

-- Every neighbour is a node.
abbrev pub AreNodes : ℕ → Adjacency → Type 0
AreNodes n adjacency =
    (node next : ℕ) (neighbor : ℕ × ℕ)
    → get_elem? (get_or adjacency node []) next ≡ some neighbor
    → neighbor.0 < n

module _ (n : ℕ) (adjacency : Adjacency) (rows : length adjacency ≡ n)
    (nodes : AreNodes n adjacency) where
  visit_next-rounds :
      (seen : List Bool) (tour : List ℕ) (node next : ℕ) (stack : List (ℕ × ℕ)) (o : Option (ℕ × ℕ))
      → length seen ≡ n
      → get_elem? (get_or adjacency node []) next ≡ o
      → let w = visit_next seen tour node next stack o in
        (length w.seen ≡ n)
        × (rounds_for w.seen adjacency + rounds_left adjacency w.stack
            < rounds_for seen adjacency + rounds_left adjacency ((node, next) ∷ stack))
  visit_next-rounds seen tour node next stack none size e = (size, omega arith)
  visit_next-rounds seen tour node next stack (some (child, distance)) size e =
      let (lt, here) = get_elem?-some (get_or adjacency node []) next (0, 0) e in
      elim (Bool-cases (get_or seen child false)) [
        | inl again ↦ rw again (size, omega arith)
        | inr fresh ↦
            let inside : child < n = nodes node next (child, distance) e in
            let less = rounds_for-set seen adjacency child (size ∙ sym rows) (omega arith) fresh in
            rw fresh (length-set seen child true ∙ size, omega arith)
      ]

  -- With as many rounds as are left, the walk ends.
  walk_loop-ends :
      (rounds : ℕ) (seen : List Bool) (tour : List ℕ) (stack : List (ℕ × ℕ))
      → length seen ≡ n
      → rounds_for seen adjacency + rounds_left adjacency stack ≤ rounds
      → (walk_loop rounds adjacency (record { seen = seen; tour = tour; stack = stack })).stack ≡ []
  unfolding walk_loop walk_step
  walk_loop-ends zero seen tour [] size h = refl
  walk_loop-ends zero seen tour (frame ∷ stack) size h = absurd (omega arith)
  walk_loop-ends (suc rounds) seen tour [] size h = stays rounds
    where
      stays :
          (k : ℕ)
          → (walk_loop k adjacency (record { seen = seen; tour = tour; stack = [] })).stack ≡ []
      stays zero = refl
      stays (suc k) = stays k
  walk_loop-ends (suc rounds) seen tour (frame ∷ stack) size h =
      let o = get_elem? (get_or adjacency frame.0 []) frame.1 in
      let w = visit_next seen tour frame.0 frame.1 stack o in
      let (size', less) = visit_next-rounds seen tour frame.0 frame.1 stack o size refl in
      walk_loop-ends rounds w.seen w.tour w.stack size' (omega arith)

  pub first_walk-ends :
      (root : ℕ)
      → root < n
      → (walk_loop (rounds_for (replicate n false) adjacency) adjacency (first_walk n root)).stack
        ≡ []
  first_walk-ends root lt =
      let fresh = replicate n false in
      let size = length-replicate n false in
      let all =
        rounds_for-set fresh adjacency root (size ∙ sym rows) (omega arith)
          (get_or-replicate n root false) in
      walk_loop-ends (rounds_for fresh adjacency) (set fresh root true) (root ∷ []) ((root, 0) ∷ [])
        (length-set fresh root true ∙ size) (omega arith)
