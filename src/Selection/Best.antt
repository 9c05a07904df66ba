-- ===== src/Selection/Best.antt =====
-- src/solver/orchestrator/selector.rs: the selected candidate against each of the others.
use troute.Prelude.{
  ℕ, zero, suc, true, Option, none, some, Option-cases, inl, inr, ◌⊎◌, false, ok, List, [], ◌∷◌,
  Ordering, ◌≡◌, ◌≢◌, get_elem?, subst, arith,
}
use troute.Domain.{StartPolicy}
use troute.Solver.Objective.{default_compare}
use troute.Solver.Objective.Comparison.{MetricsOf, default_compare-IsWeakOrder}
use troute.Selection.{
  SolverCandidate, is_selectable, compare_scores, compare_feasible, compare_candidates, rank,
  select,
}
use troute.Selection.Choice.{better, first_best, select-rank}
use troute.Selection.Agreement.{
  AllHavePolicy, HasPolicyScore, HeldHasPolicy, first_best-HeldHasPolicy,
}

-- A candidate that can be selected, and is not beaten by another.
abbrev pub Unbeaten : SolverCandidate → SolverCandidate → Type 0
Unbeaten c d = compare_candidates default_compare d c ≢ Ordering.lt

-- What the choice among the others holds: a candidate that can be selected.
Unbeaten-trans :
    (p : StartPolicy) (a b d : SolverCandidate)
    → is_selectable a ≡ true
    → is_selectable b ≡ true
    → HasPolicyScore p a.objective_score
    → HasPolicyScore p b.objective_score
    → HasPolicyScore p d.objective_score
    → Unbeaten a b
    → Unbeaten b d
    → Unbeaten a d
unfolding compare_candidates compare_scores compare_feasible
Unbeaten-trans p a b d u v f g h k l =
    let w = default_compare-IsWeakOrder p in
    elim (Option-cases a.objective_score) [
      | inl x ↦ absurd (ground arith)
      | inr (ma, x) ↦ elim (Option-cases b.objective_score) [
        | inl y ↦ absurd (ground arith)
        | inr (mb, y) ↦ elim (Option-cases d.objective_score) [
          | inl z ↦ ground arith
          | inr (md, z) ↦
              let ka : MetricsOf p = (ma, ground arith) in
              let kb : MetricsOf p = (mb, ground arith) in
              let kd : MetricsOf p = (md, ground arith) in
              ground (
                arith,
                w.lt_trans kd ka kb,
                w.eq_congr kb ka kd,
                w.swap ka kb,
                w.swap ka kd,
                w.swap kb kd,
              )
        ]
      ]
    ]

Unbeaten-swap :
    (p : StartPolicy) (a d : SolverCandidate)
    → is_selectable d ≡ true
    → HasPolicyScore p a.objective_score
    → HasPolicyScore p d.objective_score
    → (compare_candidates default_compare d a ≡ Ordering.lt) ⊎ (a ≡ d)
    → Unbeaten d a
unfolding compare_candidates compare_scores compare_feasible
Unbeaten-swap p a d v f g lt =
    let w = default_compare-IsWeakOrder p in
    elim (Option-cases d.objective_score) [
      | inl y ↦ absurd (ground arith)
      | inr (md, y) ↦ elim (Option-cases a.objective_score) [
        | inl x ↦ ground arith
        | inr (ma, x) ↦
            let ka : MetricsOf p = (ma, ground arith) in
            let kd : MetricsOf p = (md, ground arith) in ground (arith, w.swap ka kd, w.swap ka ka)
      ]
    ]

Unbeaten-unselectable :
    (a d : SolverCandidate) → is_selectable a ≡ true → is_selectable d ≡ false → Unbeaten a d
unfolding compare_candidates compare_scores compare_feasible
Unbeaten-unselectable a d u v = ground arith

first_best-none :
    (cs : List SolverCandidate) (i : ℕ) {d : SolverCandidate}
    → first_best default_compare cs ≡ none
    → get_elem? cs i ≡ some d
    → is_selectable d ≡ false
first_best-none [] i e g = cc
first_best-none (c ∷ cs) zero e g = ground arith
first_best-none (c ∷ cs) (suc i) e g = first_best-none cs i (ground arith) g

HasPolicyScore-get_elem? :
    (p : StartPolicy) (cs : List SolverCandidate) (i : ℕ) {d : SolverCandidate}
    → AllHavePolicy p cs
    → get_elem? cs i ≡ some d
    → HasPolicyScore p d.objective_score
HasPolicyScore-get_elem? p [] i h g = cc
HasPolicyScore-get_elem? p (c ∷ cs) zero h g = ground arith
HasPolicyScore-get_elem? p (c ∷ cs) (suc i) h g = HasPolicyScore-get_elem? p cs i h.1 g

-- What is held of a choice against one candidate.
Wins : StartPolicy → SolverCandidate → SolverCandidate → Type 0
Wins p c d = (is_selectable c ≡ true) × HasPolicyScore p c.objective_score × Unbeaten c d

-- The choice wins against its first candidate.
better-Wins_first :
    (p : StartPolicy) (x : SolverCandidate) (rest : Option SolverCandidate) {c : SolverCandidate}
    → HasPolicyScore p x.objective_score
    → HeldHasPolicy p rest
    → better default_compare x rest ≡ some c
    → Wins p c x
unfolding Wins HeldHasPolicy
better-Wins_first p x none {c} g h e = ground (arith, Unbeaten-swap p x x)
better-Wins_first p x (some y) {c} g h e =
    ground (arith, Unbeaten-swap p x x, Unbeaten-swap p x y, Unbeaten-unselectable y x)

-- The choice wins against what the later choice wins against.
better-Wins_later :
    (p : StartPolicy) (x y d : SolverCandidate) {c : SolverCandidate}
    → HasPolicyScore p x.objective_score
    → HasPolicyScore p d.objective_score
    → better default_compare x (some y) ≡ some c
    → Wins p y d
    → Wins p c d
unfolding Wins
better-Wins_later p x y d {c} f g e w = ground (arith, Unbeaten-trans p x y d)

first_best-Wins :
    (p : StartPolicy) (cs : List SolverCandidate) (i : ℕ) {c d : SolverCandidate}
    → AllHavePolicy p cs
    → first_best default_compare cs ≡ some c
    → get_elem? cs i ≡ some d
    → Wins p c d
unfolding Wins
first_best-Wins p [] i h e g = cc
first_best-Wins p (x ∷ xs) zero {c} {d} h e g =
    let same : x ≡ d = cc in
    subst (λ z. Wins p c z) same
      (better-Wins_first p x (first_best default_compare xs) h.0 (first_best-HeldHasPolicy p xs h.1)
        e)
first_best-Wins p (x ∷ xs) (suc i) {c} {d} h e g =
    elim (Option-cases (first_best default_compare xs)) [
      | inl n ↦ ground (arith, first_best-none xs i n g, Unbeaten-unselectable x d)
      | inr (y, n) ↦
          better-Wins_later p x y d h.0 (HasPolicyScore-get_elem? p xs i h.1 g) (ground arith)
            (first_best-Wins p xs i h.1 n g)
    ]

-- For the default objective, where all scores are of one start policy: where ranking and selecting
-- yield a candidate, it is feasible with a score, and no candidate of the list compares as better.
pub select-Unbeaten :
    (p : StartPolicy) (cs : List SolverCandidate) (i : ℕ) {c d : SolverCandidate}
    → AllHavePolicy p cs
    → select (rank default_compare cs) ≡ ok c
    → get_elem? cs i ≡ some d
    → (is_selectable c ≡ true) × Unbeaten c d
unfolding Wins
select-Unbeaten p cs i {c} h e g =
    let (selectable, policy, unbeaten) =
      first_best-Wins p cs i {c = c} h (ground (arith, select-rank default_compare cs)) g in
    (selectable, unbeaten)
