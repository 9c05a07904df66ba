-- ===== src/Exact/Search/Least.antt =====
-- src/solver/exact/bit_dp.rs: `min_by` over the complete routes.
use troute.Prelude.{
  ℕ, ◌^◌, ◌<◌, ◌≤◌, ◌≡◌, ◌≢◌, refl, subst, ◌⊎◌, inl, inr, Bool-cases, true, ◌&&◌, some, Ordering,
  List, [], ◌∷◌, get_elem?, get_or, length, ◌∙◌, arith,
}
use mathlib.Core.List.{reverse}
use troute.Prelude.Loops.{All, Any, Any-left, Any-right, for_range_reach}
use troute.Solver.Types.{SolverInput, SolutionMetrics}
use troute.Solver.Objective.{default_objective_policy, default_compare}
use troute.Solver.Objective.Order.{IsWeakOrder}
use troute.Solver.Objective.Comparison.{MetricsOf, default_compare-IsWeakOrder}
use troute.Exact.{ParetoState, ExactSolveResult}
use troute.Exact.Masks.{test_bit, covers}
use troute.Exact.Search.{
  Search, index, trace, total_length, count_nonempty, min_by, min_from, metrics, compare_ids,
  select_best, terminal_ids, end_location, full_mask, is_partial, required_mask,
}
use troute.Exact.Search.Offers.{cell_count}
use troute.Exact.Search.Chain.{MayEnd}

Ordering-cases : (o : Ordering) → (o ≡ Ordering.lt) ⊎ ((o ≡ Ordering.eq) ⊎ (o ≡ Ordering.gt))
Ordering-cases Ordering.lt = inl refl
Ordering-cases Ordering.eq = inr (inl refl)
Ordering-cases Ordering.gt = inr (inr refl)

weak_le_trans {ℓ} :
    {A : Type ℓ} {cmp : A → A → Ordering} (w : IsWeakOrder cmp) (a b c : A)
    → cmp a b ≢ Ordering.gt
    → cmp b c ≢ Ordering.gt
    → cmp a c ≢ Ordering.gt
weak_le_trans w a b c p q = ground (
  arith,
  w.swap a b,
  w.swap b c,
  w.swap a c,
  w.lt_trans a b c,
  w.eq_congr a b c,
  w.eq_congr c b a,
)

module _ (input : SolverInput) (start : ℕ) (arena : List ParetoState) (m : SolutionMetrics) where
  -- An id whose route is at least as good as `m`.
  pub record AtMost (id : ℕ) : Type 0 where
    pub state : ParetoState
    pub found : get_elem? arena id ≡ some state
    pub least : default_compare (metrics input.problem.start_policy start state) m ≢ Ordering.gt

  pub record IsFound (id : ℕ) : Type 0 where
    pub state : ParetoState
    pub found : get_elem? arena id ≡ some state

  compare_ids_found :
      (id id' : ℕ) {a b : ParetoState}
      → get_elem? arena id ≡ some a
      → get_elem? arena id' ≡ some b
      → compare_ids default_objective_policy input arena start id id'
        ≡ default_compare
            (metrics input.problem.start_policy start a)
            (metrics input.problem.start_policy start b)
  compare_ids_found id id' e e' = ground arith

  AtMost-le :
      (id id' : ℕ) {a : ParetoState}
      → m.start_policy ≡ input.problem.start_policy
      → get_elem? arena id ≡ some a
      → compare_ids default_objective_policy input arena start id id' ≢ Ordering.gt
      → AtMost id'
      → AtMost id
  unfolding metrics
  AtMost-le id id' {a} policy found le t =
      let of : ParetoState → MetricsOf input.problem.start_policy =
        λ s. (metrics input.problem.start_policy start s, refl) in
      let found' = t.found in
      let le' : default_compare (of a).0 (of t.state).0 ≢ Ordering.gt =
        λ g. le (compare_ids_found id id' found found' ∙ g) in
      record {
        state = a;
        found = found;
        least =
            weak_le_trans (default_compare-IsWeakOrder input.problem.start_policy) (of a)
              (of t.state) (m, policy) le' t.least;
      }

  compare_ids_swap :
      (id id' : ℕ)
      → IsFound id
      → IsFound id'
      → compare_ids default_objective_policy input arena start id id' ≡ Ordering.gt
      → compare_ids default_objective_policy input arena start id' id ≢ Ordering.gt
  unfolding metrics
  compare_ids_swap id id' f f' e =
      let of : ParetoState → MetricsOf input.problem.start_policy =
        λ s. (metrics input.problem.start_policy start s, refl) in
      let w = default_compare-IsWeakOrder input.problem.start_policy in
      let swapped = w.swap (of f.state) (of f'.state) in
      let found = f.found in let found' = f'.found in ground arith

  pick-IsFound :
      (best x : ℕ)
      → IsFound best
      → IsFound x
      → IsFound (elim (compare_ids default_objective_policy input arena start best x) [
        | Ordering.gt ↦ x
        | _ ↦ best
      ])
  pick-IsFound best x fb fx =
      elim (Ordering-cases (compare_ids default_objective_policy input arena start best x)) [
        | inl e ↦ rw e fb
        | inr (inl e) ↦ rw e fb
        | inr (inr e) ↦ rw e fx
      ]

  -- One step of `min_by`.
  pick-AtMost :
      (best x : ℕ)
      → m.start_policy ≡ input.problem.start_policy
      → IsFound best
      → IsFound x
      → AtMost best ⊎ AtMost x
      → AtMost (elim (compare_ids default_objective_policy input arena start best x) [
        | Ordering.gt ↦ x
        | _ ↦ best
      ])
  pick-AtMost best x policy fb fx t =
      elim (Ordering-cases (compare_ids default_objective_policy input arena start best x)) [
        | inl e ↦ rw e (keep_best (λ g. cc))
        | inr (inl e) ↦ rw e (keep_best (λ g. cc))
        | inr (inr e) ↦ rw e (elim t [
          | inr tx ↦ tx
          | inl tb ↦ AtMost-le x best policy fx.found (compare_ids_swap best x fb fx e) tb
        ])
      ]
    where
      keep_best :
          compare_ids default_objective_policy input arena start best x ≢ Ordering.gt → AtMost best
      keep_best le = elim t [ inl tb ↦ tb | inr tx ↦ AtMost-le best x policy fb.found le tx ]

  pub min_from-AtMost :
      (best : ℕ) (xs : List ℕ)
      → m.start_policy ≡ input.problem.start_policy
      → IsFound best
      → All IsFound xs
      → AtMost best ⊎ Any AtMost xs
      → AtMost (min_from (compare_ids default_objective_policy input arena start) best xs)
  min_from-AtMost best [] policy fb fs (inl t) = t
  min_from-AtMost best [] policy fb fs (inr t) = elim t [ ]
  min_from-AtMost best (x ∷ xs) policy fb fs t =
      min_from-AtMost
        (elim (compare_ids default_objective_policy input arena start best x) [
          | Ordering.gt ↦ x
          | _ ↦ best
        ])
        xs policy (pick-IsFound best x fb fs.0) fs.1 (after_pick t)
    where
      after_pick :
          AtMost best ⊎ (AtMost x ⊎ Any AtMost xs)
          → AtMost (elim (compare_ids default_objective_policy input arena start best x) [
            | Ordering.gt ↦ x
            | _ ↦ best
          ])
            ⊎ Any AtMost xs
      after_pick (inl tb) = inl (pick-AtMost best x policy fb fs.0 (inl tb))
      after_pick (inr (inl tx)) = inl (pick-AtMost best x policy fb fs.0 (inr tx))
      after_pick (inr (inr ts)) = inr ts

  -- Where some id is at least as good as `m`, there is a first least one, and it is.
  pub min_by-AtMost :
      (xs : List ℕ)
      → m.start_policy ≡ input.problem.start_policy
      → All IsFound xs
      → Any AtMost xs
      → (id : ℕ) × (min_by (compare_ids default_objective_policy input arena start) xs ≡ some id)
        × AtMost id
  min_by-AtMost [] policy fs t = elim t [ ]
  min_by-AtMost (x ∷ xs) policy fs t = (
    min_from (compare_ids default_objective_policy input arena start) x xs,
    refl,
    min_from-AtMost x xs policy fs.0 fs.1 t,
  )

module _ (input : SolverInput) (start : ℕ) where
  pub select_best-some :
      (s : Search) (id : ℕ) (a : ParetoState)
      → min_by
          (compare_ids default_objective_policy input s.arena start)
          (terminal_ids default_objective_policy input s)
        ≡ some id
      → get_elem? s.arena id ≡ some a
      → (result : ExactSolveResult) × (select_best default_objective_policy input start s
          ≡ some result)
        × (result.metrics ≡ metrics input.problem.start_policy start a)
  unfolding select_best
  select_best-some s id a chosen found =
      let result : ExactSolveResult = record {
        solution = record { visit_order = reverse (trace (length s.arena) s.arena (some id)) };
        metrics = metrics input.problem.start_policy start a;
        stats = record {
          generated_states = length s.arena;
          frontier_states = total_length s.frontiers;
          frontier_cells = count_nonempty s.frontiers;
        };
      } in
      (result, ground arith, refl)

  -- The ids of a cell with which a route may end are among those of the complete routes.
  pub terminal_ids-Any :
      (P : ℕ → Type 0) (s : Search) (mask : ℕ)
      → 1 ≤ mask
      → mask < 2 ^ cell_count input
      → test_bit mask (end_location default_objective_policy input) ≡ true
      → MayEnd input mask
      → Any P (
          get_or s.frontiers
            (index mask (end_location default_objective_policy input) (cell_count input))
            [])
      → Any P (terminal_ids default_objective_policy input s)
  unfolding terminal_ids
  terminal_ids-Any P s mask lo small ended may h =
      elim (Bool-cases (is_partial default_objective_policy input)) [
        | inr all ↦
            let full = may.1 all in
            rw all (
              subst
                (λ k. Any P (
                  get_or s.frontiers
                    (index k (end_location default_objective_policy input) (cell_count input)) []))
                full h)
        | inl part ↦ rw part (
            for_range_reach (λ (ids : List ℕ). Unit {0}) (λ (ids : List ℕ). Any P ids) _ 1
              (full_mask default_objective_policy input) mask [] (λ i ids a b g. tt)
              (λ ids g. rw (ended, may.0) (Any-right P ids _ h))
              (λ i ids a b g p.
                elim (Bool-cases (
                  test_bit i (end_location default_objective_policy input)
                  && covers (cell_count input) i (required_mask default_objective_policy input))) [
                    | inl taken ↦ rw taken (Any-left P ids _ p)
                    | inr skipped ↦ rw skipped p
                  ])
              lo (omega arith) tt)
      ]
