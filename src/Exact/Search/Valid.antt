-- ===== src/Exact/Search/Valid.antt =====
-- src/solver.rs: what the checks of a visit order say of the locations that it visits, as the bits
-- of a mask.
use troute.Prelude.{
  ℕ, zero, suc, ◌+◌, ◌<◌, ◌≡◌, refl, sym, ◌∙◌, subst, inl, inr, Bool-cases, Option-cases, Bool,
  true, false, ◌==◌, ap, Option, none, some, ok, List, [], ◌∷◌, length, get_elem?, get_or,
  replicate, last, length-replicate, arith,
}
use troute.Domain.{Location}
use troute.Solver.Types.{SolverInput}
use troute.Solver.Objective.{default_objective_policy}
use troute.Solver.Evaluate.{
  mark_all, any_required_unseen, is_lone_start, is_at, validate_visit_order,
}
use troute.Schedule.Marks.{count_unseen, count_unseen-replicate, count_unseen-mark_all}
use troute.Exact.Masks.{test_bit, covers}
use troute.Exact.Sums.{full_mask_unique, covers_of_bits, required_bits-inv}
use troute.Exact.Search.{full_mask, required_mask, end_location}
use troute.Exact.Search.Start.{test_bit-zero}
use troute.Exact.Search.Offers.{cell_count}
use troute.Exact.Search.Chain.{Marks, MayEnd}

any_required_unseen_inv :
    (ls : List Location) (seen : List Bool) (k : ℕ) {l : Location}
    → any_required_unseen ls seen ≡ false
    → get_elem? ls k ≡ some l
    → l.required ≡ true
    → get_or seen k false ≡ true
unfolding any_required_unseen
any_required_unseen_inv [] seen k h e r = cc
any_required_unseen_inv (l ∷ ls) [] zero h e r = ground arith
any_required_unseen_inv (l ∷ ls) [] (suc k) h e r =
    any_required_unseen_inv ls [] k (ground arith) e r
any_required_unseen_inv (l ∷ ls) (s ∷ seen) zero h e r = ground arith
any_required_unseen_inv (l ∷ ls) (s ∷ seen) (suc k) h e r =
    any_required_unseen_inv ls seen k (ground arith) e r

count_unseen_zero :
    (seen : List Bool) (j : ℕ)
    → count_unseen seen ≡ 0
    → j < length seen
    → get_or seen j false ≡ true
count_unseen_zero [] j h lt = absurd (omega arith)
count_unseen_zero (true ∷ seen) zero h lt = refl
count_unseen_zero (true ∷ seen) (suc j) h lt = count_unseen_zero seen j h (omega arith)
count_unseen_zero (false ∷ seen) j h lt = absurd (omega arith)

is_lone_start_inv : (order : List ℕ) → is_lone_start order ≡ true → order ≡ 0 ∷ []
is_lone_start_inv [] h = cc
is_lone_start_inv (x ∷ []) h = let zero_first : x ≡ 0 = ground arith in rw zero_first refl
is_lone_start_inv (x ∷ (y ∷ ys)) h = cc

is_at_inv : (o : Option ℕ) (j : ℕ) → is_at o j ≡ true → o ≡ some j
is_at_inv none j h = cc
is_at_inv (some i) j h = ap some (ground arith)

module _ (input : SolverInput) where
  all_marked :
      (seen : List Bool) (mask : ℕ)
      → count_unseen seen ≡ 0
      → Marks input seen mask
      → (mask ≡ full_mask default_objective_policy input)
        × (covers (cell_count input) mask (required_mask default_objective_policy input) ≡ true)
  all_marked seen mask none_left m =
      let bits : (j : ℕ) → j < cell_count input → test_bit mask j ≡ true = λ j lt.
        sym (m.bits j lt)
        ∙ count_unseen_zero seen j none_left (subst (λ k. j < k) (sym m.size) lt) in
      (
        full_mask_unique (cell_count input) mask m.small bits,
        covers_of_bits (cell_count input) mask (required_mask default_objective_policy input)
            (λ j lt r. bits j lt),
      )

  required_marked :
      (seen : List Bool) (mask : ℕ)
      → any_required_unseen input.problem.locations seen ≡ false
      → Marks input seen mask
      → covers (cell_count input) mask (required_mask default_objective_policy input) ≡ true
  required_marked seen mask h m =
      covers_of_bits (cell_count input) mask (required_mask default_objective_policy input)
        (λ j lt r. elim (required_bits-inv input.problem.locations 0 0 j r) [
          | inl z ↦ let clear = test_bit-zero j in cc
          | inr (k, l, e, found, required) ↦
              let same : k ≡ j = omega arith in
              let seen_k =
                any_required_unseen_inv input.problem.locations seen k h found required in
              sym (m.bits j lt) ∙ subst (λ i. get_or seen i false ≡ true) same seen_k
        ])

  -- A valid visit order: it runs from the start to the destination, its locations are marked
  -- once each, and with those marks a route may end.
  pub record IsValidOrder (order : List ℕ) : Type 0 where
    pub rest : List ℕ
    pub shape : order ≡ 0 ∷ rest
    pub ends : last order ≡ some (end_location default_objective_policy input)
    pub marked : List Bool
    pub marks : mark_all (cell_count input) (replicate (cell_count input) false) order ≡ some marked
    pub may_end : (mask : ℕ) → Marks input marked mask → MayEnd input mask

  order_count :
      (order : List ℕ) {marked : List Bool}
      → mark_all (cell_count input) (replicate (cell_count input) false) order ≡ some marked
      → count_unseen marked + length order ≡ cell_count input
  order_count order marks =
      count_unseen-mark_all (cell_count input) (replicate (cell_count input) false) order
        (length-replicate (cell_count input) false) marks
      ∙ count_unseen-replicate (cell_count input)

  lone_IsValidOrder : cell_count input ≡ 1 → IsValidOrder (0 ∷ [])
  unfolding mark_all
  lone_IsValidOrder one = record {
    rest = [];
    shape = refl;
    ends = ap some (omega arith);
    marked = true ∷ [];
    marks = subst (λ k. mark_all k (replicate k false) (0 ∷ []) ≡ some (true ∷ [])) (sym one) refl;
    may_end = λ mask m.
        let (full, covered) = all_marked (true ∷ []) mask refl m in (covered, λ all. full);
  }

  pub validate_visit_order_inv :
      (order : List ℕ)
      → validate_visit_order input.problem (record { visit_order = order }) ≡ ok tt
      → IsValidOrder order
  unfolding validate_visit_order
  validate_visit_order_inv [] h = absurd (ground arith)
  validate_visit_order_inv (x ∷ rest) h = elim (Bool-cases (cell_count input == 1)) [
    | inl one ↦
        let lone : is_lone_start (x ∷ rest) ≡ true = ground arith in
        subst IsValidOrder (sym (is_lone_start_inv (x ∷ rest) lone))
          (lone_IsValidOrder (ground arith))
    | inr more ↦
        elim (Option-cases
          (mark_all (cell_count input) (replicate (cell_count input) false) (x ∷ rest))) [
            | inl cut ↦ absurd (ground arith)
            | inr (marked, marks) ↦
                let zero_first : x ≡ 0 = ground arith in
                let counted = order_count (x ∷ rest) marks in
                record {
                  rest = rest;
                  shape = rw zero_first refl;
                  ends =
                      is_at_inv (last (x ∷ rest)) (end_location default_objective_policy input)
                        (ground arith);
                  marked = marked;
                  marks = marks;
                  may_end = λ mask m. (
                    required_marked marked mask (ground arith) m,
                    λ all. (all_marked marked mask (ground arith) m).0,
                  );
                }
          ]
  ]
