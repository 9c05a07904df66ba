-- ===== src/Exact/Search/Chain.antt =====
-- src/solver.rs and src/solver/exact/bit_dp.rs: a valid visit order as a drive that the search
-- allows.
use troute.Prelude.{
  ℕ, ◌+◌, ◌^◌, ◌<◌, ◌≡◌, ◌≢◌, refl, ◌∙◌, subst, inl, inr, Bool-cases, Option-cases, Bool, true,
  false, ◌==◌, none, some, List, [], ◌∷◌, length, get_or, set, last, length-set, get_or-set_self,
  get_or-set_ne, arith,
}
use troute.Solver.Types.{SolverInput}
use troute.Solver.Objective.{default_objective_policy}
use troute.Solver.Evaluate.{
  Progress, mark_all, simulate_edge, simulate_edges, count_optional, sum_priority,
}
use troute.Exact.Masks.{test_bit, set_bit, covers, test_bit-set_bit}
use troute.Exact.Sums.{mask_sum, mask_sum-set_bit_lt, set_bit-lt-power}
use troute.Exact.Search.{end_location, full_mask, required_mask, is_partial, is_early_end}
use troute.Exact.Search.Route.{optional_one, optional_priority}
use troute.Exact.Search.Offers.{cell_count}
use troute.Exact.Search.Prefixes.{Edge}
use troute.Exact.Search.Reached.{Drive, onward, Drive-inside}

-- A location that is marked already cannot come last.
seen_last :
    (n : ℕ) (seen : List Bool) (xs : List ℕ) (e : ℕ)
    → get_or seen e false ≡ true
    → last xs ≡ some e
    → mark_all n seen xs ≡ none
unfolding mark_all
seen_last n seen [] e h l = cc
seen_last n seen (x ∷ []) e h l = let eq : x ≡ e = cc in ground arith
seen_last n seen (x ∷ (y ∷ ys)) e h l = elim (Bool-cases (x == e)) [
  | inl same ↦ let eq : x ≡ e = ground arith in ground arith
  | inr other ↦
      let kept : get_or (set seen x true) e false ≡ true =
        get_or-set_ne seen x e true false (ground arith) ∙ h in
      ground (arith, seen_last n (set seen x true) (y ∷ ys) e kept l)
]

some_injective {ℓ} : {A : Type ℓ} {a b : A} → some a ≡ some b → a ≡ b
some_injective e = cc

module _ (input : SolverInput) where
  -- The marks are the bits of the mask.
  pub record Marks (seen : List Bool) (mask : ℕ) : Type 0 where
    pub size : length seen ≡ cell_count input
    pub small : mask < 2 ^ cell_count input
    pub bits : (j : ℕ) → j < cell_count input → get_or seen j false ≡ test_bit mask j

  Marks-set :
      (seen : List Bool) (mask x : ℕ)
      → x < cell_count input
      → Marks seen mask
      → Marks (set seen x true) (set_bit mask x)
  Marks-set seen mask x lt m = record {
    size = length-set seen x true ∙ m.size;
    small = set_bit-lt-power (cell_count input) mask x lt m.small;
    bits = λ j j_lt. elim (Bool-cases (x == j)) [
      | inl same ↦
          let eq : x ≡ j = ground arith in
          ground (arith, m.size, test_bit-set_bit mask x j, get_or-set_self seen j true false)
      | inr other ↦
          ground (arith, test_bit-set_bit mask x j, m.bits j, get_or-set_ne seen x j true false)
    ];
  }

  -- With these marks the destination may be visited.
  abbrev pub MayEnd : ℕ → Type 0
  MayEnd mask =
      (covers (cell_count input) mask (required_mask default_objective_policy input) ≡ true)
      × (is_partial default_objective_policy input ≡ false
          → mask ≡ full_mask default_objective_policy input)

  -- A drive that ends at the destination with these marks and running values.
  pub record Ending (begin : Progress) (marked : List Bool) (p : Progress) (count priority : ℕ)
      : Type 0 where
    pub mask : ℕ
    pub before : ℕ
    pub drive : Drive input begin mask (end_location default_objective_policy input) before p
    pub marks : Marks marked mask
    pub counted : count ≡ mask_sum (optional_one input.problem) (cell_count input) mask
    pub valued : priority ≡ mask_sum (optional_priority input.problem) (cell_count input) mask

  module _ (begin : Progress) (marked : List Bool) (end_p : Progress) (pos : 0 < cell_count input)
      (may_end : (mask : ℕ) → Marks marked mask → MayEnd mask) where
    -- The next location of the order and those after it.
    mark_all_step :
        (rest : List ℕ) (mask x : ℕ) (seen : List Bool)
        → Marks seen mask
        → mark_all (cell_count input) seen (x ∷ rest) ≡ some marked
        → (x < cell_count input)
          × (test_bit mask x ≡ false)
          × (mark_all (cell_count input) (set seen x true) rest ≡ some marked)
    unfolding mark_all
    mark_all_step rest mask x seen m marks =
        let inside : x < cell_count input = ground arith in
        (inside, ground (arith, m.bits x), ground arith)

    order_allowed :
        (rest : List ℕ) (mask x : ℕ) (seen : List Bool)
        → x < cell_count input
        → Marks seen mask
        → mark_all (cell_count input) (set seen x true) rest ≡ some marked
        → last (x ∷ rest) ≡ some (end_location default_objective_policy input)
        → is_early_end default_objective_policy input mask x ≡ false
    unfolding mark_all
    order_allowed [] mask x seen inside m marks ends =
        let same : set seen x true ≡ marked = cc in
        let m' : Marks marked (set_bit mask x) =
          subst (λ s. Marks s (set_bit mask x)) same (Marks-set seen mask x inside m) in
        let (covered, whole) = may_end (set_bit mask x) m' in
        elim (Bool-cases (is_partial default_objective_policy input)) [
          | inl part ↦ ground arith
          | inr all ↦ let full = whole all in ground arith
        ]
    order_allowed (y ∷ ys) mask x seen inside m marks ends =
        elim (Bool-cases (x == end_location default_objective_policy input)) [
          | inr other ↦ rw other refl
          | inl same ↦
              let eq : x ≡ end_location default_objective_policy input = ground arith in
              let size = m.size in
              let hit : get_or (set seen x true) (end_location default_objective_policy input) false
                  ≡ true =
                subst (λ e. get_or (set seen x true) e false ≡ true) eq
                  (get_or-set_self seen x true false (omega arith)) in
              let gone = seen_last (cell_count input) (set seen x true) (y ∷ ys) _ hit ends in cc
        ]

    -- A location that is visited, with others to come, is not the destination.
    order_away :
        (rest : List ℕ) (mask l x : ℕ) (seen : List Bool)
        → l < cell_count input
        → test_bit mask l ≡ true
        → Marks seen mask
        → mark_all (cell_count input) seen (x ∷ rest) ≡ some marked
        → last (x ∷ rest) ≡ some (end_location default_objective_policy input)
        → l ≢ end_location default_objective_policy input
    order_away rest mask l x seen inside visited m marks ends eq =
        let hit : get_or seen (end_location default_objective_policy input) false ≡ true =
          subst (λ e. get_or seen e false ≡ true) eq (m.bits l inside ∙ visited) in
        let gone = seen_last (cell_count input) seen (x ∷ rest) _ hit ends in cc

    pub order-Ending :
        (rest : List ℕ) (mask l before : ℕ) (p : Progress) (seen : List Bool)
        → Drive input begin mask l before p
        → Marks seen mask
        → mark_all (cell_count input) seen rest ≡ some marked
        → simulate_edges input l rest p ≡ some end_p
        → last (l ∷ rest) ≡ some (end_location default_objective_policy input)
        → Ending begin marked end_p
            (count_optional input.problem rest
              + mask_sum (optional_one input.problem) (cell_count input) mask)
            (sum_priority input.problem rest
              + mask_sum (optional_priority input.problem) (cell_count input) mask)
    unfolding mark_all simulate_edges count_optional sum_priority
    order-Ending [] mask l before p seen d m marks driven ends = record {
      mask = mask;
      before = before;
      drive =
          subst (λ e. Drive input begin mask e before end_p) (some_injective ends)
            (subst (λ q. Drive input begin mask l before q) (some_injective driven) d);
      marks = subst (λ s. Marks s mask) (cc) m;
      counted = omega arith;
      valued = omega arith;
    }
    order-Ending (x ∷ rest) mask l before p seen d m marks driven ends =
        let (l_inside, _, visited, home) = Drive-inside input pos d in
        let (inside, fresh, more) = mark_all_step rest mask x seen m marks in
        elim (Option-cases (simulate_edge input l x p)) [
          | inl cut ↦ absurd (ground arith)
          | inr (p', edge) ↦
              let g : Edge input mask l x p p' = record {
                inside = inside;
                small = m.small;
                fresh = fresh;
                allowed = order_allowed rest mask x seen inside m more ends;
                driven = edge;
              } in
              let not_start : x ≢ 0 =
                λ e. let clear = subst (λ k. test_bit mask k ≡ false) e fresh in cc in
              let away = order_away rest mask l x seen l_inside visited m marks ends in
              let counts =
                mask_sum-set_bit_lt (optional_one input.problem) (cell_count input) mask x inside
                  fresh in
              let values =
                mask_sum-set_bit_lt (optional_priority input.problem) (cell_count input) mask x
                  inside fresh in
              let e =
                order-Ending rest (set_bit mask x) x mask p' (set seen x true)
                  (onward mask l before x p p' d g (omega arith) away)
                  (Marks-set seen mask x inside m) more (ground arith) ends in
              record {
                mask = e.mask;
                before = e.before;
                drive = e.drive;
                marks = e.marks;
                counted = omega (arith, counts, e.counted);
                valued = omega (arith, values, e.valued);
              }
        ]
