-- ===== src/Exact/Search/Start.antt =====
-- src/solver/exact/bit_dp.rs: the state from which the search starts, and the choice of the best.
use troute.Prelude.{
  ℕ, zero, suc, ◌*◌, ◌^◌, ◌≤◌, ◌<◌, ◌≡◌, refl, sym, ◌∙◌, subst, true, false, some, Ordering, List,
  [], ◌∷◌, length, get_or, set, replicate, get_or-replicate, length-set, length-replicate, arith,
}
use troute.Prelude.Loops.{All}
use troute.Solver.Types.{SolverInput}
use troute.Solver.Objective.{ObjectivePolicy}
use troute.Solver.Transition.{InitialService, initial_service, slots_per_day}
use troute.Solver.Evaluate.{
  is_optional, mark_all, simulate_route, simulate_edges, count_optional, sum_priority,
}
use troute.Exact.{FrontierPolicy, ParetoState}
use troute.Exact.Masks.{test_bit}
use troute.Exact.Search.{index, min_by, min_from, initial_state, initial_search}
use troute.Exact.Sums.{mask_sum}
use troute.Exact.Search.Route.{Drives, optional_one, optional_priority}
use troute.Exact.Search.Cells.{root, Entry, AllEntries, index_injective, All-set}

min_from-All {ℓ κ} :
    {A : Type ℓ} (P : A → Type κ) (order : A → A → Ordering) (best : A) (xs : List A)
    → P best
    → All P xs
    → P (min_from order best xs)
min_from-All P order best [] p q = p
min_from-All P order best (x ∷ xs) p q =
    min_from-All P order (elim (order best x) [ Ordering.gt ↦ x | _ ↦ best ]) xs
      (pick (order best x)) q.1
  where
    pick : (o : Ordering) → P (elim o [ Ordering.gt ↦ x | _ ↦ best ])
    pick Ordering.gt = q.0
    pick Ordering.lt = p
    pick Ordering.eq = p

pub min_by-All {ℓ κ} :
    {A : Type ℓ} (P : A → Type κ) (order : A → A → Ordering) (xs : List A) {x : A}
    → All P xs
    → min_by order xs ≡ some x
    → P x
min_by-All P order [] q h = cc
min_by-All P order (y ∷ ys) {x} q h = subst P (some_injective h) (min_from-All P order y ys q.0 q.1)
  where
    some_injective : {A : Type ℓ} {a b : A} → some a ≡ some b → a ≡ b
    some_injective e = cc

All-replicate {κ} : (P : ℕ → Type κ) (n j : ℕ) → All P (get_or (replicate n []) j [])
All-replicate P zero j = tt
All-replicate P (suc n) zero = tt
All-replicate P (suc n) (suc j) = All-replicate P n j

pub test_bit-zero : (j : ℕ) → test_bit 0 j ≡ false
unfolding test_bit
test_bit-zero zero = refl
test_bit-zero (suc j) = test_bit-zero j

pub start_marks : (n j : ℕ) → j < n → get_or (set (replicate n false) 0 true) j false ≡ test_bit 1 j
unfolding test_bit
start_marks zero j lt = elim lt [ ]
start_marks (suc n) zero lt = refl
start_marks (suc n) (suc j) lt = get_or-replicate n j false ∙ sym (test_bit-zero j)

-- The mask of the start location alone.
pub mask_sum-one : (worth : ℕ → ℕ) (n : ℕ) → worth 0 ≡ 0 → mask_sum worth n 1 ≡ 0
unfolding mask_sum test_bit
mask_sum-one worth zero e = refl
mask_sum-one worth (suc zero) e = omega (arith, e)
mask_sum-one worth (suc (suc n)) e =
    let rest = mask_sum-one worth (suc n) e in let clear = test_bit-zero n in ground arith

initial_service-in_day :
    (input : SolverInput) (start : ℕ) {i : InitialService}
    → initial_service input start ≡ some i
    → (i.departure_slot < slots_per_day) × (i.wait_minutes ≤ i.departure_slot)
unfolding initial_service
initial_service-in_day input start h = ground arith

module _ (objective : ObjectivePolicy) (input : SolverInput) (start : ℕ) where
  -- A problem with a location, the first of them required.
  pub record IsRooted : Type 0 where
    pub nonempty : 0 < length input.problem.locations
    pub required : is_optional input.problem 0 ≡ false

  initial_Drives :
      (i : InitialService)
      → IsRooted
      → initial_service input start ≡ some i
      → Drives objective input start 1
          (0 ∷ [])
          (initial_state objective input i.departure_slot i.wait_minutes)
  unfolding mark_all simulate_route simulate_edges count_optional sum_priority
  initial_Drives i r h =
      let n : ℕ = length input.problem.locations in
      record {
        begins = refl;
        ends = refl;
        driven = rw h refl;
        counted = ground arith;
        valued = ground arith;
        fits = omega arith;
        scored = refl;
        costed = refl;
        in_day = (initial_service-in_day input start h).0;
        waited = (initial_service-in_day input start h).1;
        count_of_mask =
            sym (mask_sum-one (optional_one input.problem) n (ground (arith, r.required)));
        priority_of_mask =
            sym (mask_sum-one (optional_priority input.problem) n (ground (arith, r.required)));
        marked = set (replicate n false) 0 true;
        marks = ground (arith, r.nonempty, get_or-replicate n 0 false);
        masked = λ j lt. start_marks n j lt;
      }

  pub initial_AllEntries :
      (policy : FrontierPolicy) (i : InitialService)
      → IsRooted
      → initial_service input start ≡ some i
      → AllEntries objective input start
          (initial_search objective input policy i.departure_slot i.wait_minutes)
  initial_AllEntries policy i r h =
      let n : ℕ = length input.problem.locations in
      let a : ParetoState = initial_state objective input i.departure_slot i.wait_minutes in
      record {
        entries = λ mask last lt.
            let P : ℕ → Type 0 = Entry objective input start (a ∷ []) mask last in
            All-set P (replicate (2 ^ n * n) []) (index 1 0 n) (index mask last n) (0 ∷ [])
              (All-replicate P (2 ^ n * n) (index mask last n))
              (λ same.
                let (m, l) = index_injective n 1 0 mask last r.nonempty lt same in
                let e : Entry objective input start (a ∷ []) 1 0 0 = record {
                  state = a;
                  back = 0 ∷ [];
                  found = refl;
                  located = refl;
                  traced = root 0 a refl refl;
                  drives = initial_Drives i r h;
                } in
                let e' : P 0 = rw (← m, ← l) e in (e', tt));
        sized =
            length-set (replicate (2 ^ n * n) []) (index 1 0 n) (0 ∷ [])
            ∙ length-replicate (2 ^ n * n) [];
      }
