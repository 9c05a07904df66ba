-- ===== src/Initial/Complete.antt =====
-- src/solver/initial: the generated routes against the check of a visit order.
use troute.Prelude.{
  ℕ, zero, suc, ◌+◌, ◌-◌, ◌≤◌, ◌<◌, ◌≡◌, refl, sym, ap, ◌∙◌, subst, inl, inr, Bool-cases, ltb, leb,
  ◌==◌, ◌&&◌, not, if◌then◌else◌, Bool, true, false, some, Result, ok, List, [], ◌∷◌, length, arith,
}
use native.Mathlib.Nat.{le_trans}
use troute.Prelude.Loops.{retain}
use troute.Domain.{end_location_index}
use troute.Solver.Types.{SolverInput, SolverSolution, SolverError}
use troute.Solver.Evaluate.{validate_visit_order}
use troute.Exact.Search.Route.{last-snoc}
use troute.Initial.{
  validate_generator_input, span, nearest, key_less, greedy_key, greedy_loop, greedy_route,
  random_route, between, lone_route,
}
use troute.Initial.Counts.{count, count-append, complete-valid}

count_pick :
    (r : ℕ) (closer : Bool) (x best : ℕ) (xs : List ℕ)
    → count r ((if closer then x else best) ∷ xs) ≤ count r (best ∷ (x ∷ xs))
count_pick r true x best xs = omega arith
count_pick r false x best xs = omega arith

nearest-count :
    (input : SolverInput) (current best : ℕ) (xs : List ℕ)
    → 1 ≤ count (nearest input current best xs) (best ∷ xs)
unfolding nearest
nearest-count input current best [] = ground arith
nearest-count input current best (x ∷ xs) =
    let closer = key_less (greedy_key input current x) (greedy_key input current best) in
    let rest = nearest-count input current (if closer then x else best) xs in
    let more =
      count_pick (nearest input current (if closer then x else best) xs) closer x best xs in
    le_trans rest more

count-retain :
    (x k : ℕ) (xs : List ℕ)
    → count x (retain (λ j. not (j == k)) xs) ≡ (if k == x then 0 else count x xs)
count-retain x k [] = ground arith
count-retain x k (y ∷ ys) = ground (arith, count-retain x k ys)

length-retain-le : (k : ℕ) (xs : List ℕ) → length (retain (λ j. not (j == k)) xs) ≤ length xs
length-retain-le k [] = omega arith
length-retain-le k (y ∷ ys) = ground (arith, length-retain-le k ys)

length-retain-lt :
    (k : ℕ) (xs : List ℕ) → 1 ≤ count k xs → length (retain (λ j. not (j == k)) xs) < length xs
length-retain-lt k [] h = absurd (omega arith)
length-retain-lt k (y ∷ ys) h = ground (arith, length-retain-lt k ys, length-retain-le k ys)

-- The greedy loop takes each remaining location once.
greedy_loop-count :
    (rounds : ℕ) (input : SolverInput) (remaining : List ℕ) (current : ℕ)
    → length remaining ≤ rounds
    → ((x : ℕ) → count x remaining ≤ 1)
    → (x : ℕ) → count x (greedy_loop rounds input remaining current) ≡ count x remaining
unfolding greedy_loop
greedy_loop-count zero input [] current fuel h x = refl
greedy_loop-count zero input (y ∷ ys) current fuel h x = absurd (omega arith)
greedy_loop-count (suc rounds) input [] current fuel h x = refl
greedy_loop-count (suc rounds) input (y ∷ ys) current fuel h x =
    let next : ℕ = nearest input current y ys in
    let one = nearest-count input current y ys in
    let less = length-retain-lt next (y ∷ ys) one in
    let rest =
      greedy_loop-count rounds input (retain (λ j. not (j == next)) (y ∷ ys)) next (omega arith)
        (λ z.
          let own = h z in subst (λ k. k ≤ 1) (sym (count-retain z next (y ∷ ys))) (ground arith))
        x in
    let own = h x in
    let kept = count-retain x next (y ∷ ys) in
    elim (Bool-cases (next == x)) [
      | inl same ↦
          let eq : next ≡ x = ground arith in
          let there : 1 ≤ count x (y ∷ ys) = subst (λ k. 1 ≤ count k (y ∷ ys)) eq one in
          let none_left : count x (retain (λ j. not (j == next)) (y ∷ ys)) ≡ 0 =
            kept ∙ rw same refl in
          rw same (omega arith)
      | inr other ↦
          let all_left : count x (retain (λ j. not (j == next)) (y ∷ ys)) ≡ count x (y ∷ ys) =
            kept ∙ rw other refl in
          rw other (omega arith)
    ]

count-span :
    (x start n : ℕ) → count x (span start n) ≡ (if leb start x && ltb x (start + n) then 1 else 0)
count-span x start zero = ground arith
count-span x start (suc n) = ground (arith, count-span x (suc start) n)

length-span : (start n : ℕ) → length (span start n) ≡ n
length-span start zero = refl
length-span start (suc n) = ap suc (length-span (suc start) n)

-- A route with the inner locations in any order passes the checks.
between-valid :
    (input : SolverInput) (middle : List ℕ)
    → 1 ≤ end_location_index input.problem
    → ((x : ℕ) → count x middle ≡ count x (span 1 (end_location_index input.problem - 1)))
    → validate_visit_order input.problem (between input middle) ≡ ok tt
between-valid input middle pos same =
    let e : ℕ = end_location_index input.problem in
    complete-valid input.problem (between input middle).visit_order (omega arith) refl
      (last-snoc (0 ∷ middle) e)
      (λ x.
        let here = same x in
        let inner = count-span x 1 (e - 1) in
        let joined = count-append x middle (e ∷ []) in ground arith)

lone-valid :
    (input : SolverInput)
    → 0 < length input.problem.locations
    → end_location_index input.problem ≡ 0
    → validate_visit_order input.problem lone_route ≡ ok tt
lone-valid input pos lone =
    complete-valid input.problem (0 ∷ []) pos refl (ap some (sym lone)) (λ x. ground arith)

-- The checks of a generator that pass.
abbrev pub CanGenerate : SolverInput → Type 0
CanGenerate input = validate_generator_input input ≡ ok tt

-- An answer that is a valid visit order.
abbrev pub IsValidRoute : SolverInput → Result SolverSolution SolverError → Type 0
IsValidRoute input r =
    (solution : SolverSolution) × (r ≡ ok solution)
    × (validate_visit_order input.problem solution ≡ ok tt)

-- On a problem with a location, the greedy generator returns a valid visit order wherever its
-- checks pass.
pub greedy_route-IsValidRoute :
    (input : SolverInput)
    → 0 < length input.problem.locations
    → CanGenerate input
    → IsValidRoute input (greedy_route input)
unfolding greedy_route
greedy_route-IsValidRoute input pos can =
    let e : ℕ = end_location_index input.problem in
    elim (Bool-cases (e == 0)) [
      | inl lone ↦ (lone_route, ground (arith, can), lone-valid input pos (ground arith))
      | inr more ↦
          let remaining : List ℕ = span 1 (e - 1) in
          let middle : List ℕ = greedy_loop (length remaining) input remaining 0 in
          (
            between input middle,
            ground (arith, can),
            between-valid input middle (ground arith) (
                greedy_loop-count (length remaining) input remaining 0 (omega arith)
                  (λ x. let own = count-span x 1 (e - 1) in ground arith)),
          )
    ]

-- A shuffle that keeps how often each location stands in the list makes the random generator return
-- a valid visit order wherever its checks pass, on a problem with a location.
pub random_route-IsValidRoute :
    (shuffle : List ℕ → List ℕ) (input : SolverInput)
    → ((xs : List ℕ) (x : ℕ) → count x (shuffle xs) ≡ count x xs)
    → 0 < length input.problem.locations
    → CanGenerate input
    → IsValidRoute input (random_route shuffle input)
unfolding random_route
random_route-IsValidRoute shuffle input keeps pos can =
    let e : ℕ = end_location_index input.problem in
    elim (Bool-cases (e == 0)) [
      | inl lone ↦ (lone_route, ground (arith, can), lone-valid input pos (ground arith))
      | inr more ↦ (
        between input (shuffle (span 1 (e - 1))),
        ground (arith, can),
        between-valid input (shuffle (span 1 (e - 1))) (ground arith) (keeps (span 1 (e - 1))),
      )
    ]
