-- ===== src/Initial/Counts.antt =====
-- src/solver.rs: the check of a visit order, by how often each location stands in it.
use troute.Prelude.{
  ℕ, ◌+◌, ◌≤◌, ◌<◌, ◌≡◌, refl, ◌∙◌, subst, inl, inr, Bool-cases, ltb, ◌==◌, ◌||◌, if◌then◌else◌,
  Bool, true, false, some, ok, List, [], ◌∷◌, ◌++◌, length, get_or, set, replicate, first, last,
  length-set, length-replicate, get_or-replicate, get_or-set_self, get_or-set_ne, get_elem?-lt,
  arith,
}
use troute.Domain.{OptimizationProblem, end_location_index}
use troute.Solver.Evaluate.{mark_all, any_required_unseen, validate_visit_order}
use troute.Schedule.Marks.{count_unseen, count_unseen-replicate, count_unseen-mark_all}
use troute.Exact.Search.Complete.{count_unseen-all, any_required_unseen_lem, lone_start, two_ends}

-- How often a location stands in a list.
abbrev pub count : ℕ → List ℕ → ℕ
count x [] = 0
count x (y ∷ ys) = (if y == x then 1 else 0) + count x ys

pub count-append : (x : ℕ) (xs ys : List ℕ) → count x (xs ++ ys) ≡ count x xs + count x ys
count-append x [] ys = omega arith
count-append x (y ∷ xs) ys = omega (arith, count-append x xs ys)

-- How often a location may still come: once, if it is one and not marked.
abbrev free : ℕ → List Bool → ℕ → ℕ
free n seen x = if ltb x n then (if get_or seen x false then 0 else 1) else 0

-- Where no location comes more often than it may, the order is marked through.
pub mark_all_of_counts :
    (n : ℕ) (seen : List Bool) (xs : List ℕ)
    → length seen ≡ n
    → ((x : ℕ) → count x xs ≤ free n seen x)
    → (marked : List Bool) × (mark_all n seen xs ≡ some marked)
      × (length marked ≡ n)
      × ((x : ℕ) → x < n → get_or marked x false ≡ (get_or seen x false || ltb 0 (count x xs)))
unfolding mark_all
mark_all_of_counts n seen [] size h = (seen, refl, size, λ x lt. ground arith)
mark_all_of_counts n seen (y ∷ ys) size h =
    let own = h y in
    let inside : y < n = ground arith in
    let fresh : get_or seen y false ≡ false = ground arith in
    let smaller : (x : ℕ) → count x ys ≤ free n (set seen y true) x = λ x.
      let there = h x in
      elim (Bool-cases (y == x)) [
        | inl same ↦ ground arith
        | inr other ↦ ground (arith, get_or-set_ne seen y x true false)
      ] in
    let (marked, marks, size', bits) =
      mark_all_of_counts n (set seen y true) ys (length-set seen y true ∙ size) smaller in
    (
      marked,
      ground arith,
      size',
      λ x lt.
          let there = bits x lt in
          elim (Bool-cases (y == x)) [
            | inl same ↦
                let eq : y ≡ x = ground arith in ground (arith, get_or-set_self seen x true false)
            | inr other ↦ ground (arith, get_or-set_ne seen y x true false)
          ],
    )

-- An order from the start to the end in which each location stands once passes the checks.
pub complete-valid :
    (problem : OptimizationProblem) (order : List ℕ)
    → 0 < length problem.locations
    → first order ≡ some 0
    → last order ≡ some (end_location_index problem)
    → ((x : ℕ) → count x order ≡ (if ltb x (length problem.locations) then 1 else 0))
    → validate_visit_order problem (record { visit_order = order }) ≡ ok tt
unfolding validate_visit_order
complete-valid problem order pos begins ends once =
    let n : ℕ = length problem.locations in
    let (marked, marks, size, bits) =
      mark_all_of_counts n (replicate n false) order (length-replicate n false)
        (λ x. let here = once x in ground (arith, get_or-replicate n x false)) in
    let all : (x : ℕ) → x < n → get_or marked x false ≡ true =
      λ x lt. let here = once x in ground (arith, bits x) in
    let none_left : count_unseen marked ≡ 0 =
      count_unseen-all marked (λ j lt. all j (subst (λ k. j < k) size lt)) in
    let counted : length order ≡ n =
      let c = count_unseen-mark_all n (replicate n false) order (length-replicate n false) marks in
      let r = count_unseen-replicate n in omega arith in
    let seen : any_required_unseen problem.locations marked ≡ false =
      any_required_unseen_lem problem.locations marked
        (λ j l found r. all j (get_elem?-lt problem.locations j found)) in
    elim (Bool-cases (n == 1)) [
      | inl one ↦ let lone = lone_start order begins (ground arith) in ground arith
      | inr more ↦
          let long = two_ends order (end_location_index problem) begins ends (ground arith) in
          ground (arith, begins, ends)
    ]
