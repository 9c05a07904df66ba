-- ===== src/Initial/Tours/Shortcut.antt =====
-- src/solver/initial/mst: the route that a tour is shortened to.
use troute.Prelude.{
  ℕ, zero, suc, ◌+◌, ◌≤◌, ◌<◌, ◌≡◌, refl, ap, ◌∙◌, subst, inl, inr, Bool-cases, ltb, ◌==◌,
  if◌then◌else◌, Bool, true, false, some, ok, List, [], ◌∷◌, ◌++◌, length, get_or, set, replicate,
  first, last, length-set, length-replicate, get_or-replicate, get_or-set_self, get_or-set_ne,
  length-append, arith,
}
use troute.Domain.{OptimizationProblem, end_location_index}
use troute.Solver.Types.{SolverSolution}
use troute.Solver.Evaluate.{validate_visit_order}
use troute.Schedule.Marks.{count_unseen, count_unseen-set, count_unseen-replicate}
use troute.Exact.Search.Complete.{count_unseen-all}
use troute.Exact.Search.Route.{last-snoc}
use troute.Moves.{remove_at}
use troute.Moves.Counts.{count-remove_at, first-remove_at}
use troute.Initial.Counts.{count, count-append, complete-valid}
use troute.Initial.Tours.{
  shortcut_walk, shortcut_euler_tour, position, end_at_last, route_of_tour, HoldsEach,
}

-- What the walk has marked is what it has collected.
record Marked (n : ℕ) (seen : List Bool) (route : List ℕ) : Type 0 where
  pub size : length seen ≡ n
  pub unseen : length route + count_unseen seen ≡ n
  pub marks : (x : ℕ) → count x route ≡ (if get_or seen x false then 1 else 0)
  pub inside : (x : ℕ) → n ≤ x → get_or seen x false ≡ false

Marked-set :
    (n : ℕ) (seen : List Bool) (route : List ℕ) (node : ℕ)
    → node < n
    → get_or seen node false ≡ false
    → Marked n seen route
    → Marked n (set seen node true) (route ++ (node ∷ []))
Marked-set n seen route node lt fresh m = record {
  size = length-set seen node true ∙ m.size;
  unseen =
      let less = count_unseen-set seen node (omega (arith, m.size)) fresh in
      omega (arith, m.unseen, length-append route (node ∷ []));
  marks = λ x.
      let own = m.marks x in
      let joined = count-append x route (node ∷ []) in
      elim (Bool-cases (node == x)) [
        | inl same ↦
            let eq : node ≡ x = ground arith in
            let marked : get_or (set seen x true) x false ≡ true =
              get_or-set_self seen x true false
                (subst (λ k. k < length seen) eq (omega (arith, m.size))) in
            ground arith
        | inr other ↦ ground (arith, get_or-set_ne seen node x true false)
      ];
  inside = λ x le. ground (arith, get_or-set_ne seen node x true false, m.inside x le);
}

module _ (n : ℕ) where
  -- A walk over locations marks them all, and those marked before.
  shortcut_walk-some :
      (seen : List Bool) (route tour : List ℕ)
      → Marked n seen route
      → ((x : ℕ) → 1 ≤ count x tour → x < n)
      → (out : List ℕ) × (marked : List Bool) × (shortcut_walk n seen route tour ≡ ok out)
        × Marked n marked out
        × ((x : ℕ) → 1 ≤ count x out + count x route → get_or marked x false ≡ true)
        × ((x : ℕ) → 1 ≤ count x tour → get_or marked x false ≡ true)
  unfolding shortcut_walk
  shortcut_walk-some seen route [] m inside = (
    route,
    seen,
    refl,
    m,
    λ x some_out. let own = m.marks x in ground arith,
    λ x some_left. absurd (omega arith),
  )
  shortcut_walk-some seen route (node ∷ tour) m inside =
      let lt : node < n = inside node (ground arith) in
      let further : (x : ℕ) → 1 ≤ count x tour → x < n = λ x some_left. inside x (omega arith) in
      elim (Bool-cases (get_or seen node false)) [
        | inl again ↦
            let (out, marked, done, m', kept, all) = shortcut_walk-some seen route tour m further in
            (
              out,
              marked,
              ground arith,
              m',
              kept,
              λ x some_left. elim (Bool-cases (node == x)) [
                | inl same ↦
                    let eq : node ≡ x = ground arith in let own = m.marks x in kept x (ground arith)
                | inr other ↦ all x (ground arith)
              ],
            )
        | inr fresh ↦
            let (out, marked, done, m', kept, all) =
              shortcut_walk-some (set seen node true) (route ++ (node ∷ [])) tour
                (Marked-set n seen route node lt fresh m) further in
            let joined : (x : ℕ)
                → count x (route ++ (node ∷ [])) ≡ count x route + (if node == x then 1 else 0) =
              λ x. let j = count-append x route (node ∷ []) in omega arith in
            (
              out,
              marked,
              ground arith,
              m',
              λ x some_out. let j = joined x in kept x (ground arith),
              λ x some_left. elim (Bool-cases (node == x)) [
                | inl same ↦ let j = joined x in kept x (ground arith)
                | inr other ↦ all x (ground arith)
              ],
            )
      ]

  -- What is collected first stays first.
  shortcut_walk-first :
      (seen : List Bool) (y : ℕ) (route tour : List ℕ) {out : List ℕ}
      → shortcut_walk n seen (y ∷ route) tour ≡ ok out
      → first out ≡ some y
  unfolding shortcut_walk
  shortcut_walk-first seen y route [] e = ground arith
  shortcut_walk-first seen y route (node ∷ tour) {out} e =
      elim (Bool-cases (get_or seen node false)) [
        | inl again ↦ shortcut_walk-first seen y route tour {out = out} (ground arith)
        | inr fresh ↦
            shortcut_walk-first (set seen node true) y (route ++ (node ∷ [])) tour {out = out}
              (ground arith)
      ]

  Marked-start : Marked n (replicate n false) []
  Marked-start = record {
    size = length-replicate n false;
    unseen = omega (arith, count_unseen-replicate n);
    marks = λ x. ground (arith, get_or-replicate n x false);
    inside = λ x le. get_or-replicate n x false;
  }

  -- A tour over the locations and nothing else, each at least once, is shortened to a route that
  -- holds each location once and begins as the tour does.
  pub shortcut_euler_tour-HoldsEach :
      (start : ℕ) (tour : List ℕ)
      → ((x : ℕ) → 1 ≤ count x (start ∷ tour) → x < n)
      → ((x : ℕ) → x < n → 1 ≤ count x (start ∷ tour))
      → (route : List ℕ) × (shortcut_euler_tour n (start ∷ tour) ≡ ok route)
        × HoldsEach n route
        × (first route ≡ some start)
  unfolding shortcut_euler_tour shortcut_walk
  shortcut_euler_tour-HoldsEach start tour inside covers =
      let (out, marked, done, m, kept, all) =
        shortcut_walk-some (replicate n false) [] (start ∷ tour) Marked-start inside in
      let none_left : count_unseen marked ≡ 0 =
        count_unseen-all marked (λ j lt. all j (covers j (subst (λ k. j < k) m.size lt))) in
      let whole : length out ≡ n = omega (arith, m.unseen) in
      let fresh : get_or (replicate n false) start false ≡ false = get_or-replicate n start false in
      (
        out,
        ground (arith, done, whole),
        λ x.
            let own = m.marks x in
            elim (Bool-cases (ltb x n)) [
              | inl lt ↦ let marks = all x (covers x (ground arith)) in ground arith
              | inr ge ↦ let free = m.inside x (ground arith) in ground arith
            ],
        shortcut_walk-first (set (replicate n false) start true) start [] tour {out = out}
            (ground (arith, done, fresh, inside start (ground arith))),
      )

position-some :
    (location : ℕ) (xs : List ℕ)
    → 1 ≤ count location xs
    → (i : ℕ) × (position location xs ≡ some i) × (i < length xs) × (get_or xs i 0 ≡ location)
position-some location [] h = absurd (omega arith)
position-some location (x ∷ xs) h = elim (Bool-cases (x == location)) [
  | inl same ↦ (0, ground arith, omega arith, ground arith)
  | inr other ↦
      let (i, found, lt, here) = position-some location xs (ground arith) in
      (suc i, ground arith, omega arith, here)
]

interior_position : (xs : List ℕ) (i e : ℕ) → first xs ≡ some 0 → 0 < e → get_or xs i 0 ≡ e → 0 < i
interior_position [] i e f pos h = cc
interior_position (x ∷ xs) zero e f pos h = absurd (ground arith)
interior_position (x ∷ xs) (suc i) e f pos h = omega arith

first-append : (xs ys : List ℕ) {x : ℕ} → first xs ≡ some x → first (xs ++ ys) ≡ some x
first-append [] ys h = cc
first-append (x ∷ xs) ys h = h

lone_last : (order : List ℕ) → first order ≡ some 0 → HoldsEach 1 order → last order ≡ some 0
lone_last [] f each = cc
lone_last (x ∷ []) f each = f
lone_last (x ∷ (y ∷ ys)) f each = let own = each y in let start = each 0 in absurd (ground arith)

-- Any order of all locations from the start becomes a valid one, with the end location last.
end_at_last-valid :
    (problem : OptimizationProblem) (order : List ℕ)
    → 0 < length problem.locations
    → first order ≡ some 0
    → HoldsEach (length problem.locations) order
    → (solution : SolverSolution) × (end_at_last problem order ≡ ok solution)
      × (validate_visit_order problem solution ≡ ok tt)
unfolding end_at_last
end_at_last-valid problem order pos begins each =
    let n : ℕ = length problem.locations in
    let e : ℕ = end_location_index problem in
    elim (Bool-cases (ltb 1 n)) [
      | inl more ↦
          let there = each e in
          let (i, found, lt, here) = position-some e order (ground arith) in
          let inner : 0 < i = interior_position order i e begins (ground arith) here in
          (
            record { visit_order = remove_at i order ++ (e ∷ []) },
            ground arith,
            complete-valid problem (remove_at i order ++ (e ∷ [])) pos
                (first-append (remove_at i order) (e ∷ []) (first-remove_at order i inner ∙ begins))
                (last-snoc (remove_at i order) e)
                (λ x.
                  let own = each x in
                  let removed : count x (remove_at i order) + (if e == x then 1 else 0)
                      ≡ count x order =
                    rw here at (count-remove_at x order i lt) in
                  let joined = count-append x (remove_at i order) (e ∷ []) in omega arith),
          )
      | inr lone ↦
          let one : n ≡ 1 = ground arith in
          let zeroth : 0 ≡ e = omega arith in
          (
            record { visit_order = order },
            ground arith,
            complete-valid problem order pos begins
                (lone_last order begins (subst (λ k. HoldsEach k order) one each) ∙ ap some zeroth)
                each,
          )
    ]

-- On a problem with a location, a tour from the start over the locations and nothing else, each at
-- least once, gives a valid visit order.
pub route_of_tour-valid :
    (problem : OptimizationProblem) (tour : List ℕ)
    → 0 < length problem.locations
    → ((x : ℕ) → 1 ≤ count x (0 ∷ tour) → x < length problem.locations)
    → ((x : ℕ) → x < length problem.locations → 1 ≤ count x (0 ∷ tour))
    → (solution : SolverSolution) × (route_of_tour problem (0 ∷ tour) ≡ ok solution)
      × (validate_visit_order problem solution ≡ ok tt)
unfolding route_of_tour
route_of_tour-valid problem tour pos inside covers =
    let (route, shortened, each, begins) =
      shortcut_euler_tour-HoldsEach (length problem.locations) 0 tour inside covers in
    let (solution, ended, valid) = end_at_last-valid problem route pos begins each in
    (solution, ground (arith, shortened), valid)
