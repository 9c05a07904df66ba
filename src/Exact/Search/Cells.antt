-- ===== src/Exact/Search/Cells.antt =====
-- src/solver/exact/bit_dp.rs: what the ids of the cells stand for while the search runs.
use troute.Prelude.{
  ℕ, zero, suc, ◌*◌, ◌^◌, ◌<◌, ◌≡◌, refl, sym, ap, subst, ◌∙◌, inl, inr, Bool-cases, Option-cases,
  Bool, false, ◌||◌, not, none, some, List, [], ◌∷◌, ◌++◌, length, get_elem?, get_or, set,
  length-set, get_elem?-append_lt, get_elem?-append_length, get_elem?-lt, arith,
}
use mathlib.Core.List.{reverse, reverse-cons}
use troute.Prelude.Options.{◌>>=◌}
use troute.Prelude.Loops.{any, retain, All, All-append, All-map, All-retain}
use troute.Solver.Types.{SolverInput}
use troute.Solver.Objective.{ObjectivePolicy}
use troute.Exact.{FrontierPolicy, ParetoState, frontier_point}
use troute.Exact.Masks.{test_bit, set_bit}
use troute.Exact.Search.{
  Search, index, point_test, offer, trace, transition, location_count, is_early_end, try_next,
}
use troute.Exact.Search.Route.{Drives, transition-simulate_edge, transition-Drives}

-- The locations from a state back to the start, along predecessors that stand before it.
pub data Traced (arena : List ParetoState) : ℕ → List ℕ → Type 0 where
  root :
      (id : ℕ) (a : ParetoState)
      → get_elem? arena id ≡ some a
      → a.predecessor ≡ none
      → Traced arena id (a.location ∷ [])
  step :
      (id p : ℕ) (a : ParetoState) (back : List ℕ)
      → get_elem? arena id ≡ some a
      → a.predecessor ≡ some p
      → p < id
      → Traced arena p back
      → Traced arena id (a.location ∷ back)

pub Traced-append :
    (arena more : List ParetoState) {id : ℕ} {back : List ℕ}
    → Traced arena id back
    → Traced (arena ++ more) id back
Traced-append arena more (root id a e r) =
    root id a (get_elem?-append_lt arena more id (get_elem?-lt arena id e) ∙ e) r
Traced-append arena more (step id p a back e r lt t) =
    step id p a back (get_elem?-append_lt arena more id (get_elem?-lt arena id e) ∙ e) r lt
      (Traced-append arena more t)

trace_found :
    (rounds : ℕ) (arena : List ParetoState) (id : ℕ) {a : ParetoState}
    → get_elem? arena id ≡ some a
    → trace (suc rounds) arena (some id) ≡ a.location ∷ trace rounds arena a.predecessor
unfolding trace
trace_found rounds arena id e = ground arith

trace_start : (rounds : ℕ) (arena : List ParetoState) → trace rounds arena none ≡ []
unfolding trace
trace_start zero arena = refl
trace_start (suc rounds) arena = refl

-- The loop over the predecessors collects those locations, in more rounds than the id.
pub trace_lem :
    (rounds : ℕ) (arena : List ParetoState) {id : ℕ} {back : List ℕ}
    → id < rounds
    → Traced arena id back
    → trace rounds arena (some id) ≡ back
trace_lem zero arena lt t = absurd (omega arith)
trace_lem (suc rounds) arena lt (root id a e r) =
    let start = trace_start rounds arena in trace_found rounds arena id e ∙ rw (r, start) refl
trace_lem (suc rounds) arena lt (step id p a back e r before t) =
    let rest = trace_lem rounds arena (omega arith) t in
    trace_found rounds arena id e ∙ rw (r, rest) refl

pub index_injective :
    (n m l m' l' : ℕ) → l < n → l' < n → index m l n ≡ index m' l' n → (m ≡ m') × (l ≡ l')
index_injective n zero l zero l' h h' e = omega arith
index_injective n zero l (suc m') l' h h' e = absurd (omega arith)
index_injective n (suc m) l zero l' h h' e = absurd (omega arith)
index_injective n (suc m) l (suc m') l' h h' e =
    let (a, b) = index_injective n m l m' l' h h' (omega arith) in omega arith

pub All-set {κ} :
    (P : ℕ → Type κ) (cells : List (List ℕ)) (i j : ℕ) (v : List ℕ)
    → All P (get_or cells j [])
    → (i ≡ j → All P v)
    → All P (get_or (set cells i v) j [])
All-set P [] i j v old new = old
All-set P (c ∷ cs) zero zero v old new = new refl
All-set P (c ∷ cs) zero (suc j) v old new = old
All-set P (c ∷ cs) (suc i) zero v old new = old
All-set P (c ∷ cs) (suc i) (suc j) v old new = All-set P cs i j v old (λ e. new (ap suc e))

module _ (objective : ObjectivePolicy) (input : SolverInput) (start : ℕ) where
  -- An id of the cell of `mask` and `last`.
  pub record Entry (arena : List ParetoState) (mask last id : ℕ) : Type 0 where
    pub state : ParetoState
    pub back : List ℕ
    pub found : get_elem? arena id ≡ some state
    pub located : state.location ≡ last
    pub traced : Traced arena id back
    pub drives : Drives objective input start mask (reverse back) state

  pub record AllEntries (s : Search) : Type 0 where
    pub entries :
        (mask last : ℕ)
        → last < location_count objective input
        → All
            (Entry s.arena mask last)
            (get_or s.frontiers (index mask last (location_count objective input)) [])
    pub sized :
        length s.frontiers ≡ 2 ^ location_count objective input * location_count objective input

  pub Entry-append :
      (arena more : List ParetoState) (mask last id : ℕ)
      → Entry arena mask last id
      → Entry (arena ++ more) mask last id
  Entry-append arena more mask last id e = record {
    state = e.state;
    back = e.back;
    found = get_elem?-append_lt arena more id (get_elem?-lt arena id e.found) ∙ e.found;
    located = e.located;
    traced = Traced-append arena more e.traced;
    drives = e.drives;
  }

  -- The entry that a transition makes, at the end of the arena.
  pub transition-Entry :
      (arena : List ParetoState) (mask last id next : ℕ) {a b : ParetoState}
      → next < location_count objective input
      → test_bit mask next ≡ false
      → Entry arena mask last id
      → get_elem? arena id ≡ some a
      → transition objective input a id next ≡ some b
      → Entry (arena ++ (b ∷ [])) (set_bit mask next) next (length arena)
  transition-Entry arena mask last id next {a} {b} lt fresh e found h =
      let same : e.state ≡ a = cc (e.found) in
      let (_, here, from, _, _, _, _, _, _) =
        transition-simulate_edge objective input a id next h in
      let moved = Traced-append arena (b ∷ []) e.traced in
      let h' : transition objective input e.state id next ≡ some b = rw same h in
      record {
        state = b;
        back = next ∷ e.back;
        found = get_elem?-append_length arena b;
        located = here;
        traced =
            subst (λ l. Traced (arena ++ (b ∷ [])) (length arena) (l ∷ e.back)) here
              (step (length arena) id b e.back (get_elem?-append_length arena b) from
                (get_elem?-lt arena id found) moved);
        drives =
            subst (λ o. Drives objective input start (set_bit mask next) o b)
              (sym (reverse-cons next e.back))
              (transition-Drives objective input start mask id next (reverse e.back) e.state lt
                fresh e.drives h');
      }

  module _ (policy : FrontierPolicy) where
    offer-entries :
        (mask last : ℕ) (candidate : ParetoState) (s : Search)
        → last < location_count objective input
        → Entry (s.arena ++ (candidate ∷ [])) mask last (length s.arena)
        → AllEntries s
        → (mask' last' : ℕ) → last' < location_count objective input
        → All
            (Entry
              (offer policy (index mask last (location_count objective input)) candidate s).arena
              mask'
              last')
            (get_or
              (offer policy
                (index mask last (location_count objective input))
                candidate
                s).frontiers
              (index mask' last' (location_count objective input))
              [])
    unfolding offer
    offer-entries mask last candidate s lt e inv mask' last' lt' =
        let n : ℕ = location_count objective input in
        let point = frontier_point candidate in
        let frontier : List ℕ = get_or s.frontiers (index mask last n) [] in
        let arena : List ParetoState = s.arena ++ (candidate ∷ []) in
        let test : ℕ → Bool =
          λ id. not (point_test s.arena (λ existing. policy.dominates point existing) id) in
        let old : All (Entry arena mask' last') (get_or s.frontiers (index mask' last' n) []) =
          All-map (Entry s.arena mask' last') (Entry arena mask' last') _
            (Entry-append s.arena (candidate ∷ []) mask' last') (inv.entries mask' last' lt') in
        elim (Bool-cases
          (any (point_test s.arena (λ existing. policy.dominates existing point)) frontier)) [
            | inl dropped ↦ rw dropped (inv.entries mask' last' lt')
            | inr kept ↦ rw kept (
                All-set (Entry arena mask' last') s.frontiers (index mask last n)
                  (index mask' last' n) _ old
                  (λ same.
                    let (m, l) = index_injective n mask last mask' last' lt lt' same in
                    let e' : Entry arena mask' last' (length s.arena) = rw (← m, ← l) e in
                    All-append (Entry arena mask' last') (retain test frontier)
                      (length s.arena ∷ [])
                      (All-retain (Entry arena mask' last') test frontier (rw same old)) (e', tt)))
          ]

    length-offer :
        (cell : ℕ) (candidate : ParetoState) (s : Search)
        → length (offer policy cell candidate s).frontiers ≡ length s.frontiers
    unfolding offer
    length-offer cell candidate s =
        let frontier : List ℕ = get_or s.frontiers cell [] in
        elim (Bool-cases (
          any
            (point_test s.arena (λ existing. policy.dominates existing (frontier_point candidate)))
            frontier)) [
              | inl dropped ↦ rw dropped refl
              | inr kept ↦ rw kept (length-set s.frontiers cell _)
            ]

    pub offer-AllEntries :
        (mask last : ℕ) (candidate : ParetoState) (s : Search)
        → last < location_count objective input
        → Entry (s.arena ++ (candidate ∷ [])) mask last (length s.arena)
        → AllEntries s
        → AllEntries (offer policy (index mask last (location_count objective input)) candidate s)
    offer-AllEntries mask last candidate s lt e inv = record {
      entries = offer-entries mask last candidate s lt e inv;
      sized =
          length-offer (index mask last (location_count objective input)) candidate s ∙ inv.sized;
    }

    -- One round of the innermost loop keeps every entry and leaves only entries in the cells.
    pub try_next-Entry :
        (mask id next m l i : ℕ) (s : Search)
        → Entry s.arena m l i
        → Entry (try_next objective input policy mask id next s).arena m l i
    unfolding try_next offer
    try_next-Entry mask id next m l i s e =
        elim (Bool-cases (test_bit mask next || is_early_end objective input mask next)) [
          | inl skipped ↦ rw skipped e
          | inr free ↦
              rw free
                (elim (Option-cases
                  (get_elem? s.arena id >>= λ state. transition objective input state id next)) [
                    | inl cut ↦ rw cut e
                    | inr (c, made) ↦
                        rw made
                          (elim (Bool-cases (
                            any
                              (point_test s.arena
                                (λ existing. policy.dominates existing (frontier_point c)))
                              (get_or s.frontiers
                                (index (set_bit mask next) next (location_count objective input))
                                []))) [
                                  | inl dropped ↦ rw dropped e
                                  | inr kept ↦ rw kept (Entry-append s.arena (c ∷ []) m l i e)
                                ])
                  ])
        ]

    pub try_next-AllEntries :
        (mask last id next : ℕ) (s : Search)
        → next < location_count objective input
        → Entry s.arena mask last id
        → AllEntries s
        → AllEntries (try_next objective input policy mask id next s)
    unfolding try_next
    try_next-AllEntries mask last id next s lt e inv =
        elim (Bool-cases (test_bit mask next || is_early_end objective input mask next)) [
          | inl skipped ↦ rw skipped inv
          | inr free ↦ rw free (elim (Option-cases (transition objective input e.state id next)) [
            | inl cut ↦ rw (e.found, cut) inv
            | inr (c, made) ↦
                rw (e.found, made)
                  (offer-AllEntries (set_bit mask next) next c s lt
                    (transition-Entry s.arena mask last id next lt (ground arith) e e.found made)
                    inv)
          ])
        ]
