-- ===== src/Exact/Search/Offers.antt =====
-- src/solver/exact/bit_dp.rs: a cell whose states are at least as good as a given drive, under the
-- offers of the search.
use troute.Prelude.{
  ℕ, zero, suc, ◌*◌, ◌^◌, ◌<◌, ◌≡◌, sym, ◌∙◌, subst, inl, inr, Bool-cases, Bool, true, false, ◌==◌,
  not, some, List, [], ◌∷◌, ◌++◌, length, get_elem?, get_or, set, get_or-set_self, get_or-set_ne,
  get_elem?-append_lt, get_elem?-append_length, get_elem?-lt, arith,
}
use troute.Prelude.Loops.{
  Any, Any-left, Any-right, Any-map, Any-retain, Any-with_All, any-Any, any, retain,
}
use troute.Solver.Types.{SolverInput}
use troute.Solver.Objective.{default_objective_policy}
use troute.Solver.Evaluate.{Progress}
use troute.Solver.Evaluate.Monotone.{IsSound}
use troute.Exact.{ParetoState, frontier_point, time_cost_frontier_policy, time_cost_dominates}
use troute.Exact.Search.{Search, index, point_test, offer, location_count}
use troute.Exact.Search.Route.{progress_of}
use troute.Exact.Search.Cells.{Entry, AllEntries}
use troute.Exact.Search.Better.{IsBetter, IsBetter-trans, time_cost_dominates-IsBetter}

-- The state of an id is at least as good as a drive.
pub record Good (arena : List ParetoState) (p : Progress) (id : ℕ) : Type 0 where
  pub state : ParetoState
  pub found : get_elem? arena id ≡ some state
  pub better : IsBetter (progress_of state) p

pub Good-append :
    (arena more : List ParetoState) (p : Progress) (id : ℕ)
    → Good arena p id
    → Good (arena ++ more) p id
Good-append arena more p id g = record {
  state = g.state;
  found = get_elem?-append_lt arena more id (get_elem?-lt arena id g.found) ∙ g.found;
  better = g.better;
}

Any-set :
    (P Q : ℕ → Type 0) (cells : List (List ℕ)) (i : ℕ) (v : List ℕ)
    → Any P (get_or cells i [])
    → Any Q v
    → Any Q (get_or (set cells i v) i [])
Any-set P Q [] i v h q = elim h [ ]
Any-set P Q (c ∷ cs) zero v h q = q
Any-set P Q (c ∷ cs) (suc i) v h q = Any-set P Q cs i v h q

pub index-lt : (n m l k : ℕ) → m < k → l < n → index m l n < k * n
index-lt n m l k a b = grind arith

abbrev pub cell_count : SolverInput → ℕ
cell_count input = location_count default_objective_policy input

module _ (input : SolverInput) (start : ℕ) where
  -- Some state of the cell is at least as good as the drive.
  abbrev pub Covered : Search → (mask last : ℕ) → Progress → Type 0
  Covered s mask last p =
      Any (Good s.arena p) (get_or s.frontiers (index mask last (cell_count input)) [])

  -- A state with the cost of its drive, which ends within the day.
  record IsCosted (a : ParetoState) : Type 0 where
    costed :
        a.frontier_cost ≡ default_objective_policy.frontier_cost a.travel_minutes a.wait_minutes
    sound : IsSound (progress_of a)

  Entry-IsCosted :
      (arena : List ParetoState) (mask last id : ℕ) {a : ParetoState}
      → Entry default_objective_policy input start arena mask last id
      → get_elem? arena id ≡ some a
      → IsCosted a
  Entry-IsCosted arena mask last id {a} e found =
      let same : e.state ≡ a = cc (e.found) in
      subst IsCosted same (record {
        costed = e.drives.costed;
        sound = record { waited = e.drives.waited; in_day = e.drives.in_day };
      })

  dominates-IsBetter :
      (a b : ParetoState)
      → IsCosted a
      → IsCosted b
      → time_cost_dominates (frontier_point a) (frontier_point b) ≡ true
      → IsBetter (progress_of a) (progress_of b)
  dominates-IsBetter a b ca cb =
      time_cost_dominates-IsBetter a b ca.costed cb.costed ca.sound cb.sound

  module _ (mask last : ℕ) (c : ParetoState) (s : Search) (lt : last < (cell_count input))
      (e : Entry default_objective_policy input start
        (s.arena ++ (c ∷ []))
        mask
        last
        (length s.arena))
      (inv : AllEntries default_objective_policy input start s) where
    abbrev after_arena : List ParetoState
    after_arena = s.arena ++ (c ∷ [])

    candidate-IsCosted : IsCosted c
    candidate-IsCosted =
        Entry-IsCosted (s.arena ++ (c ∷ [])) mask last (length s.arena) e
          (get_elem?-append_length s.arena c)

    offered : (p : Progress) → IsBetter (progress_of c) p → Good after_arena p (length s.arena)
    offered p b = record { state = c; found = get_elem?-append_length s.arena c; better = b }

    -- A good state that the candidate dominates leaves the candidate good.
    dominated-IsBetter :
        (p : Progress) (m l id : ℕ)
        → Good s.arena p id
        → Entry default_objective_policy input start s.arena m l id
        → not (point_test s.arena (time_cost_dominates (frontier_point c)) id) ≡ false
        → IsBetter (progress_of c) p
    dominated-IsBetter p m l id g own h =
        let found = g.found in
        let dom : time_cost_dominates (frontier_point c) (frontier_point g.state) ≡ true =
          ground arith in
        IsBetter-trans
          (dominates-IsBetter c g.state candidate-IsCosted (Entry-IsCosted s.arena m l id own found)
            dom)
          g.better

    -- A member that dominates the candidate is good where the candidate would be.
    dominating-Good :
        (p : Progress) (m l id : ℕ)
        → IsBetter (progress_of c) p
        → point_test s.arena (λ existing. time_cost_dominates existing (frontier_point c)) id ≡ true
        → Entry default_objective_policy input start s.arena m l id
        → Good s.arena p id
    dominating-Good p m l id b h own =
        let found = own.found in
        let dom : time_cost_dominates (frontier_point own.state) (frontier_point c) ≡ true =
          ground arith in
        record {
          state = own.state;
          found = own.found;
          better =
              IsBetter-trans
                (dominates-IsBetter own.state c (Entry-IsCosted s.arena m l id own found)
                  candidate-IsCosted dom)
                b;
        }

    abbrev is_dropped : Bool
    is_dropped =
        any (point_test s.arena (λ existing. time_cost_dominates existing (frontier_point c)))
          (get_or s.frontiers (index mask last (cell_count input)) [])

    abbrev kept_ids : List ℕ
    kept_ids =
        retain (λ id. not (point_test s.arena (time_cost_dominates (frontier_point c)) id))
          (get_or s.frontiers (index mask last (cell_count input)) [])

    -- The cell after an offer that is taken.
    kept-Any :
        (p : Progress)
        → Any (Good s.arena p) (get_or s.frontiers (index mask last (cell_count input)) [])
        → Any (Good after_arena p) (kept_ids ++ (length s.arena ∷ []))
    kept-Any p h =
        let cell : List ℕ = get_or s.frontiers (index mask last (cell_count input)) [] in
        let own = Any-with_All (Good s.arena p) _ cell h (inv.entries mask last lt) in
        elim (Any-retain _
          (λ id. not (point_test s.arena (time_cost_dominates (frontier_point c)) id)) cell own) [
            | inl kept ↦ Any-left (Good after_arena p) kept_ids (length s.arena ∷ []) (
                Any-map _ (Good after_arena p) kept_ids
                  (λ id g. Good-append s.arena (c ∷ []) p id g.0) kept)
            | inr (id, g, cut) ↦
                Any-right (Good after_arena p) kept_ids (length s.arena ∷ [])
                  (inl (offered p (dominated-IsBetter p mask last id g.0 g.1 cut)))
          ]

    abbrev after : Search
    after = offer time_cost_frontier_policy (index mask last (cell_count input)) c s

    -- An offer keeps what a cell covers.
    pub offer-Covered :
        (m l : ℕ) (p : Progress) → l < (cell_count input) → Covered s m l p → Covered after m l p
    unfolding offer
    offer-Covered m l p l_lt h = elim (Bool-cases is_dropped) [
      | inl dropped ↦ rw dropped h
      | inr taken ↦
          rw taken
            (elim (Bool-cases
              (index m l (cell_count input) == index mask last (cell_count input))) [
                | inr other ↦
                    rw
                      (get_or-set_ne s.frontiers (index mask last (cell_count input))
                        (index m l (cell_count input)) (kept_ids ++ (length s.arena ∷ [])) []
                        (ground arith))
                      (Any-map (Good s.arena p) (Good after_arena p) _
                        (Good-append s.arena (c ∷ []) p) h)
                | inl same ↦
                    let eq : index m l (cell_count input) ≡ index mask last (cell_count input) =
                      ground arith in
                    let h' : Any (Good s.arena p)
                        (get_or s.frontiers (index mask last (cell_count input)) []) =
                      subst (λ i. Any (Good s.arena p) (get_or s.frontiers i [])) eq h in
                    subst
                      (λ i. Any (Good after_arena p) (
                        get_or
                          (set s.frontiers (index mask last (cell_count input))
                            (kept_ids ++ (length s.arena ∷ [])))
                          i []))
                      (sym eq)
                      (Any-set _ (Good after_arena p) s.frontiers
                        (index mask last (cell_count input)) _ h' (kept-Any p h'))
              ])
    ]

    -- After an offer the cell covers what the candidate covers.
    pub offer-Covered_new :
        (p : Progress)
        → mask < 2 ^ (cell_count input)
        → IsBetter (progress_of c) p
        → Covered after mask last p
    unfolding offer
    offer-Covered_new p small b = elim (Bool-cases is_dropped) [
      | inl dropped ↦ rw dropped (
          let cell : List ℕ = get_or s.frontiers (index mask last (cell_count input)) [] in
          let own = Any-with_All _ _ cell (any-Any _ cell dropped) (inv.entries mask last lt) in
          Any-map _ (Good s.arena p) cell (λ id g. dominating-Good p mask last id b g.0 g.1) own)
      | inr taken ↦ rw taken (
          let inside : index mask last (cell_count input) < length s.frontiers =
            subst (λ k. index mask last (cell_count input) < k) (sym inv.sized)
              (index-lt (cell_count input) mask last (2 ^ (cell_count input)) small lt) in
          rw
            (get_or-set_self s.frontiers (index mask last (cell_count input))
              (kept_ids ++ (length s.arena ∷ [])) [] inside)
            (Any-right (Good after_arena p) kept_ids (length s.arena ∷ []) (inl (offered p b))))
    ]
