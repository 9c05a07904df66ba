-- ===== src/Exact/Search/Complete.antt =====
-- src/solver/exact/bit_dp.rs: the complete routes of a search, checked as src/solver.rs checks a
-- visit order.
use troute.Prelude.{
  ℕ, suc, ◌+◌, ◌≤◌, ◌<◌, ◌≡◌, refl, ◌∙◌, subst, inl, inr, Bool-cases, Bool, true, false, ◌==◌, ◌&&◌,
  some, ok, List, [], ◌∷◌, length, get_elem?, get_or, replicate, first, last, get_elem?-lt,
  length-replicate, arith,
}
use troute.Prelude.Loops.{for_range_inv, All, All-append, All-map}
use troute.Domain.{Location}
use troute.Solver.Types.{SolverInput}
use troute.Solver.Objective.{ObjectivePolicy}
use troute.Solver.Evaluate.{is_lone_start, any_required_unseen, validate_visit_order}
use troute.Schedule.Marks.{count_unseen, count_unseen-replicate, count_unseen-mark_all}
use troute.Exact.{ParetoState}
use troute.Exact.Masks.{test_bit, covers, test_bit-full, covers-bit, required_bits-set}
use troute.Exact.Search.{
  Search, index, location_count, full_mask, end_location, required_mask, is_partial, terminal_ids,
}
use troute.Exact.Search.Route.{Drives, length-mark_all}
use troute.Exact.Search.Cells.{Entry, AllEntries}

-- Every location is marked.
pub count_unseen-all :
    (seen : List Bool)
    → ((j : ℕ) → j < length seen → get_or seen j false ≡ true)
    → count_unseen seen ≡ 0
count_unseen-all [] h = refl
count_unseen-all (true ∷ seen) h = count_unseen-all seen (λ j lt. h (suc j) (omega arith))
count_unseen-all (false ∷ seen) h = cc (h 0 (omega arith))

pub any_required_unseen_lem :
    (ls : List Location) (seen : List Bool)
    → ((j : ℕ) (l : Location)
        → get_elem? ls j ≡ some l
        → l.required ≡ true
        → get_or seen j false ≡ true)
    → any_required_unseen ls seen ≡ false
unfolding any_required_unseen
any_required_unseen_lem [] seen h = refl
any_required_unseen_lem (l ∷ ls) [] h =
    let rest = any_required_unseen_lem ls [] (λ j k e r. h (suc j) k e r) in
    elim (Bool-cases l.required) [ inl r ↦ cc (h 0 l refl r) | inr r ↦ ground arith ]
any_required_unseen_lem (l ∷ ls) (s ∷ seen) h =
    let rest = any_required_unseen_lem ls seen (λ j k e r. h (suc j) k e r) in
    elim (Bool-cases l.required) [
      | inl r ↦ let marked = h 0 l refl r in ground arith
      | inr r ↦ ground arith
    ]

pub lone_start :
    (order : List ℕ) → first order ≡ some 0 → length order ≤ 1 → is_lone_start order ≡ true
lone_start [] e h = cc
lone_start (x ∷ []) e h = ground arith
lone_start (x ∷ (y ∷ ys)) e h = absurd (omega arith)

pub two_ends :
    (order : List ℕ) (l : ℕ) → first order ≡ some 0 → last order ≡ some l → 0 < l → 2 ≤ length order
two_ends [] l e e' h = cc
two_ends (x ∷ []) l e e' h = absurd (ground arith)
two_ends (x ∷ (y ∷ ys)) l e e' h = omega arith

module _ (objective : ObjectivePolicy) (input : SolverInput) (start : ℕ) where
  -- A mask with which the destination may be visited.
  pub record IsComplete (mask : ℕ) : Type 0 where
    pub covered :
        (j : ℕ)
        → j < location_count objective input
        → test_bit (required_mask objective input) j ≡ true
        → test_bit mask j ≡ true
    pub whole : is_partial objective input ≡ false → mask ≡ full_mask objective input

  pub record Terminal (s : Search) (id : ℕ) : Type 0 where
    pub mask : ℕ
    pub entry : Entry objective input start s.arena mask (end_location objective input) id
    pub complete : IsComplete mask

  full_mask-IsComplete : IsComplete (full_mask objective input)
  full_mask-IsComplete = record {
    covered = λ j lt r. test_bit-full (location_count objective input) j lt;
    whole = λ e. refl;
  }

  cell-Terminal :
      (s : Search) (mask : ℕ)
      → 0 < location_count objective input
      → AllEntries objective input start s
      → IsComplete mask
      → All (Terminal s) (
          get_or s.frontiers
            (index mask (end_location objective input) (location_count objective input))
            [])
  cell-Terminal s mask pos inv c =
      All-map (Entry objective input start s.arena mask (end_location objective input)) (Terminal s)
        _ (λ id e. record { mask = mask; entry = e; complete = c })
        (inv.entries mask (end_location objective input) (omega arith))

  pub terminal_ids-Terminal :
      (s : Search)
      → 0 < location_count objective input
      → AllEntries objective input start s
      → All (Terminal s) (terminal_ids objective input s)
  unfolding terminal_ids
  terminal_ids-Terminal s pos inv = elim (Bool-cases (is_partial objective input)) [
    | inr all ↦ rw all (cell-Terminal s (full_mask objective input) pos inv full_mask-IsComplete)
    | inl part ↦ rw part (
        for_range_inv (All (Terminal s)) _ 1 (full_mask objective input) []
          (λ mask ids lo hi p.
            elim (Bool-cases (
              test_bit mask (end_location objective input)
              && covers (location_count objective input) mask (required_mask objective input))) [
                | inr skipped ↦ rw skipped p
                | inl taken ↦ rw taken (
                    All-append (Terminal s) ids _ p (
                      cell-Terminal s mask pos inv (record {
                        covered = λ j lt r.
                            covers-bit (location_count objective input) mask
                              (required_mask objective input) j (ground arith) lt r;
                        whole = λ e. cc;
                      })))
              ])
          tt)
  ]

  module _ (mask : ℕ) (order : List ℕ) (a : ParetoState)
      (d : Drives objective input start mask order a) (c : IsComplete mask) where
    visited_count :
        (length d.marked ≡ location_count objective input)
        × (count_unseen d.marked + length order ≡ location_count objective input)
    visited_count =
        let n : ℕ = location_count objective input in
        let size : length d.marked ≡ n =
          length-mark_all n (replicate n false) order d.marks ∙ length-replicate n false in
        let counted =
          count_unseen-mark_all n (replicate n false) order (length-replicate n false) d.marks in
        (size, counted ∙ count_unseen-replicate n)

    required_seen : any_required_unseen input.problem.locations d.marked ≡ false
    required_seen = any_required_unseen_lem input.problem.locations d.marked (λ j l e r.
        let lt : j < location_count objective input = get_elem?-lt input.problem.locations j e in
        let bit : test_bit (required_mask objective input) j ≡ true =
          subst (λ k. test_bit (required_mask objective input) k ≡ true) (omega arith)
            (required_bits-set input.problem.locations 0 0 j e r) in
        d.masked j lt ∙ c.covered j lt bit)

    whole_length :
        is_partial objective input ≡ false → length order ≡ location_count objective input
    whole_length all =
        let (size, counted) = visited_count in
        let none_left : count_unseen d.marked ≡ 0 = count_unseen-all d.marked (λ j lt.
          let lt' : j < location_count objective input = omega arith in
          d.masked j lt'
          ∙ rw (c.whole all) (test_bit-full (location_count objective input) j lt')) in
        omega arith

    -- A complete route passes the checks of a visit order.
    pub Drives-valid :
        0 < location_count objective input
        → a.location ≡ end_location objective input
        → validate_visit_order input.problem (record { visit_order = order }) ≡ ok tt
    unfolding validate_visit_order
    Drives-valid pos here =
        let (size, counted) = visited_count in
        elim (Bool-cases (location_count objective input == 1)) [
          | inl one ↦ let lone = lone_start order d.begins (ground arith) in ground arith
          | inr more ↦
              let long = two_ends order a.location d.begins d.ends (ground arith) in
              let seen = required_seen in
              elim (Bool-cases (is_partial objective input)) [
                | inl part ↦ ground (arith, d.marks, d.begins, d.ends)
                | inr all ↦
                    let whole = whole_length all in ground (arith, d.marks, d.begins, d.ends)
              ]
        ]
