-- ===== src/Initial/Euler/Covers.antt =====
-- src/solver/initial/mst/euler.rs: a tour that is returned passes every node, and begins at the root.
use troute.Prelude.{
  ℕ, zero, suc, ◌≤◌, ◌<◌, ◌≡◌, refl, sym, ap, ◌∙◌, subst, inl, inr, Bool-cases, Bool, true, false,
  ◌==◌, Option, none, some, List, [], ◌∷◌, ◌++◌, length, get_elem?, get_or, set, replicate,
  get_or-set_self, get_or-set_ne, get_or-replicate, length-set, length-replicate, arith,
}
use troute.Prelude.Loops.{All, All-map}
use troute.Schedule.{any_unseen}
use troute.Initial.Counts.{count, count-append}
use troute.Initial.Euler.{Adjacency, Walk, parent, visit_next, walk_step, walk_loop, first_walk}
use troute.Initial.Euler.Rounds.{AreNodes}

abbrev pub IsSeen : List Bool → ℕ × ℕ → Type 0
IsSeen seen frame = get_or seen frame.0 false ≡ true

-- What the walk has seen is what its tour has passed.
pub record Toured (n root : ℕ) (w : Walk) : Type 0 where
  pub size : length w.seen ≡ n
  pub passed : (x : ℕ) → get_or w.seen x false ≡ true → 1 ≤ count x w.tour
  pub marked : (x : ℕ) → 1 ≤ count x w.tour → get_or w.seen x false ≡ true
  pub stacked : All (IsSeen w.seen) w.stack
  pub rest : List ℕ
  pub begins : w.tour ≡ root ∷ rest

pub seen-lt : (seen : List Bool) (x : ℕ) → get_or seen x false ≡ true → x < length seen
seen-lt [] x h = cc
seen-lt (s ∷ seen) zero h = omega arith
seen-lt (s ∷ seen) (suc x) h = omega (arith, seen-lt seen x h)

module _ (n root : ℕ) (adjacency : Adjacency) (nodes : AreNodes n adjacency) where
  -- The walk goes back to the node under the top.
  back-Toured :
      (seen : List Bool) (tour : List ℕ) (frame : ℕ × ℕ) (stack : List (ℕ × ℕ))
      → Toured n root (record { seen = seen; tour = tour; stack = frame ∷ stack })
      → Toured n root (record { seen = seen; tour = tour ++ parent stack; stack = stack })
  back-Toured seen tour frame [] t = record {
    size = t.size;
    passed = λ x h. omega (arith, t.passed x h, count-append x tour []);
    marked = λ x h. t.marked x (omega (arith, count-append x tour []));
    stacked = tt;
    rest = t.rest ++ [];
    begins = ap (λ xs. xs ++ []) t.begins;
  }
  back-Toured seen tour frame (under ∷ stack) t = record {
    size = t.size;
    passed = λ x h. omega (arith, t.passed x h, count-append x tour (under.0 ∷ []));
    marked = λ x h.
        let joined = count-append x tour (under.0 ∷ []) in
        elim (Bool-cases (under.0 == x)) [
          | inl same ↦
              let eq : under.0 ≡ x = ground arith in
              subst (λ k. get_or seen k false ≡ true) eq t.stacked.1.0
          | inr other ↦ t.marked x (ground arith)
        ];
    stacked = t.stacked.1;
    rest = t.rest ++ (under.0 ∷ []);
    begins = ap (λ xs. xs ++ (under.0 ∷ [])) t.begins;
  }

  -- The walk goes on to a node not yet seen.
  down-Toured :
      (seen : List Bool) (tour : List ℕ) (child node next next' : ℕ) (stack : List (ℕ × ℕ))
      → child < n
      → get_or seen child false ≡ false
      → Toured n root (record { seen = seen; tour = tour; stack = (node, next) ∷ stack })
      → Toured n root (record {
        seen = set seen child true;
        tour = tour ++ (child ∷ []);
        stack = (child, 0) ∷ ((node, next') ∷ stack);
      })
  down-Toured seen tour child node next next' stack lt fresh t =
      let here : get_or (set seen child true) child false ≡ true =
        get_or-set_self seen child true false (omega (arith, t.size)) in
      let kept : (x : ℕ)
          → get_or seen x false ≡ true
          → get_or (set seen child true) x false ≡ true =
        λ x h. elim (Bool-cases (x == child)) [
          | inl same ↦ absurd (ground arith)
          | inr other ↦ get_or-set_ne seen child x true false (ground arith) ∙ h
        ] in
      record {
        size = length-set seen child true ∙ t.size;
        passed = λ x h.
            let joined = count-append x tour (child ∷ []) in
            elim (Bool-cases (child == x)) [
              | inl same ↦ ground arith
              | inr other ↦
                  let old =
                    t.passed x (sym (get_or-set_ne seen child x true false (ground arith)) ∙ h) in
                  ground arith
            ];
        marked = λ x h.
            let joined = count-append x tour (child ∷ []) in
            elim (Bool-cases (child == x)) [
              | inl same ↦
                  let eq : child ≡ x = ground arith in
                  subst (λ k. get_or (set seen child true) k false ≡ true) eq here
              | inr other ↦ kept x (t.marked x (ground arith))
            ];
        stacked = (
          here,
          (
            kept node t.stacked.0,
            All-map (IsSeen seen) (IsSeen (set seen child true)) stack (λ f. kept f.0) t.stacked.1,
          ),
        );
        rest = t.rest ++ (child ∷ []);
        begins = ap (λ xs. xs ++ (child ∷ [])) t.begins;
      }

  visit_next-Toured :
      (seen : List Bool) (tour : List ℕ) (node next : ℕ) (stack : List (ℕ × ℕ)) (o : Option (ℕ × ℕ))
      → get_elem? (get_or adjacency node []) next ≡ o
      → Toured n root (record { seen = seen; tour = tour; stack = (node, next) ∷ stack })
      → Toured n root (visit_next seen tour node next stack o)
  visit_next-Toured seen tour node next stack none e t = back-Toured seen tour (node, next) stack t
  visit_next-Toured seen tour node next stack (some (child, distance)) e t =
      elim (Bool-cases (get_or seen child false)) [
        | inl again ↦ rw again (record {
          size = t.size;
          passed = t.passed;
          marked = t.marked;
          stacked = t.stacked;
          rest = t.rest;
          begins = t.begins;
        })
        | inr fresh ↦ rw fresh (
            down-Toured seen tour child node next (suc next) stack
              (nodes node next (child, distance) e) fresh t)
      ]

  pub walk_loop-Toured :
      (rounds : ℕ) (seen : List Bool) (tour : List ℕ) (stack : List (ℕ × ℕ))
      → Toured n root (record { seen = seen; tour = tour; stack = stack })
      → Toured n root
          (walk_loop rounds adjacency (record { seen = seen; tour = tour; stack = stack }))
  unfolding walk_loop walk_step
  walk_loop-Toured zero seen tour stack t = t
  walk_loop-Toured (suc rounds) seen tour [] t = walk_loop-Toured rounds seen tour [] t
  walk_loop-Toured (suc rounds) seen tour (frame ∷ stack) t =
      let o = get_elem? (get_or adjacency frame.0 []) frame.1 in
      let w = visit_next seen tour frame.0 frame.1 stack o in
      walk_loop-Toured rounds w.seen w.tour w.stack
        (visit_next-Toured seen tour frame.0 frame.1 stack o refl t)

pub first_walk-Toured : (n root : ℕ) → root < n → Toured n root (first_walk n root)
first_walk-Toured n root lt = record {
  size = length-set (replicate n false) root true ∙ length-replicate n false;
  passed = λ x h.
      ground
        (arith, get_or-set_ne (replicate n false) root x true false, get_or-replicate n x false);
  marked = λ x h.
      let eq : root ≡ x = ground arith in
      subst (λ k. get_or (set (replicate n false) root true) k false ≡ true) eq
        (get_or-set_self (replicate n false) root true false
          (omega (arith, length-replicate n false)));
  stacked = (
    get_or-set_self (replicate n false) root true false (omega (arith, length-replicate n false)),
    tt,
  );
  rest = [];
  begins = refl;
}

pub none_unseen :
    (seen : List Bool) (x : ℕ)
    → any_unseen seen ≡ false
    → x < length seen
    → get_or seen x false ≡ true
unfolding any_unseen
none_unseen [] x h lt = absurd (omega arith)
none_unseen (s ∷ seen) zero h lt = ground arith
none_unseen (s ∷ seen) (suc x) h lt = none_unseen seen x (ground arith) (omega arith)
