-- ===== src/Schedule/Marks.antt =====
-- src/solver.rs and src/schedule.rs: the marks that the two checks of a visit order leave.
use troute.Prelude.{
  ℕ, zero, suc, ◌+◌, ◌-◌, ◌≤◌, ◌<◌, ◌≡◌, ◌≢◌, refl, sym, ap, ◌∙◌, inl, inr, Bool-cases, Bool, true,
  false, ◌==◌, none, some, List, [], ◌∷◌, ◌++◌, length, get_or, set, replicate, last, length-set,
  length-replicate, get_or-replicate, get_or-set_self, get_or-set_ne, arith,
}
use troute.Solver.Evaluate.{mark_all}
use troute.Schedule.{any_unseen, interior, drop_last}

module _ (n : ℕ) where
  -- A location that is marked already cannot come last.
  mark_all_seen :
      (seen : List Bool) (xs : List ℕ) (e : ℕ)
      → length seen ≡ n
      → get_or seen e false ≡ true
      → mark_all n seen (xs ++ (e ∷ [])) ≡ none
  unfolding mark_all
  mark_all_seen seen [] e size h = ground arith
  mark_all_seen seen (x ∷ xs) e size h = elim (Bool-cases (x == e)) [
    | inl same ↦ ground arith
    | inr other ↦
        let kept : get_or (set seen x true) e false ≡ true =
          get_or-set_ne seen x e true false (ground arith) ∙ h in
        ground (arith, mark_all_seen (set seen x true) xs e (length-set seen x true ∙ size) kept)
  ]

  set-set_comm :
      (seen : List Bool) (i j : ℕ)
      → i ≢ j
      → set (set seen i true) j true ≡ set (set seen j true) i true
  set-set_comm [] i j h = refl
  set-set_comm (s ∷ seen) zero zero h = refl
  set-set_comm (s ∷ seen) zero (suc j) h = refl
  set-set_comm (s ∷ seen) (suc i) zero h = refl
  set-set_comm (s ∷ seen) (suc i) (suc j) h = ap (λ t. s ∷ t) (set-set_comm seen i j (omega arith))

  -- Marking `e` first is the same as marking it last.
  mark_all-swap :
      (seen : List Bool) (xs : List ℕ) (e : ℕ)
      → length seen ≡ n
      → e < n
      → get_or seen e false ≡ false
      → mark_all n (set seen e true) xs ≡ mark_all n seen (xs ++ (e ∷ []))
  unfolding mark_all
  mark_all-swap seen [] e size lt h = ground arith
  mark_all-swap seen (x ∷ xs) e size lt h = elim (Bool-cases (x == e)) [
    | inl same ↦
        let eq : x ≡ e = ground arith in
        let hit : get_or (set seen e true) x false ≡ true =
          rw eq (get_or-set_self seen e true false (omega arith)) in
        let gone : mark_all n (set seen x true) (xs ++ (e ∷ [])) ≡ none =
          mark_all_seen (set seen x true) xs e (length-set seen x true ∙ size)
            (rw eq (get_or-set_self seen e true false (omega arith))) in
        ground arith
    | inr other ↦
        let ne : x ≢ e = ground arith in
        let kept : get_or (set seen x true) e false ≡ false =
          get_or-set_ne seen x e true false (λ q. ne (sym q)) ∙ h in
        let read : get_or (set seen e true) x false ≡ get_or seen x false =
          get_or-set_ne seen e x true false ne in
        let swapped : set (set seen e true) x true ≡ set (set seen x true) e true =
          set-set_comm seen e x (λ q. ne (sym q)) in
        let rest = mark_all-swap (set seen x true) xs e (length-set seen x true ∙ size) lt kept in
        rw (read, swapped, rest)
  ]

-- The locations that are not marked.
abbrev pub count_unseen : List Bool → ℕ
count_unseen [] = 0
count_unseen (true ∷ seen) = count_unseen seen
count_unseen (false ∷ seen) = suc (count_unseen seen)

pub count_unseen-replicate : (n : ℕ) → count_unseen (replicate n false) ≡ n
count_unseen-replicate zero = refl
count_unseen-replicate (suc n) = ap suc (count_unseen-replicate n)

pub count_unseen-set :
    (seen : List Bool) (i : ℕ)
    → i < length seen
    → get_or seen i false ≡ false
    → suc (count_unseen (set seen i true)) ≡ count_unseen seen
count_unseen-set [] i lt h = absurd (omega arith)
count_unseen-set (s ∷ seen) zero lt h = ground arith
count_unseen-set (true ∷ seen) (suc i) lt h = count_unseen-set seen i (omega arith) h
count_unseen-set (false ∷ seen) (suc i) lt h = ap suc (count_unseen-set seen i (omega arith) h)

pub any_unseen-count : (seen : List Bool) → count_unseen seen ≡ 0 → any_unseen seen ≡ false
unfolding any_unseen
any_unseen-count [] h = refl
any_unseen-count (true ∷ seen) h = any_unseen-count seen h
any_unseen-count (false ∷ seen) h = absurd (omega arith)

-- Each location of the order marks one more.
pub count_unseen-mark_all :
    (n : ℕ) (seen : List Bool) (xs : List ℕ) {marked : List Bool}
    → length seen ≡ n
    → mark_all n seen xs ≡ some marked
    → count_unseen marked + length xs ≡ count_unseen seen
unfolding mark_all
count_unseen-mark_all n seen [] size h = ground arith
count_unseen-mark_all n seen (x ∷ xs) {marked} size h =
    let lt : x < length seen = ground arith in
    let fresh : get_or seen x false ≡ false = ground arith in
    let one = count_unseen-set seen x lt fresh in
    let rest =
      count_unseen-mark_all n (set seen x true) xs {marked = marked} (length-set seen x true ∙ size)
        (ground arith) in
    omega arith

drop_last-last :
    (x : ℕ) (xs : List ℕ) (e : ℕ) → last (x ∷ xs) ≡ some e → x ∷ xs ≡ drop_last (x ∷ xs) ++ (e ∷ [])
drop_last-last x [] e h = ground arith
drop_last-last x (y ∷ ys) e h = ap (λ t. x ∷ t) (drop_last-last y ys e h)

-- Over a whole order both checks end with the same marks, or both fail.
pub mark_all-interior :
    (n : ℕ) (x y : ℕ) (rest : List ℕ)
    → 2 ≤ n
    → x ≡ 0
    → last (x ∷ (y ∷ rest)) ≡ some (n - 1)
    → mark_all n (set (set (replicate n false) 0 true) (n - 1) true) (interior (x ∷ (y ∷ rest)))
      ≡ mark_all n (replicate n false) (x ∷ (y ∷ rest))
unfolding mark_all
mark_all-interior n x y rest big start end =
    let size : length (set (replicate n false) 0 true) ≡ n =
      length-set (replicate n false) 0 true ∙ length-replicate n false in
    let fresh : get_or (set (replicate n false) 0 true) (n - 1) false ≡ false =
      get_or-set_ne (replicate n false) 0 (n - 1) true false (omega arith)
      ∙ get_or-replicate n (n - 1) false in
    let swap =
      mark_all-swap n (set (replicate n false) 0 true) (drop_last (y ∷ rest)) (n - 1) size
        (omega arith) fresh in
    let whole : y ∷ rest ≡ drop_last (y ∷ rest) ++ ((n - 1) ∷ []) =
      drop_last-last y rest (n - 1) end in
    let first_fresh : get_or (replicate n false) 0 false ≡ false = get_or-replicate n 0 false in
    rw start (rw (swap, ← whole) (rw first_fresh (ground arith)))
