-- ===== src/Prelude/Loops.antt =====
-- Counted loops and loops over a list, with the rule that an invariant of one round is one of all.
use Prim.Native.Nat.{ℕ, zero, suc, ◌+◌, ◌≤◌, ◌<◌}
use mathlib.Core.Path.{◌≡◌, subst}
use mathlib.Core.Logic.{◌⊎◌, inl, inr}
use mathlib.Core.Bool.{Bool, true, false}
use mathlib.Core.List.{List, [], ◌∷◌, ◌++◌}
use native.Mathlib.Omega.{arith}
use troute.Prelude.Tests.{if◌then◌else◌, ◌==◌, Bool-cases}

module _ {ℓ} {S : Type ℓ} where
  -- `for i in start..start + count`.
  abbrev pub for_range : ℕ → ℕ → (ℕ → S → S) → S → S
  for_range start zero body s = s
  for_range start (suc count) body s = for_range (suc start) count body (body start s)

  pub for_range_inv {κ} :
      (P : S → Type κ) (body : ℕ → S → S) (start count : ℕ) (s : S)
      → ((i : ℕ) (s : S) → start ≤ i → i < start + count → P s → P (body i s))
      → P s
      → P (for_range start count body s)
  for_range_inv P body start zero s keep p = p
  for_range_inv P body start (suc count) s keep p =
      for_range_inv P body (suc start) count (body start s)
        (λ i t lo hi q. keep i t (omega arith) (omega arith) q)
        (keep start s (omega arith) (omega arith) p)

  module _ {μ} {A : Type μ} where
    -- `for a in list`.
    abbrev pub for_each : List A → (A → S → S) → S → S
    for_each [] body s = s
    for_each (a ∷ as') body s = for_each as' body (body a s)

module _ {ℓ κ} {A : Type ℓ} where
  -- What holds of every member.
  abbrev pub All : (A → Type κ) → List A → Type κ
  All P [] = Unit
  All P (x ∷ xs) = P x × All P xs

  pub All-append : (P : A → Type κ) (xs ys : List A) → All P xs → All P ys → All P (xs ++ ys)
  All-append P [] ys p q = q
  All-append P (x ∷ xs) ys p q = (p.0, All-append P xs ys p.1 q)

  pub All-map : (P Q : A → Type κ) (xs : List A) → ((x : A) → P x → Q x) → All P xs → All Q xs
  All-map P Q [] f p = tt
  All-map P Q (x ∷ xs) f p = (f x p.0, All-map P Q xs f p.1)

module _ {ℓ} {A : Type ℓ} where
  abbrev pub any : (A → Bool) → List A → Bool
  any test [] = false
  any test (x ∷ xs) = if test x then true else any test xs

  -- `retain`.
  abbrev pub retain : (A → Bool) → List A → List A
  retain test [] = []
  retain test (x ∷ xs) = let rest = retain test xs in if test x then x ∷ rest else rest

module _ {ℓ κ} {A : Type ℓ} where
  pub All-retain :
      (P : A → Type κ) (test : A → Bool) (xs : List A) → All P xs → All P (retain test xs)
  All-retain P test [] p = tt
  All-retain P test (x ∷ xs) p =
      let rest = All-retain P test xs p.1 in
      elim (Bool-cases (test x)) [ inl e ↦ rw e (p.0, rest) | inr e ↦ rw e rest ]

module _ {ℓ κ} {S : Type ℓ} {A : Type κ} where
  -- An invariant of the rounds over members of which `Q` holds after every round.
  pub for_each_inv {μ ν} :
      (P : S → Type μ) (Q : S → A → Type ν) (body : A → S → S) (xs : List A) (s : S)
      → ((a : A) (s : S) → P s → Q s a → P (body a s))
      → ((a b : A) (s : S) → P s → Q s a → Q s b → Q (body a s) b)
      → P s
      → All (Q s) xs
      → P (for_each xs body s)
  for_each_inv P Q body [] s keep stay p q = p
  for_each_inv P Q body (x ∷ xs) s keep stay p q =
      for_each_inv P Q body xs (body x s) keep stay (keep x s p q.0)
        (All-map (Q s) (Q (body x s)) xs (λ b. stay x b s p q.0) q.1)

module _ {ℓ} {A : Type ℓ} where
  -- What holds of some member.
  abbrev pub Any : (A → Type 0) → List A → Type 0
  Any P [] = ⊥
  Any P (x ∷ xs) = P x ⊎ Any P xs

  pub Any-left : (P : A → Type 0) (xs ys : List A) → Any P xs → Any P (xs ++ ys)
  Any-left P [] ys h = elim h [ ]
  Any-left P (x ∷ xs) ys (inl p) = inl p
  Any-left P (x ∷ xs) ys (inr h) = inr (Any-left P xs ys h)

  pub Any-right : (P : A → Type 0) (xs ys : List A) → Any P ys → Any P (xs ++ ys)
  Any-right P [] ys h = h
  Any-right P (x ∷ xs) ys h = inr (Any-right P xs ys h)

  -- A member that is not kept fails the test.
  pub Any-retain :
      (P : A → Type 0) (test : A → Bool) (xs : List A)
      → Any P xs
      → Any P (retain test xs) ⊎ ((x : A) × P x × (test x ≡ false))
  Any-retain P test [] h = elim h [ ]
  Any-retain P test (x ∷ xs) (inl p) = elim (Bool-cases (test x)) [
    | inl e ↦ rw e (inl (inl p))
    | inr e ↦ inr (x, p, e)
  ]
  Any-retain P test (x ∷ xs) (inr h) = elim (Any-retain P test xs h) [
    | inr cut ↦ inr cut
    | inl kept ↦ elim (Bool-cases (test x)) [
      | inl e ↦ rw e (inl (inr kept))
      | inr e ↦ rw e (inl kept)
    ]
  ]

module _ {ℓ} {A : Type ℓ} where
  pub Any-map :
      (P : A → Type 0) (Q : A → Type 0) (xs : List A) → ((x : A) → P x → Q x) → Any P xs → Any Q xs
  Any-map P Q [] f h = elim h [ ]
  Any-map P Q (x ∷ xs) f (inl p) = inl (f x p)
  Any-map P Q (x ∷ xs) f (inr h) = inr (Any-map P Q xs f h)

  pub Any-with_All :
      (P : A → Type 0) (Q : A → Type 0) (xs : List A)
      → Any P xs
      → All Q xs
      → Any (λ x. P x × Q x) xs
  Any-with_All P Q [] h q = elim h [ ]
  Any-with_All P Q (x ∷ xs) (inl p) q = inl (p, q.0)
  Any-with_All P Q (x ∷ xs) (inr h) q = inr (Any-with_All P Q xs h q.1)

pub any-Any {ℓ} :
    {A : Type ℓ} (test : A → Bool) (xs : List A) → any test xs ≡ true → Any (λ x. test x ≡ true) xs
any-Any test [] h = absurd (cc)
any-Any test (x ∷ xs) h = elim (Bool-cases (test x)) [
  | inl e ↦ inl e
  | inr e ↦ inr (any-Any test xs (rw e at h))
]

module _ {ℓ} {S : Type ℓ} where
  -- What one round establishes and the later ones keep, under an invariant.
  pub for_range_reach {κ μ} :
      (G : S → Type κ) (P : S → Type μ) (body : ℕ → S → S) (start count j : ℕ) (s : S)
      → ((i : ℕ) (s : S) → start ≤ i → i < start + count → G s → G (body i s))
      → ((s : S) → G s → P (body j s))
      → ((i : ℕ) (s : S) → start ≤ i → i < start + count → G s → P s → P (body i s))
      → start ≤ j
      → j < start + count
      → G s
      → P (for_range start count body s)
  for_range_reach G P body start zero j s keep reach stay lo hi g = absurd (omega arith)
  for_range_reach G P body start (suc count) j s keep reach stay lo hi g =
      elim (Bool-cases (j == start)) [
        | inr later ↦
            for_range_reach G P body (suc start) count j (body start s)
              (λ i t lo' hi' q. keep i t (omega arith) (omega arith) q) reach
              (λ i t lo' hi' q p. stay i t (omega arith) (omega arith) q p) (ground arith)
              (omega arith) (keep start s (omega arith) (omega arith) g)
        | inl now ↦
            let eq : j ≡ start = ground arith in
            let done : P (body start s) = rw (← eq) (reach s g) in
            (for_range_inv (λ t. G t × P t) body (suc start) count (body start s)
              (λ i t lo' hi' q. (
                keep i t (omega arith) (omega arith) q.0,
                stay i t (omega arith) (omega arith) q.0 q.1,
              ))
              (keep start s (omega arith) (omega arith) g, done)).1
      ]

  -- An invariant that names the round.
  pub for_range_staged {κ} :
      (P : ℕ → S → Type κ) (body : ℕ → S → S) (start count : ℕ) (s : S)
      → ((i : ℕ) (s : S) → start ≤ i → i < start + count → P i s → P (suc i) (body i s))
      → P start s
      → P (start + count) (for_range start count body s)
  for_range_staged P body start zero s keep p = subst (λ k. P k s) (omega arith) p
  for_range_staged P body start (suc count) s keep p =
      subst (λ k. P k (for_range (suc start) count body (body start s))) (omega arith)
        (for_range_staged P body (suc start) count (body start s)
          (λ i t lo hi q. keep i t (omega arith) (omega arith) q)
          (keep start s (omega arith) (omega arith) p))

module _ {ℓ κ} {S : Type ℓ} {A : Type κ} where
  -- What the round over one member establishes and the later ones keep.
  pub for_each_reach {μ ν π} :
      (G : S → Type μ) (Q : S → A → Type ν) (R : S → A → Type 0) (P : S → Type π) (body : A → S → S)
      (xs : List A) (s : S)
      → ((a : A) (s : S) → G s → Q s a → G (body a s))
      → ((a b : A) (s : S) → G s → Q s a → Q s b → Q (body a s) b)
      → ((a b : A) (s : S) → G s → Q s a → R s b → R (body a s) b)
      → ((a : A) (s : S) → G s → Q s a → R s a → P (body a s))
      → ((a : A) (s : S) → G s → Q s a → P s → P (body a s))
      → G s
      → All (Q s) xs
      → Any (R s) xs
      → P (for_each xs body s)
  for_each_reach G Q R P body [] s keep qstay rstay reach stay g q r = elim r [ ]
  for_each_reach G Q R P body (x ∷ xs) s keep qstay rstay reach stay g q (inl now) =
      (for_each_inv (λ t. G t × P t) Q body xs (body x s)
        (λ a t h q'. (keep a t h.0 q', stay a t h.0 q' h.1))
        (λ a b t h q' q''. qstay a b t h.0 q' q'') (keep x s g q.0, reach x s g q.0 now)
        (All-map (Q s) (Q (body x s)) xs (λ b. qstay x b s g q.0) q.1)).1
  for_each_reach G Q R P body (x ∷ xs) s keep qstay rstay reach stay g q (inr later) =
      for_each_reach G Q R P body xs (body x s) keep qstay rstay reach stay (keep x s g q.0)
        (All-map (Q s) (Q (body x s)) xs (λ b. qstay x b s g q.0) q.1)
        (Any-map (R s) (R (body x s)) xs (λ b. rstay x b s g q.0) later)
