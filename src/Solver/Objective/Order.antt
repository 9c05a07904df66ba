-- ===== src/Solver/Objective/Order.antt =====
-- Comparisons that order their type up to ties, closed under the ways the code builds them.
use troute.Prelude.{ℕ, ◌≡◌, refl, compare, Ordering, arith}
use troute.Solver.Objective.{then_with}

abbrev pub opposite : Ordering → Ordering
opposite Ordering.lt = Ordering.gt
opposite Ordering.eq = Ordering.eq
opposite Ordering.gt = Ordering.lt

pub record IsWeakOrder {ℓ} {A : Type ℓ} (cmp : A → A → Ordering) : Type ℓ where
  pub swap : (a b : A) → cmp b a ≡ opposite (cmp a b)
  pub lt_trans : (a b c : A) → cmp a b ≡ Ordering.lt → cmp b c ≡ Ordering.lt → cmp a c ≡ Ordering.lt
  pub eq_congr : (a b c : A) → cmp a b ≡ Ordering.eq → cmp a c ≡ cmp b c

module _ {ℓ} {A : Type ℓ} where
  -- A key compared as a number.
  pub IsWeakOrder-key : (f : A → ℕ) → IsWeakOrder (λ a b. compare (f a) (f b))
  IsWeakOrder-key f = record {
    swap = λ a b. ground arith;
    lt_trans = λ a b c p q. ground arith;
    eq_congr = λ a b c p. ground arith;
  }

  pub IsWeakOrder-flip : {cmp : A → A → Ordering} → IsWeakOrder cmp → IsWeakOrder (λ a b. cmp b a)
  IsWeakOrder-flip {cmp} w = record {
    swap = λ a b. w.swap b a;
    lt_trans = λ a b c p q. w.lt_trans c b a q p;
    eq_congr = λ a b c p. ground (arith, w.swap b a, w.eq_congr a b c, w.swap a c, w.swap b c);
  }

  pub IsWeakOrder-eq : IsWeakOrder {A = A} (λ a b. Ordering.eq)
  IsWeakOrder-eq = record {
    swap = λ a b. refl;
    lt_trans = λ a b c p q. p;
    eq_congr = λ a b c p. refl;
  }

  -- The first comparison decides, and the second breaks its ties.
  pub IsWeakOrder-then_with :
      {f g : A → A → Ordering}
      → IsWeakOrder f
      → IsWeakOrder g
      → IsWeakOrder (λ a b. then_with (f a b) (g a b))
  IsWeakOrder-then_with {f} {g} u v = record {
    swap = λ a b. ground (arith, u.swap a b, v.swap a b);
    lt_trans = λ a b c p q. ground (
      arith,
      u.lt_trans a b c,
      v.lt_trans a b c,
      u.eq_congr a b c,
      u.eq_congr b c a,
      u.swap a b,
      u.swap a c,
      u.swap b c,
    );
    eq_congr = λ a b c p. ground (arith, u.eq_congr a b c, v.eq_congr a b c);
  }
