-- ===== src/Prelude/Sort.antt =====
-- `slice::sort_by`, a stable sort: what compares as less moves to the front, ties keep their order.
-- Where the comparison is an order up to ties, stability determines the result, and insertion gives
-- it. For other comparisons the library leaves the result open, and may panic: of these the functions
-- here say nothing.

use mathlib.Core.List.{List, [], ◌∷◌}
use Prim.Native.Nat.{Ordering}

module _ {ℓ} {A : Type ℓ} where
  abbrev pub insert_by : (A → A → Ordering) → A → List A → List A
  insert_by cmp x [] = x ∷ []
  insert_by cmp x (y ∷ ys) =
      let rest = insert_by cmp x ys in elim (cmp y x) [ Ordering.lt ↦ y ∷ rest | _ ↦ x ∷ (y ∷ ys) ]

  abbrev pub sort_by : (A → A → Ordering) → List A → List A
  sort_by cmp [] = []
  sort_by cmp (x ∷ xs) = insert_by cmp x (sort_by cmp xs)
