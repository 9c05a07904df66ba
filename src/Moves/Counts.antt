-- ===== src/Moves/Counts.antt =====
-- src/solver/heuristic/annealing/neighbor.rs: the locations and the ends of a route under the
-- operations on vectors.
use mathlib.Core.List.{reverse, reverse-cons}
use troute.Prelude.{
  ℕ, zero, suc, ◌+◌, ◌<◌, ◌≡◌, refl, sym, ap, ◌∙◌, ◌==◌, if◌then◌else◌, Bool-cases, false, inl, inr,
  List, [], ◌∷◌, ◌++◌, length, get_or, set, first, last, length-set, length-append, arith,
}
use troute.Initial.Counts.{count, count-append}
use troute.Moves.{contains, remove_at, insert_at, take, drop, reverse_slice}

pub count-set :
    (x : ℕ) (xs : List ℕ) (i v : ℕ)
    → i < length xs
    → count x (set xs i v) + (if get_or xs i 0 == x then 1 else 0)
      ≡ count x xs + (if v == x then 1 else 0)
count-set x [] i v h = absurd (omega arith)
count-set x (y ∷ ys) zero v h = omega arith
count-set x (y ∷ ys) (suc i) v h = omega (arith, count-set x ys i v)

pub count-remove_at :
    (x : ℕ) (xs : List ℕ) (i : ℕ)
    → i < length xs
    → count x (remove_at i xs) + (if get_or xs i 0 == x then 1 else 0) ≡ count x xs
count-remove_at x [] i h = absurd (omega arith)
count-remove_at x (y ∷ ys) zero h = omega arith
count-remove_at x (y ∷ ys) (suc i) h = omega (arith, count-remove_at x ys i)

pub count-insert_at :
    (x : ℕ) (i v : ℕ) (xs : List ℕ)
    → count x (insert_at i v xs) ≡ count x xs + (if v == x then 1 else 0)
count-insert_at x zero v xs = omega arith
count-insert_at x (suc i) v [] = omega arith
count-insert_at x (suc i) v (y ∷ ys) = omega (arith, count-insert_at x i v ys)

pub count-reverse : (x : ℕ) (xs : List ℕ) → count x (reverse xs) ≡ count x xs
count-reverse x [] = refl
count-reverse x (y ∷ ys) =
    ap (count x) (reverse-cons y ys)
    ∙ omega (arith, count-append x (reverse ys) (y ∷ []), count-reverse x ys)

count-take-drop : (x n : ℕ) (xs : List ℕ) → count x (take n xs) + count x (drop n xs) ≡ count x xs
count-take-drop x zero xs = omega arith
count-take-drop x (suc n) [] = omega arith
count-take-drop x (suc n) (y ∷ ys) = omega (arith, count-take-drop x n ys)

pub count-reverse_slice :
    (x start places : ℕ) (xs : List ℕ) → count x (reverse_slice start places xs) ≡ count x xs
count-reverse_slice x zero places xs = omega (
  arith,
  count-append x (reverse (take places xs)) (drop places xs),
  count-reverse x (take places xs),
  count-take-drop x places xs,
)
count-reverse_slice x (suc start) places [] = refl
count-reverse_slice x (suc start) places (y ∷ ys) =
    omega (arith, count-reverse_slice x start places ys)

-- The first place is not touched.
pub first-set : (xs : List ℕ) (i v : ℕ) → 0 < i → first (set xs i v) ≡ first xs
first-set [] i v h = refl
first-set (x ∷ xs) zero v h = absurd (omega arith)
first-set (x ∷ xs) (suc i) v h = refl

pub first-remove_at : (xs : List ℕ) (i : ℕ) → 0 < i → first (remove_at i xs) ≡ first xs
first-remove_at [] i h = refl
first-remove_at (x ∷ xs) zero h = absurd (omega arith)
first-remove_at (x ∷ xs) (suc i) h = refl

pub first-insert_at :
    (xs : List ℕ) (i v : ℕ) → 0 < i → 0 < length xs → first (insert_at i v xs) ≡ first xs
first-insert_at [] i v h l = absurd (omega arith)
first-insert_at (x ∷ xs) zero v h l = absurd (omega arith)
first-insert_at (x ∷ xs) (suc i) v h l = refl

pub first-reverse_slice :
    (xs : List ℕ) (start places : ℕ) → 0 < start → first (reverse_slice start places xs) ≡ first xs
first-reverse_slice xs zero places h = absurd (omega arith)
first-reverse_slice [] (suc start) places h = refl
first-reverse_slice (x ∷ xs) (suc start) places h = refl

-- Nor is the last.
last-cons : (x : ℕ) (xs : List ℕ) → 0 < length xs → last (x ∷ xs) ≡ last xs
last-cons x [] h = absurd (omega arith)
last-cons x (y ∷ ys) h = refl

pub last-set : (xs : List ℕ) (i v : ℕ) → i + 1 < length xs → last (set xs i v) ≡ last xs
last-set [] i v h = refl
last-set (x ∷ []) i v h = absurd (omega arith)
last-set (x ∷ (y ∷ ys)) zero v h = refl
last-set (x ∷ (y ∷ ys)) (suc i) v h =
    last-cons x (set (y ∷ ys) i v) (omega (arith, length-set (y ∷ ys) i v))
    ∙ last-set (y ∷ ys) i v (omega arith)

pub length-remove_at :
    (xs : List ℕ) (i : ℕ) → i < length xs → suc (length (remove_at i xs)) ≡ length xs
length-remove_at [] i h = absurd (omega arith)
length-remove_at (x ∷ xs) zero h = refl
length-remove_at (x ∷ xs) (suc i) h = ap suc (length-remove_at xs i (omega arith))

pub last-remove_at : (xs : List ℕ) (i : ℕ) → i + 1 < length xs → last (remove_at i xs) ≡ last xs
last-remove_at [] i h = refl
last-remove_at (x ∷ []) i h = absurd (omega arith)
last-remove_at (x ∷ (y ∷ ys)) zero h = refl
last-remove_at (x ∷ (y ∷ ys)) (suc i) h =
    last-cons x (remove_at i (y ∷ ys)) (omega (arith, length-remove_at (y ∷ ys) i))
    ∙ last-remove_at (y ∷ ys) i (omega arith)

length-insert_at : (xs : List ℕ) (i v : ℕ) → length (insert_at i v xs) ≡ suc (length xs)
length-insert_at xs zero v = refl
length-insert_at [] (suc i) v = refl
length-insert_at (x ∷ xs) (suc i) v = ap suc (length-insert_at xs i v)

pub last-insert_at : (xs : List ℕ) (i v : ℕ) → i < length xs → last (insert_at i v xs) ≡ last xs
last-insert_at [] i v h = absurd (omega arith)
last-insert_at (x ∷ xs) zero v h = refl
last-insert_at (x ∷ []) (suc i) v h = absurd (omega arith)
last-insert_at (x ∷ (y ∷ ys)) (suc i) v h =
    last-cons x (insert_at i v (y ∷ ys)) (omega (arith, length-insert_at (y ∷ ys) i v))
    ∙ last-insert_at (y ∷ ys) i v (omega arith)

last-append : (xs ys : List ℕ) → 0 < length ys → last (xs ++ ys) ≡ last ys
last-append [] ys h = refl
last-append (x ∷ xs) ys h =
    last-cons x (xs ++ ys) (omega (arith, length-append xs ys)) ∙ last-append xs ys h

last-drop :
    (n : ℕ) (xs : List ℕ) → n < length xs → (last (drop n xs) ≡ last xs) × (0 < length (drop n xs))
last-drop zero xs h = (refl, h)
last-drop (suc n) [] h = absurd (omega arith)
last-drop (suc n) (x ∷ xs) h =
    let (same, some_left) = last-drop n xs (omega arith) in
    (same ∙ sym (last-cons x xs (omega arith)), some_left)

reverse_slice_some_left :
    (xs : List ℕ) (start places : ℕ)
    → start + places < length xs
    → 0 < length (reverse_slice start places xs)
reverse_slice_some_left xs zero places h =
    let (same, some_left) = last-drop places xs (omega arith) in
    omega (arith, length-append (reverse (take places xs)) (drop places xs))
reverse_slice_some_left [] (suc start) places h = absurd (omega arith)
reverse_slice_some_left (x ∷ xs) (suc start) places h = omega arith

pub last-reverse_slice :
    (xs : List ℕ) (start places : ℕ)
    → start + places < length xs
    → last (reverse_slice start places xs) ≡ last xs
last-reverse_slice xs zero places h =
    let (same, some_left) = last-drop places xs (omega arith) in
    last-append (reverse (take places xs)) (drop places xs) some_left ∙ same
last-reverse_slice [] (suc start) places h = refl
last-reverse_slice (x ∷ xs) (suc start) places h =
    last-cons x (reverse_slice start places xs)
      (reverse_slice_some_left xs start places (omega arith))
    ∙ last-reverse_slice xs start places (omega arith)
    ∙ sym (last-cons x xs (omega arith))

-- A location that a route does not contain stands in it at no place.
pub count-contains : (x : ℕ) (xs : List ℕ) → contains xs x ≡ false → count x xs ≡ 0
count-contains x [] h = refl
count-contains x (y ∷ ys) h = elim (Bool-cases (y == x)) [
  | inl same ↦ ground arith
  | inr other ↦ let rest = count-contains x ys (ground arith) in ground arith
]
