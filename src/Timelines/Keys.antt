-- ===== src/Timelines/Keys.antt =====
-- src/observation.rs: the keys of the map of a store, in the order of insertion.
use text.Mathlib.Text.{◌==◌}
use text.Mathlib.TextEquality.{eq_iff}
use troute.Prelude.{
  suc, ◌≤◌, ◌≡◌, refl, sym, ap, ◌∙◌, inl, inr, Bool, true, false, not, Bool-cases, String, none,
  List, [], ◌∷◌, ◌++◌, length, arith,
}
use troute.Prelude.Loops.{any, retain}
use troute.Timelines.{get, remove, update}

abbrev pub has : String → List String → Bool
has k = any (λ j. j == k)

-- No key stands twice.
abbrev pub Distinct : List String → Type 0
Distinct [] = Unit
Distinct (k ∷ ks) = (has k ks ≡ false) × Distinct ks

abbrev pub keys {ℓ} : {V : Type ℓ} → List (String × V) → List String
keys [] = []
keys ((k, v) ∷ m) = k ∷ keys m

pub has-append :
    (k : String) (xs ys : List String)
    → has k xs ≡ false
    → has k ys ≡ false
    → has k (xs ++ ys) ≡ false
has-append k [] ys h h' = h'
has-append k (x ∷ xs) ys h h' = elim (Bool-cases (x == k)) [
  | inl same ↦ cc (rw same at h)
  | inr other ↦ rw other (has-append k xs ys (rw other at h) h')
]

pub has-retain :
    (k : String) (test : String → Bool) (xs : List String)
    → has k xs ≡ false
    → has k (retain test xs) ≡ false
has-retain k test [] h = refl
has-retain k test (x ∷ xs) h = elim (Bool-cases (x == k)) [
  | inl same ↦ cc (rw same at h)
  | inr other ↦
      let rest = has-retain k test xs (rw other at h) in
      elim (Bool-cases (test x)) [ inl t ↦ rw t (rw other rest) | inr t ↦ rw t rest ]
]

pub Distinct-retain :
    (test : String → Bool) (xs : List String) → Distinct xs → Distinct (retain test xs)
Distinct-retain test [] d = tt
Distinct-retain test (x ∷ xs) d =
    let rest = Distinct-retain test xs d.1 in
    elim (Bool-cases (test x)) [ inl t ↦ rw t (has-retain x test xs d.0, rest) | inr t ↦ rw t rest ]

pub Distinct-snoc :
    (xs : List String) (k : String) → Distinct xs → has k xs ≡ false → Distinct (xs ++ (k ∷ []))
Distinct-snoc [] k d h = (refl, tt)
Distinct-snoc (x ∷ xs) k d h = elim (Bool-cases (x == k)) [
  | inl same ↦ cc (rw same at h)
  | inr other ↦
      let h' : has k xs ≡ false = rw other at h in
      let flipped : (k == x) ≡ false = ground (arith, eq_iff k x, eq_iff x k) in
      (has-append x xs (k ∷ []) d.0 (rw flipped refl), Distinct-snoc xs k d.1 h')
]

module _ {ℓ} {V : Type ℓ} where
  pub keys-remove :
      (k : String) (m : List (String × V)) → keys (remove k m) ≡ retain (λ j. not (j == k)) (keys m)
  keys-remove k [] = refl
  keys-remove k ((j, v) ∷ m) =
      let rest = keys-remove k m in
      elim (Bool-cases (j == k)) [
        | inl same ↦ rw same rest
        | inr other ↦ rw other (ap (λ t. j ∷ t) rest)
      ]

  pub keys-update : (k : String) (f : V → V) (m : List (String × V)) → keys (update k f m) ≡ keys m
  keys-update k f [] = refl
  keys-update k f ((j, v) ∷ m) = elim (Bool-cases (j == k)) [
    | inl same ↦ rw same refl
    | inr other ↦ rw other (ap (λ t. j ∷ t) (keys-update k f m))
  ]

  pub keys-append : (m m' : List (String × V)) → keys (m ++ m') ≡ keys m ++ keys m'
  keys-append [] m' = refl
  keys-append ((j, v) ∷ m) m' = ap (λ t. j ∷ t) (keys-append m m')

  pub length-keys : (m : List (String × V)) → length (keys m) ≡ length m
  length-keys [] = refl
  length-keys ((j, v) ∷ m) = ap suc (length-keys m)

  pub has-get : (k : String) (m : List (String × V)) → get k m ≡ none → has k (keys m) ≡ false
  has-get k [] h = refl
  has-get k ((j, v) ∷ m) h = elim (Bool-cases (j == k)) [
    | inl same ↦ cc (rw same at h)
    | inr other ↦ rw other (has-get k m (rw other at h))
  ]

  pub remove_absent : (k : String) (m : List (String × V)) → has k (keys m) ≡ false → remove k m ≡ m
  remove_absent k [] h = refl
  remove_absent k ((j, v) ∷ m) h = elim (Bool-cases (j == k)) [
    | inl same ↦ cc (rw same at h)
    | inr other ↦ rw other (ap (λ t. (j, v) ∷ t) (remove_absent k m (rw other at h)))
  ]

  pub remove_first :
      (k : String) (v : V) (m : List (String × V))
      → has k (keys m) ≡ false
      → remove k ((k, v) ∷ m) ≡ m
  remove_first k v m h =
      let same : (k == k) ≡ true = (eq_iff k k).1 refl in rw same (remove_absent k m h)

  pub length-remove : (k : String) (m : List (String × V)) → length (remove k m) ≤ length m
  length-remove k [] = omega arith
  length-remove k ((j, v) ∷ m) =
      let rest = length-remove k m in
      elim (Bool-cases (j == k)) [
        | inl same ↦ rw same (omega arith)
        | inr other ↦ rw other (omega arith)
      ]

  pub length-update :
      (k : String) (f : V → V) (m : List (String × V)) → length (update k f m) ≡ length m
  length-update k f m =
      sym (length-keys (update k f m)) ∙ ap length (keys-update k f m) ∙ length-keys m
