-- ===== src/Exact/Sums.antt =====
-- Sums over the locations of a bit mask, and masks compared by their bits.
use troute.Prelude.{
  ℕ, zero, suc, ◌+◌, ◌-◌, ◌^◌, ◌<◌, ◌≤◌, ◌≡◌, refl, ap, subst, ◌/◌, ◌%◌, ◌⊎◌, inl, inr, Bool-cases,
  true, false, if◌then◌else◌, ◌==◌, some, ltb, get_elem?, List, [], ◌∷◌, arith,
}
use troute.Domain.{Location}
use troute.Exact.Masks.{test_bit, set_bit, covers, required_bits, test_bit-set_bit}

-- What the locations below `n` that are in the mask are worth together.
unfoldable pub mask_sum : (ℕ → ℕ) → (n mask : ℕ) → ℕ
mask_sum worth zero mask = 0
mask_sum worth (suc n) mask = (if test_bit mask n then worth n else 0) + mask_sum worth n mask

-- What all locations below `n` are worth together.
unfoldable pub sum_below : (ℕ → ℕ) → ℕ → ℕ
sum_below worth zero = 0
sum_below worth (suc n) = worth n + sum_below worth n

pub mask_sum-le : (worth : ℕ → ℕ) (n mask : ℕ) → mask_sum worth n mask ≤ sum_below worth n
unfolding mask_sum sum_below
mask_sum-le worth zero mask = omega arith
mask_sum-le worth (suc n) mask = ground (arith, mask_sum-le worth n mask)

-- A location that is added is counted if it is below `n`.
pub mask_sum-set_bit :
    (worth : ℕ → ℕ) (n mask x : ℕ)
    → test_bit mask x ≡ false
    → mask_sum worth n (set_bit mask x) ≡ mask_sum worth n mask + (if ltb x n then worth x else 0)
unfolding mask_sum
mask_sum-set_bit worth zero mask x fresh = ground arith
mask_sum-set_bit worth (suc n) mask x fresh =
    let rest = mask_sum-set_bit worth n mask x fresh in
    let bit = test_bit-set_bit mask x n in
    elim (Bool-cases (x == n)) [
      | inl same ↦
          let eq : x ≡ n = ground arith in
          let w : worth x ≡ worth n = ap worth eq in
          let clear : test_bit mask n ≡ false = subst (λ k. test_bit mask k ≡ false) eq fresh in
          ground arith
      | inr other ↦ ground arith
    ]

pub mask_sum-set_bit_lt :
    (worth : ℕ → ℕ) (n mask x : ℕ)
    → x < n
    → test_bit mask x ≡ false
    → mask_sum worth n (set_bit mask x) ≡ mask_sum worth n mask + worth x
mask_sum-set_bit_lt worth n mask x lt fresh = ground (arith, mask_sum-set_bit worth n mask x fresh)

pub lt-set_bit : (mask x : ℕ) → test_bit mask x ≡ false → mask < set_bit mask x
unfolding test_bit set_bit
lt-set_bit mask zero fresh = ground arith
lt-set_bit mask (suc x) fresh = omega (arith, lt-set_bit (mask / 2) x fresh)

pub set_bit-lt-power : (n mask x : ℕ) → x < n → mask < 2 ^ n → set_bit mask x < 2 ^ n
unfolding set_bit
set_bit-lt-power zero mask x lt h = elim lt [ ]
set_bit-lt-power (suc n) mask zero lt h = omega arith
set_bit-lt-power (suc n) mask (suc x) lt h =
    let smaller = set_bit-lt-power n (mask / 2) x (omega arith) (omega arith) in omega arith

-- A mask with every bit is the full one.
pub full_mask_unique :
    (n mask : ℕ) → mask < 2 ^ n → ((j : ℕ) → j < n → test_bit mask j ≡ true) → mask ≡ 2 ^ n - 1
unfolding test_bit
full_mask_unique zero mask h all = omega arith
full_mask_unique (suc n) mask h all =
    let low = all 0 (omega arith) in
    let high = full_mask_unique n (mask / 2) (omega arith) (λ j lt. all (suc j) (omega arith)) in
    ground arith

pub covers_of_bits :
    (n mask required : ℕ)
    → ((j : ℕ) → j < n → test_bit required j ≡ true → test_bit mask j ≡ true)
    → covers n mask required ≡ true
unfolding covers test_bit
covers_of_bits zero mask required all = refl
covers_of_bits (suc n) mask required all =
    let low = all 0 (omega arith) in
    let high = covers_of_bits n (mask / 2) (required / 2) (λ j lt r. all (suc j) (omega arith) r) in
    elim (Bool-cases (required % 2 == 1)) [
      | inl set ↦ let bit = low set in ground arith
      | inr clear ↦ ground arith
    ]

-- A bit of the mask of required locations is that of one.
pub required_bits-inv :
    (ls : List Location) (position mask j : ℕ)
    → test_bit (required_bits ls position mask) j ≡ true
    → (test_bit mask j ≡ true)
      ⊎ ((k : ℕ) × (l : Location) × (j ≡ position + k)
          × (get_elem? ls k ≡ some l)
          × (l.required ≡ true))
unfolding required_bits
required_bits-inv [] position mask j h = inl h
required_bits-inv (l ∷ ls) position mask j h =
    elim (required_bits-inv ls (suc position) (if l.required then set_bit mask position else mask) j
      h) [
        | inr (k, l', e, found, r) ↦ inr (suc k, l', omega arith, found, r)
        | inl old ↦ elim (Bool-cases l.required) [
          | inr optional ↦ inl (ground arith)
          | inl required ↦ elim (Bool-cases (position == j)) [
            | inl same ↦ inr (0, l, ground arith, refl, required)
            | inr other ↦ inl (ground (arith, test_bit-set_bit mask position j))
          ]
        ]
      ]
