-- ===== src/Exact/Masks.antt =====
-- Sets of locations as bit masks, with the bit operations of the search by recursion on the bit.
use troute.Prelude.{
  ℕ, zero, suc, ◌+◌, ◌-◌, ◌*◌, ◌^◌, ◌<◌, some, get_elem?, ◌/◌, ◌%◌, Bool, true, ◌||◌, ◌&&◌, not,
  if◌then◌else◌, ◌==◌, ◌≡◌, arith, List, [], ◌∷◌,
}
use troute.Domain.{Location}

-- `mask & (1 << bit) != 0`.
unfoldable pub test_bit : ℕ → ℕ → Bool
test_bit mask zero = mask % 2 == 1
test_bit mask (suc bit) = test_bit (mask / 2) bit

-- `mask | (1 << bit)`.
unfoldable pub set_bit : ℕ → ℕ → ℕ
set_bit mask zero = mask / 2 * 2 + 1
set_bit mask (suc bit) = set_bit (mask / 2) bit * 2 + mask % 2

-- `mask & required == required`, on masks of so many bits.
unfoldable pub covers : ℕ → ℕ → ℕ → Bool
covers zero mask required = true
covers (suc bits) mask required =
    (not (required % 2 == 1) || (mask % 2 == 1)) && covers bits (mask / 2) (required / 2)

-- The mask of the required locations, from the one at `position` on.
unfoldable pub required_bits : List Location → ℕ → ℕ → ℕ
unfolding set_bit
required_bits [] position mask = mask
required_bits (l ∷ ls) position mask =
    required_bits ls (suc position) (if l.required then set_bit mask position else mask)

pub test_bit-set_bit :
    (mask bit other : ℕ)
    → test_bit (set_bit mask bit) other ≡ ((bit == other) || test_bit mask other)
unfolding test_bit set_bit
test_bit-set_bit mask zero zero = ground arith
test_bit-set_bit mask zero (suc other) =
    let half : (mask / 2 * 2 + 1) / 2 ≡ mask / 2 = omega arith in rw half (ground arith)
test_bit-set_bit mask (suc bit) zero = ground arith
test_bit-set_bit mask (suc bit) (suc other) =
    let half : (set_bit (mask / 2) bit * 2 + mask % 2) / 2 ≡ set_bit (mask / 2) bit = omega arith in
    rw half (ground (arith, test_bit-set_bit (mask / 2) bit other))

pub power_pos : (count : ℕ) → 0 < 2 ^ count
power_pos zero = omega arith
power_pos (suc count) = let smaller = power_pos count in omega arith

-- The mask of all locations: `(1 << count) - 1`.
pub test_bit-full : (count bit : ℕ) → bit < count → test_bit (2 ^ count - 1) bit ≡ true
unfolding test_bit
test_bit-full zero bit h = elim h [ ]
test_bit-full (suc count) zero h =
    let double : 2 ^ suc count ≡ 2 * 2 ^ count = omega arith in
    let smaller = power_pos count in rw double (ground arith)
test_bit-full (suc count) (suc bit) h =
    let double : 2 ^ suc count ≡ 2 * 2 ^ count = omega arith in
    let smaller = power_pos count in
    let half : (2 * 2 ^ count - 1) / 2 ≡ 2 ^ count - 1 = omega arith in
    rw double (rw half (test_bit-full count bit (omega arith)))

pub covers-bit :
    (bits mask required bit : ℕ)
    → covers bits mask required ≡ true
    → bit < bits
    → test_bit required bit ≡ true
    → test_bit mask bit ≡ true
unfolding covers test_bit
covers-bit zero mask required bit c h r = elim h [ ]
covers-bit (suc bits) mask required zero c h r = ground arith
covers-bit (suc bits) mask required (suc bit) c h r =
    covers-bit bits (mask / 2) (required / 2) bit (ground arith) (omega arith) r

required_bits-keeps :
    (ls : List Location) (position mask bit : ℕ)
    → test_bit mask bit ≡ true
    → test_bit (required_bits ls position mask) bit ≡ true
unfolding required_bits
required_bits-keeps [] position mask bit h = h
required_bits-keeps (l ∷ ls) position mask bit h =
    required_bits-keeps ls (suc position) (if l.required then set_bit mask position else mask) bit
      (ground (arith, test_bit-set_bit mask position bit))

pub required_bits-set :
    (ls : List Location) (position mask k : ℕ) {l : Location}
    → get_elem? ls k ≡ some l
    → l.required ≡ true
    → test_bit (required_bits ls position mask) (position + k) ≡ true
unfolding required_bits
required_bits-set [] position mask k e r = cc
required_bits-set (l ∷ ls) position mask zero e r =
    required_bits-keeps ls (suc position) (if l.required then set_bit mask position else mask)
      (position + 0) (ground (arith, test_bit-set_bit mask position (position + 0)))
required_bits-set (l ∷ ls) position mask (suc k) e r =
    let shift : position + suc k ≡ suc position + k = omega arith in
    rw shift (
      required_bits-set ls (suc position) (if l.required then set_bit mask position else mask) k e
        r)
