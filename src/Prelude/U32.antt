-- ===== src/Prelude/U32.antt =====
-- The checked and saturating operations of `u32`, as numbers below 2^32.
use Prim.Native.Nat.{ℕ, ◌+◌, ◌-◌, ◌*◌, ◌^◌}
use mathlib.Core.Option.{Option, none, some}
use troute.Prelude.Tests.{ltb, if◌then◌else◌}

abbrev pub modulus : ℕ
modulus = 2 ^ 32

abbrev pub checked_add : ℕ → ℕ → Option ℕ
checked_add a b = if ltb (a + b) modulus then some (a + b) else none

abbrev pub saturating_add : ℕ → ℕ → ℕ
saturating_add a b = if ltb (a + b) modulus then a + b else modulus - 1

abbrev pub checked_mul : ℕ → ℕ → Option ℕ
checked_mul a b = if ltb (a * b) modulus then some (a * b) else none
