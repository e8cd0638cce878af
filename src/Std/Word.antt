-- ===== src/Std/Word.antt =====
-- The unsigned machine words of the program, read bit by bit.
pub mod Laws
use Prim.Native.Nat.{bit_and, bit_or}
use llvmdg.Common.{
  ℕ, zero, suc, ◌-◌, ◌+◌, ◌/◌, ◌%◌, ◌^◌, Bool, true, false, not, ◌==◌, if◌then◌else◌,
}

-- word & (1 << k), as a truth value
unfoldable pub bit_at : ℕ → ℕ → Bool
bit_at word k = not (bit_and word (2 ^ k) == 0)

-- word | (1 << k)
unfoldable pub with_bit : ℕ → ℕ → ℕ
with_bit word k = bit_or word (2 ^ k)

-- word & ~(1 << k), in 64 bits
unfoldable pub without_bit : ℕ → ℕ → ℕ
without_bit word k = bit_and word (2 ^ 64 - 1 - 2 ^ k)

-- The bit of a number at a position, from the lowest digit up.
unfoldable pub test_bit : ℕ → ℕ → Bool
test_bit b zero = b % 2 == 1
test_bit b (suc i) = test_bit (b / 2) i

-- How many of the lowest `w` bits are set.
unfoldable pub population : ℕ → ℕ → ℕ
population zero b = 0
population (suc w) b = (if b % 2 == 1 then 1 else 0) + population w (b / 2)
