-- ===== src/Std/Word/Laws.antt =====
-- The native bit operations at variables, by the digit recursion that they stand for.
use Prim.Native.Nat.{bit_and, bit_or, digits, bit_and-bitwise, bit_or-bitwise}
use native.Mathlib.Nat.{pow-suc}
use llvmdg.Common.{
  ℕ, zero, suc, ◌+◌, ◌-◌, ◌*◌, ◌/◌, ◌%◌, ◌^◌, ◌≤◌, ◌<◌, min, max, ◌≡◌, ◌≢◌, ◌∙◌, refl, ap, true,
  false, not, ◌&&◌, ◌||◌, ◌==◌, arith, if◌then◌else◌, ltb, Bool-cases, inl, inr,
}
use llvmdg.Std.Word.{bit_at, with_bit, without_bit, test_bit}

abbrev and_rounds : ℕ → ℕ → ℕ → ℕ
and_rounds n a b = digits (λ b. zero) min n a b

abbrev or_rounds : ℕ → ℕ → ℕ → ℕ
or_rounds n a b = digits (λ b. b) max n a b

-- Rounds beyond the first operand change nothing.
and_rounds_enough : (n m a b : ℕ) → a ≤ n → a ≤ m → and_rounds n a b ≡ and_rounds m a b
and_rounds_enough zero zero a b p q = refl
and_rounds_enough zero (suc m) zero b p q = refl
and_rounds_enough zero (suc m) (suc a) b p q = absurd (omega arith)
and_rounds_enough (suc n) zero zero b p q = refl
and_rounds_enough (suc n) zero (suc a) b p q = absurd (omega arith)
and_rounds_enough (suc n) (suc m) zero b p q = refl
and_rounds_enough (suc n) (suc m) (suc a) b p q =
    omega (arith, and_rounds_enough n m (suc a / 2) (b / 2) (omega arith) (omega arith))

or_rounds_enough : (n m a b : ℕ) → a ≤ n → a ≤ m → or_rounds n a b ≡ or_rounds m a b
or_rounds_enough zero zero a b p q = refl
or_rounds_enough zero (suc m) zero b p q = refl
or_rounds_enough zero (suc m) (suc a) b p q = absurd (omega arith)
or_rounds_enough (suc n) zero zero b p q = refl
or_rounds_enough (suc n) zero (suc a) b p q = absurd (omega arith)
or_rounds_enough (suc n) (suc m) zero b p q = refl
or_rounds_enough (suc n) (suc m) (suc a) b p q =
    omega (arith, or_rounds_enough n m (suc a / 2) (b / 2) (omega arith) (omega arith))

and_digit : (a b : ℕ) → bit_and a b ≡ bit_and (a / 2) (b / 2) * 2 + min (a % 2) (b % 2)
and_digit zero b = omega (arith, bit_and-bitwise 0 b, bit_and-bitwise 0 (b / 2))
and_digit (suc a) b = omega (
  arith,
  bit_and-bitwise (suc a) b,
  bit_and-bitwise (suc a / 2) (b / 2),
  and_rounds_enough a (suc a / 2) (suc a / 2) (b / 2) (omega arith) (omega arith),
)

or_digit : (a b : ℕ) → bit_or a b ≡ bit_or (a / 2) (b / 2) * 2 + max (a % 2) (b % 2)
or_digit zero b = omega (arith, bit_or-bitwise 0 b, bit_or-bitwise 0 (b / 2))
or_digit (suc a) b = omega (
  arith,
  bit_or-bitwise (suc a) b,
  bit_or-bitwise (suc a / 2) (b / 2),
  or_rounds_enough a (suc a / 2) (suc a / 2) (b / 2) (omega arith) (omega arith),
)

pub test_bit-and : (a b i : ℕ) → test_bit (bit_and a b) i ≡ (test_bit a i && test_bit b i)
unfolding test_bit
test_bit-and a b zero = ground (arith, and_digit a b)
test_bit-and a b (suc i) =
    let e : bit_and a b / 2 ≡ bit_and (a / 2) (b / 2) = omega (arith, and_digit a b) in
    rw e (test_bit-and (a / 2) (b / 2) i)

pub test_bit-or : (a b i : ℕ) → test_bit (bit_or a b) i ≡ (test_bit a i || test_bit b i)
unfolding test_bit
test_bit-or a b zero = ground (arith, or_digit a b)
test_bit-or a b (suc i) =
    let e : bit_or a b / 2 ≡ bit_or (a / 2) (b / 2) = omega (arith, or_digit a b) in
    rw e (test_bit-or (a / 2) (b / 2) i)

pub test_bit-zero : (i : ℕ) → test_bit 0 i ≡ false
unfolding test_bit
test_bit-zero zero = refl
test_bit-zero (suc i) = test_bit-zero i

pub pow-double : (k : ℕ) → 2 ^ suc k ≡ 2 * 2 ^ k
pow-double k = omega (arith, pow-suc 2 k)

pub test_bit-pow : (k i : ℕ) → test_bit (2 ^ k) i ≡ (k == i)
unfolding test_bit
test_bit-pow zero zero = refl
test_bit-pow zero (suc i) = test_bit-zero i ∙ ground arith
test_bit-pow (suc k) zero = ground (arith, pow-double k)
test_bit-pow (suc k) (suc i) =
    let e : 2 ^ suc k / 2 ≡ 2 ^ k = omega (arith, pow-double k) in
    rw e (test_bit-pow k i ∙ ground arith)

-- The complement of a word of `w` bits
pub test_bit-complement :
    (w x i : ℕ) → x < 2 ^ w → i < w → test_bit (2 ^ w - 1 - x) i ≡ not (test_bit x i)
unfolding test_bit
test_bit-complement zero x i h l = absurd (omega arith)
test_bit-complement (suc w) x zero h l = ground (arith, pow-double w)
test_bit-complement (suc w) x (suc i) h l =
    let e : (2 ^ suc w - 1 - x) / 2 ≡ 2 ^ w - 1 - x / 2 = omega (arith, pow-double w) in
    rw e (test_bit-complement w (x / 2) i (omega (arith, pow-double w)) (omega arith))

pub test_bit-lt : (w x i : ℕ) → x < 2 ^ w → w ≤ i → test_bit x i ≡ false
unfolding test_bit
test_bit-lt zero x i h l = let e : x ≡ 0 = omega (arith, h) in rw e (test_bit-zero i)
test_bit-lt (suc w) x zero h l = absurd (omega arith)
test_bit-lt (suc w) x (suc i) h l =
    test_bit-lt w (x / 2) i (omega (arith, pow-double w)) (omega arith)

pub bit_or-lt : (w a b : ℕ) → a < 2 ^ w → b < 2 ^ w → bit_or a b < 2 ^ w
bit_or-lt zero a b h k =
    let e : a ≡ 0 = omega arith in let f : b ≡ 0 = omega arith in rw (e, f) (omega arith)
bit_or-lt (suc w) a b h k = omega (
  arith,
  or_digit a b,
  pow-double w,
  bit_or-lt w (a / 2) (b / 2) (omega (arith, pow-double w)) (omega (arith, pow-double w)),
)

pub bit_and-le : (w a b : ℕ) → a < 2 ^ w → bit_and a b ≤ a
bit_and-le zero a b h = let e : a ≡ 0 = omega arith in rw e (omega (arith, bit_and-bitwise 0 b))
bit_and-le (suc w) a b h =
    omega (arith, and_digit a b, bit_and-le w (a / 2) (b / 2) (omega (arith, pow-double w)))

pub pow-lt : (k w : ℕ) → k < w → 2 ^ k < 2 ^ w
pow-lt zero zero h = absurd (omega arith)
pow-lt zero (suc w) h = omega (arith, pow-double w, pow_pos w)
  where
    pow_pos : (w : ℕ) → 0 < 2 ^ w
    pow_pos zero = omega arith
    pow_pos (suc w) = omega (arith, pow-double w, pow_pos w)
pow-lt (suc k) zero h = absurd (omega arith)
pow-lt (suc k) (suc w) h = omega (arith, pow-double k, pow-double w, pow-lt k w (omega arith))

-- A number is zero when all its bits are clear.
pub zero_of_bits : (w x : ℕ) → x < 2 ^ w → ((i : ℕ) → test_bit x i ≡ false) → x ≡ 0
unfolding test_bit
zero_of_bits zero x h clear = omega arith
zero_of_bits (suc w) x h clear =
    let half = zero_of_bits w (x / 2) (omega (arith, pow-double w)) (λ i. clear (suc i)) in
    ground (arith, clear 0, half)

-- A word that is not zero has a bit.
pub bit_of_ne_zero : (w x : ℕ) → x < 2 ^ w → x ≢ 0 → (i : ℕ) × (i < w) × (test_bit x i ≡ true)
unfolding test_bit
bit_of_ne_zero zero x h n = absurd (omega arith)
bit_of_ne_zero (suc w) x h n = elim (Bool-cases (x % 2 == 1)) [
  | inl odd ↦ (0, omega arith, odd)
  | inr even ↦
      let (i, lt, set) = bit_of_ne_zero w (x / 2) (omega (arith, pow-double w)) (ground arith) in
      (suc i, omega arith, set)
]

bits-clear : (word k i : ℕ) → test_bit word k ≡ false → test_bit (bit_and word (2 ^ k)) i ≡ false
bits-clear word k i clear = elim (Bool-cases (k == i)) [
  | inl same ↦
      let e : k ≡ i = ground arith in
      ground (arith, test_bit-and word (2 ^ k) i, ap (test_bit word) e)
  | inr other ↦ ground (arith, test_bit-and word (2 ^ k) i, test_bit-pow k i)
]

-- The three operations on one bit, in terms of the bits of the word.
pub bit_at-test_bit : (word k : ℕ) → word < 2 ^ 64 → k < 64 → bit_at word k ≡ test_bit word k
unfolding bit_at
bit_at-test_bit word k h l = elim (Bool-cases (test_bit word k)) [
  | inl set ↦
      let bit = test_bit-and word (2 ^ k) k in
      elim (Bool-cases (bit_and word (2 ^ k) == 0)) [
        | inl cleared ↦
            let e : bit_and word (2 ^ k) ≡ 0 = ground arith in
            ground (arith, ap (λ t. test_bit t k) e, bit, test_bit-zero k, test_bit-pow k k)
        | inr other ↦ ground arith
      ]
  | inr clear ↦
      let none_set = λ (i : ℕ). bits-clear word k i clear in
      let e =
        zero_of_bits 64 (bit_and word (2 ^ k)) (omega (arith, bit_and-le 64 word (2 ^ k) h))
          none_set in
      ground arith
]

pub test_bit-with_bit : (word k i : ℕ) → test_bit (with_bit word k) i ≡ (k == i || test_bit word i)
unfolding with_bit
test_bit-with_bit word k i = ground (arith, test_bit-or word (2 ^ k) i, test_bit-pow k i)

pub with_bit-lt : (word k : ℕ) → word < 2 ^ 64 → k < 64 → with_bit word k < 2 ^ 64
unfolding with_bit
with_bit-lt word k h l = bit_or-lt 64 word (2 ^ k) h (pow-lt k 64 l)

pub test_bit-without_bit :
    (word k i : ℕ)
    → word < 2 ^ 64
    → k < 64
    → test_bit (without_bit word k) i ≡ (if k == i then false else test_bit word i)
unfolding without_bit
test_bit-without_bit word k i h l = elim (Bool-cases (ltb i 64)) [
  | inl low ↦
      let mask = test_bit-complement 64 (2 ^ k) i (pow-lt k 64 l) (ground arith) in
      ground (arith, test_bit-and word (2 ^ 64 - 1 - 2 ^ k) i, mask, test_bit-pow k i)
  | inr high ↦
      ground
        (arith, test_bit-and word (2 ^ 64 - 1 - 2 ^ k) i, test_bit-lt 64 word i h (ground arith))
]

pub without_bit-lt : (word k : ℕ) → word < 2 ^ 64 → without_bit word k < 2 ^ 64
unfolding without_bit
without_bit-lt word k h = omega (arith, bit_and-le 64 word (2 ^ 64 - 1 - 2 ^ k) h)
