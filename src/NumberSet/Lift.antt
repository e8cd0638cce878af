-- ===== src/NumberSet/Lift.antt =====
-- The number set is a set of numbers, on both sides of the lift.
use llvmdg.Common.{
  ℕ, zero, suc, ◌+◌, ◌^◌, ◌≤◌, ◌<◌, ◌≡◌, ◌↔◌, refl, ◌∙◌, ap, Bool, true, not, ◌||◌, List, [], ◌∷◌,
  ◌==◌, arith, Bool-cases, inl, inr,
}
use llvmdg.Std.OrderedSet.{mem}
use llvmdg.Std.Word.{bit_at, with_bit, test_bit}
use llvmdg.Std.Word.Laws.{
  bit_at-test_bit, test_bit-with_bit, with_bit-lt, bit_of_ne_zero, test_bit-lt, bit_and-le,
}
use llvmdg.Bitvector
use llvmdg.Bitvector.{Buckets, positions, shift}
use llvmdg.Bitvector.Order.{IsBitvector, set-IsBitSet}
use llvmdg.Bitvector.Singleton.{singleton-get}
use llvmdg.Bitvector.Elements.{mem-positions, size-eq-zero}
use llvmdg.NumberSet.{
  may_contain, bits_get, bits_set, bits_size_from, bits_size, NumberSet, small, big, add_each, lift,
  add, has, empty, size,
}

-- The representation is sound: one word, or a bit vector with no empty bucket.
abbrev pub IsNumberSet : NumberSet → Type 0
IsNumberSet (small b) = b < 2 ^ 64
IsNumberSet (big m) = IsBitvector m

bits_get-test_bit : (b i : ℕ) → b < 2 ^ 64 → bits_get b i ≡ test_bit b i
unfolding bits_get
bits_get-test_bit b i h = ground (arith, bit_at-test_bit b i, test_bit-lt 64 b i h)

add_each-get :
    (xs : List ℕ) (m : Buckets)
    → IsBitvector m
    → IsBitvector (add_each xs m)
      × ((j : ℕ) → Bitvector.get (add_each xs m) j ≡ (mem xs j || Bitvector.get m j))
unfolding add_each mem
add_each-get [] m v = (v, λ j. refl)
add_each-get (x ∷ xs) m v =
    let first = set-IsBitSet x m v in
    let (valid, bits) = add_each-get xs (Bitvector.set x m).1 first.valid in
    (valid, λ j. ground (arith, bits j, first.bits j))

lift-get :
    (n b : ℕ)
    → b < 2 ^ 64
    → IsBitvector (lift n b) × ((j : ℕ) → Bitvector.get (lift n b) j ≡ (n == j || bits_get b j))
unfolding lift bits_get
lift-get n b h =
    let (one_valid, one) = singleton-get n in
    let (valid, bits) = add_each-get (positions 64 0 b) (Bitvector.singleton n) one_valid in
    (valid, λ j. ground (arith, bits j, one j, mem-positions 64 0 b j))

-- What add makes of a set.
pub record IsInserted (n : ℕ) (s : NumberSet) (r : Bool × NumberSet) : Type 0 where
  pub valid : IsNumberSet r.1
  pub members : (j : ℕ) → has r.1 j ≡ (n == j || has s j)
  pub added : r.0 ≡ not (has s n)

-- add inserts the number and keeps all others, whether the set stays small, is lifted to a big one,
-- or is big already. It returns whether the number was new.
pub add-IsInserted : (n : ℕ) (s : NumberSet) → IsNumberSet s → IsInserted n s (add n s)
unfolding add has bits_set
add-IsInserted n (big m) v =
    let set = set-IsBitSet n m v in
    record { valid = set.valid; members = set.bits; added = ap not set.previous }
add-IsInserted n (small b) v = elim (Bool-cases (may_contain n)) [
  | inl fits ↦
      rw (fits, add)
        (record {
          valid = with_bit-lt b n v (ground arith);
          members = λ j.
              bits_get-test_bit (with_bit b n) j (with_bit-lt b n v (ground arith))
              ∙ ground (arith, test_bit-with_bit b n j, bits_get-test_bit b j v);
          added = ground arith;
        })
  | inr large ↦
      let (valid, bits) = lift-get n b v in
      rw (large, add) (record { valid = valid; members = bits; added = ground arith })
]

bits_size_pos :
    (rounds i b j : ℕ) → bit_at b j ≡ true → i ≤ j → j < i + rounds → 0 < bits_size_from rounds i b
unfolding bits_size_from
bits_size_pos zero i b j set below above = absurd (omega arith)
bits_size_pos (suc rounds) i b j set below above = elim (Bool-cases (i == j)) [
  | inl here ↦ let e : i ≡ j = ground arith in rw (e, set, bits_size_from) (omega arith)
  | inr later ↦ omega (arith, bits_size_pos rounds (suc i) b j set (ground arith) (omega arith))
]

bits_size-zero : (rounds i : ℕ) → bits_size_from rounds i 0 ≡ 0
unfolding bits_size_from bit_at
bits_size-zero zero i = refl
bits_size-zero (suc rounds) i =
    ground (arith, bits_size-zero rounds (suc i), bit_and-le 0 0 (2 ^ i))

bits_size-eq-zero : (b : ℕ) → b < 2 ^ 64 → (b == 0) ≡ (bits_size b == 0)
unfolding bits_size
bits_size-eq-zero b h = elim (Bool-cases (b == 0)) [
  | inl clear ↦ let e : b ≡ 0 = ground arith in rw e (ground (arith, bits_size-zero 64 0))
  | inr other ↦
      let (i, below, set) = bit_of_ne_zero 64 b h (ground arith) in
      ground (
        arith,
        bits_size_pos 64 0 b i (bit_at-test_bit b i h below ∙ set) (omega arith) (omega arith),
      )
]

-- A set is empty just when its size is 0, in either representation.
pub empty-size : (s : NumberSet) → IsNumberSet s → (empty s ≡ true) ↔ (size s ≡ 0)
unfolding empty size
empty-size (small b) v =
    (λ h. ground (arith, bits_size-eq-zero b v), λ h. ground (arith, bits_size-eq-zero b v))
empty-size (big []) v = (λ h. (size-eq-zero [] v).1 refl, λ h. refl)
empty-size (big (e ∷ m)) v = (λ h. absurd (cc h), λ h. absurd (cc ((size-eq-zero (e ∷ m) v).0 h)))
