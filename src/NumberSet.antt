-- ===== src/NumberSet.antt =====
-- include/dg/ADT/Bits.h (the class Bits) and include/dg/ADT/NumberSet.h: a set of numbers that is one
-- word as long as all its elements are below 64, and a bit vector from then on.
pub mod Lift
pub mod Tests
use llvmdg.Common.{
  ℕ, zero, suc, ◌+◌, ◌-◌, Bool, true, false, not, ◌&&◌, List, [], ◌∷◌, ◌==◌, ltb, leb,
  if◌then◌else◌, is_empty,
}
use llvmdg.Std.Word.{bit_at, with_bit}
use llvmdg.Bitvector
use llvmdg.Bitvector.{Buckets, positions}

-- Bits: the word, and its methods
abbrev pub Bits : Type 0
Bits = ℕ

abbrev pub may_contain : ℕ → Bool
may_contain i = ltb i 64

unfoldable pub bits_get : Bits → ℕ → Bool
bits_get b i = if may_contain i then bit_at b i else false

unfoldable pub bits_set : ℕ → Bits → Bool × Bits
unfolding bits_get
bits_set i b = (bits_get b i, with_bit b i)

unfoldable pub bits_size_from : ℕ → ℕ → Bits → ℕ
bits_size_from zero i b = 0
bits_size_from (suc rounds) i b = (if bit_at b i then 1 else 0) + bits_size_from rounds (suc i) b

unfoldable pub bits_size : Bits → ℕ
bits_size = bits_size_from 64 0

-- The numbers that an iteration over the word visits, in order.
abbrev pub bits_elements : Bits → List ℕ
bits_elements = positions 64 0

-- ShiftedBits: a word, and the position of its lowest bit
pub record ShiftedBits : Type 0 where
  pub bits : ℕ
  pub shift : ℕ

abbrev pub shifted_may_contain : ShiftedBits → ℕ → Bool
shifted_may_contain s i = leb s.shift i && ltb (i - s.shift) 64

unfoldable pub shifted_get : ShiftedBits → ℕ → Bool
shifted_get s i = if shifted_may_contain s i then bit_at s.bits (i - s.shift) else false

unfoldable pub shifted_set : ℕ → ShiftedBits → Bool × ShiftedBits
unfolding shifted_get
shifted_set i s =
    (shifted_get s i, record { bits = with_bit s.bits (i - s.shift); shift = s.shift })

-- SmallNumberSet: the union, with the flag is_small as its constructor
pub data NumberSet : Type 0 where
  small : Bits → NumberSet
  big : Buckets → NumberSet

abbrev pub empty_set : NumberSet
empty_set = small 0

-- The loop of _lift, which adds the elements of the word to the big set.
unfoldable pub add_each : List ℕ → Buckets → Buckets
add_each [] m = m
add_each (x ∷ xs) m = add_each xs (Bitvector.set x m).1

-- _lift
unfoldable pub lift : ℕ → Bits → Buckets
unfolding add_each
lift n b = add_each (bits_elements b) (Bitvector.singleton n)

unfoldable pub add : ℕ → NumberSet → Bool × NumberSet
unfolding bits_set lift
add n (small b) =
    if may_contain n then (not (bits_set n b).0, small (bits_set n b).1) else (true, big (lift n b))
add n (big m) = (not (Bitvector.set n m).0, big (Bitvector.set n m).1)

unfoldable pub has : NumberSet → ℕ → Bool
unfolding bits_get
has (small b) n = bits_get b n
has (big m) n = Bitvector.get m n

unfoldable pub empty : NumberSet → Bool
empty (small b) = b == 0
empty (big m) = is_empty m

unfoldable pub size : NumberSet → ℕ
size (small b) = bits_size b
size (big m) = Bitvector.size m
