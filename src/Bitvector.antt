-- ===== src/Bitvector.antt =====
-- include/dg/ADT/Bitvector.h: SparseBitvectorImpl over 64-bit buckets in an ordered map from the
-- shift of a bucket, a multiple of 64, to its bits.
pub mod Order
pub mod Singleton
pub mod Unset
pub mod Union
pub mod Elements
pub mod Iterator
pub mod Size
pub mod Tests
use llvmdg.Common.{
  ℕ, zero, suc, ◌+◌, ◌-◌, ◌/◌, ◌%◌, ◌^◌, Bool, true, false, not, ◌||◌, List, [], ◌∷◌, ◌++◌, map,
  Option, none, some, ◌==◌, if◌then◌else◌, is_empty,
}
use llvmdg.Std.OrderedMap.{find, assign, erase, emplace, value_or}
use llvmdg.Std.Word.{bit_at, with_bit, without_bit}
use Prim.Native.Nat.{bit_or}

abbrev pub Buckets : Type 0
Buckets = List (ℕ × ℕ)

-- BITS_IN_BUCKET
abbrev pub bucket_bits : ℕ
bucket_bits = 64

-- _shift
abbrev pub shift : ℕ → ℕ
shift i = i - i % bucket_bits

-- _countBits; a word has no more than `rounds` bits.
unfoldable pub count_bits : ℕ → ℕ → ℕ
count_bits zero bits = 0
count_bits (suc rounds) bits =
    let rest = count_bits rounds (bits / 2) in
    if bits == 0 then 0 else (if bits % 2 == 1 then 1 + rest else rest)

-- _addBit, and the constructor of a singleton
unfoldable pub add_bit : ℕ → Buckets → Buckets
unfolding emplace
add_bit i m = emplace (shift i) (2 ^ (i - shift i)) m

unfoldable pub singleton : ℕ → Buckets
unfolding add_bit
singleton i = add_bit i []

unfoldable pub get : Buckets → ℕ → Bool
get m i = elim (find (shift i) m) [ none ↦ false | some bits ↦ bit_at bits (i - shift i) ]

-- set(i): the previous value of the bit, and the new vector
unfoldable pub set : ℕ → Buckets → Bool × Buckets
set i m =
    let bits = value_or 0 (find (shift i) m) in
    (bit_at bits (i - shift i), assign (shift i) (with_bit bits (i - shift i)) m)

-- set(rhs): the union, and whether it changed this vector
unfoldable pub set_union : Buckets → Buckets → Bool × Buckets
set_union [] m = (false, m)
set_union ((k, rhs) ∷ r) m =
    let old = value_or 0 (find k m) in
    let new = bit_or old rhs in
    let rest = set_union r (assign k new m) in (not (old == new) || rest.0, rest.1)

-- unset: `true` where the bucket of the bit exists
unfoldable pub unset : ℕ → Buckets → Bool × Buckets
unset i m = elim (find (shift i) m) [
  | none ↦ (false, m)
  | some bits ↦ (
    true,
    if without_bit bits (i - shift i) == 0
        then erase (shift i) m
        else assign (shift i) (without_bit bits (i - shift i)) m,
  )
]

-- size
unfoldable pub size : Buckets → ℕ
size [] = 0
size ((k, bits) ∷ m) = count_bits bucket_bits bits + size m

-- The positions at which an iterator stops in a bucket, from `pos` on.
unfoldable pub positions : ℕ → ℕ → ℕ → List ℕ
positions zero pos bits = []
positions (suc rounds) pos bits =
    let rest = positions rounds (suc pos) bits in if bit_at bits pos then pos ∷ rest else rest

-- The numbers that an iteration over the vector visits, in order (Bitvector/Iterator has its steps).
unfoldable pub elements : Buckets → List ℕ
elements [] = []
elements ((k, bits) ∷ m) = map (λ pos. k + pos) (positions bucket_bits 0 bits) ++ elements m
