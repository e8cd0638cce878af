-- ===== src/Bitvector/Iterator.antt =====
-- include/dg/ADT/Bitvector.h: const_iterator, step by step, and the loop from begin to end.
use llvmdg.Common.{
  ℕ, zero, suc, ◌+◌, ◌-◌, ◌<◌, ◌≡◌, ◌==◌, List, [], ◌∷◌, ◌++◌, map, Option, none, some,
  if◌then◌else◌, ltb, ◌>>=◌,
}
use llvmdg.Std.Word.{bit_at}
use llvmdg.Bitvector.{Buckets, bucket_bits, positions, elements}
use llvmdg.Bitvector.Order.{IsBitvector}

-- const_iterator: the buckets from container_it on, and pos
pub record ConstIterator : Type 0 where
  pub container : Buckets
  pub pos : ℕ

abbrev pub iterator : Buckets → ℕ → ConstIterator
iterator m pos = record { container = m; pos = pos }

-- _findClosestBit, on the positions that are left of the bucket
unfoldable pub find_closest_bit : ℕ → ℕ → ℕ → ℕ
find_closest_bit zero pos bits = pos
find_closest_bit (suc left) pos bits =
    let rest = find_closest_bit left (suc pos) bits in if bit_at bits pos then pos else rest

-- begin
unfoldable pub begin : Buckets → ConstIterator
unfolding find_closest_bit
begin [] = iterator [] 0
begin ((k, bits) ∷ m) = iterator ((k, bits) ∷ m) (find_closest_bit bucket_bits 0 bits)

-- The step of operator++ to the next bucket; none is the failed assertion that it is not empty.
unfoldable pub next_bucket : Buckets → Option ConstIterator
unfolding begin
next_bucket [] = some (iterator [] 0)
next_bucket ((k, bits) ∷ m) = if bits == 0 then none else some (begin ((k, bits) ∷ m))

-- operator++; none is a failed assertion.
unfoldable pub increment : ConstIterator → Option ConstIterator
unfolding find_closest_bit next_bucket
increment it = elim it.container [
  | [] ↦ none
  | (k, bits) ∷ m ↦
      let pos = find_closest_bit (bucket_bits - suc it.pos) (suc it.pos) bits in
      if ltb it.pos bucket_bits
      then (if pos == bucket_bits then next_bucket m else some (iterator ((k, bits) ∷ m) pos))
      else none
]

-- The loop over a vector, from an iterator to end(), with fuel: the numbers at which it stops
unfoldable pub iterate : ℕ → ConstIterator → Option (List ℕ)
unfolding increment
iterate zero it = none
iterate (suc fuel) it = elim it.container [
  | [] ↦ some []
  | (k, bits) ∷ m ↦ do after ← increment it; ns ← iterate fuel after; some ((k + it.pos) ∷ ns)
]

-- The numbers that are left to visit
abbrev left_of : ConstIterator → List ℕ
left_of it = elim it.container [
  | [] ↦ []
  | (k, bits) ∷ m ↦
      map (λ pos. k + pos) (it.pos ∷ positions (63 - it.pos) (suc it.pos) bits) ++ elements m
]

-- The iterator stands on a bit, or at the end.
record IsPlaced (it : ConstIterator) : Type 0 where
  valid : IsBitvector it.container
  inside : it.pos < 64

-- What operator++ makes of an iterator on a bit
record IsNext (k bits : ℕ) (m : Buckets) (pos : ℕ) (r : Option ConstIterator) : Type 0 where
  after : ConstIterator
  returns : r ≡ some after
  placed : IsPlaced after
  numbers : left_of (iterator ((k, bits) ∷ m) pos) ≡ (k + pos) ∷ left_of after
