-- ===== src/Bitvector/Tests.antt =====
-- The bit vector at concrete inputs: {0, 2, 64}, in two buckets.
use llvmdg.Common.{◌≡◌, ◌↔◌, refl, true, false, [], ◌∷◌, arith}
use llvmdg.Std.OrderedSet.{mem}
use llvmdg.Std.OrderedMap.{find, assign, erase}
use llvmdg.Std.Word.{bit_at, with_bit, without_bit}
use llvmdg.Bitvector.{Buckets, get, set, set_union, unset, size, count_bits, elements}
use llvmdg.Bitvector.Order.{IsBitvector, IsBitSet, set-IsBitSet}
use llvmdg.Bitvector.Unset.{IsBitUnset, unset-IsBitUnset, unset_reports}
use llvmdg.Bitvector.Union.{IsUnion, set_union-IsUnion}
use llvmdg.Bitvector.Elements.{mem-elements, size-eq-zero}

abbrev three : Buckets
three = (0, 5) ∷ (64, 1) ∷ []

abbrev other : Buckets
other = (0, 2) ∷ (128, 8) ∷ []

three-IsBitvector : IsBitvector three
three-IsBitvector = record { sorted = omega arith; buckets = ground arith; aligned = omega arith }

other-IsBitvector : IsBitvector other
other-IsBitvector = record { sorted = omega arith; buckets = ground arith; aligned = omega arith }

set_second_bucket : set 65 three ≡ (false, (0, 5) ∷ (64, 3) ∷ [])
unfolding set find assign bit_at with_bit
set_second_bucket = refl

unset_last_of_bucket : unset 64 three ≡ (true, (0, 5) ∷ [])
unfolding unset find erase without_bit
unset_last_of_bucket = refl

union_of_both : set_union other three ≡ (true, (0, 7) ∷ (64, 1) ∷ (128, 8) ∷ [])
unfolding set_union find assign
union_of_both = refl

size-three : size three ≡ 3
unfolding size count_bits
size-three = refl

set-IsBitSet_example : IsBitSet 65 three (set 65 three)
set-IsBitSet_example = set-IsBitSet 65 three three-IsBitvector

set_union-IsUnion_example : IsUnion other three (set_union other three)
set_union-IsUnion_example = set_union-IsUnion other three other-IsBitvector three-IsBitvector

unset-IsBitUnset_example : IsBitUnset 64 three (unset 64 three)
unset-IsBitUnset_example = unset-IsBitUnset 64 three three-IsBitvector

one_missing : get three 1 ≡ false
unfolding get find bit_at
one_missing = refl

two_there : get three 2 ≡ true
unfolding get find bit_at
two_there = refl

unset_reports_example : (unset 1 three).0 ≡ true
unset_reports_example = unset_reports 1 three three-IsBitvector 2 one_missing two_there refl

mem-elements_example : mem (elements three) 64 ≡ get three 64
mem-elements_example = mem-elements three 64 three-IsBitvector

size-eq-zero_example : (size three ≡ 0) ↔ (three ≡ [])
size-eq-zero_example = size-eq-zero three three-IsBitvector
