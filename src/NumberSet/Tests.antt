-- ===== src/NumberSet/Tests.antt =====
-- The number set at concrete inputs: a small set, and its lift to a big one.
use llvmdg.Common.{◌≡◌, ◌↔◌, refl, true, [], ◌∷◌, arith}
use llvmdg.Std.OrderedMap.{find, assign}
use llvmdg.Std.Word.{bit_at, with_bit}
use llvmdg.Bitvector
use llvmdg.Bitvector.{positions}
use llvmdg.NumberSet.{NumberSet, small, big, add, empty, size}
use llvmdg.NumberSet.Lift.{IsNumberSet, IsInserted, add-IsInserted, empty-size}

-- {0, 3}
abbrev two : NumberSet
two = small 9

two-IsNumberSet : IsNumberSet two
two-IsNumberSet = omega arith

add_small : add 5 two ≡ (true, small 41)
unfolding add bit_at with_bit
add_small = refl

add_lifts : add 70 two ≡ (true, big ((0, 9) ∷ (64, 64) ∷ []))
unfolding add bit_at with_bit positions Bitvector.singleton Bitvector.set find assign
add_lifts = refl

add-IsInserted_example : IsInserted 70 two (add 70 two)
add-IsInserted_example = add-IsInserted 70 two two-IsNumberSet

empty-size_example : (empty two ≡ true) ↔ (size two ≡ 0)
empty-size_example = empty-size two two-IsNumberSet
