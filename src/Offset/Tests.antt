-- ===== src/Offset/Tests.antt =====
-- Offsets at concrete values, the greatest known one among them.
use llvmdg.Common.{◌+◌, ◌-◌, ◌≤◌, ◌<◌, ◌≡◌, ◌⊎◌, refl, arith}
use llvmdg.Offset.{unknown, plus, minus}
use llvmdg.Offset.Laws.{plus_exact, plus_commutative_monoid, minus-plus}

plus_overflow : plus (unknown - 1) 1 ≡ unknown
unfolding plus
plus_overflow = refl

minus_underflow : minus 3 4 ≡ unknown
unfolding minus
minus_underflow = refl

plus_exact_example :
    ((unknown - 3 + 2 < unknown) × (plus (unknown - 3) 2 ≡ unknown - 3 + 2))
    ⊎ ((unknown ≤ unknown - 3 + 2) × (plus (unknown - 3) 2 ≡ unknown))
plus_exact_example = plus_exact (unknown - 3) 2 (omega arith) (omega arith)

plus_commutative_monoid_example :
    (plus 8 16 ≡ plus 16 8)
    × (plus (plus 8 16) (unknown - 20) ≡ plus 8 (plus 16 (unknown - 20)))
    × (plus 8 0 ≡ 8)
plus_commutative_monoid_example =
    plus_commutative_monoid 8 16 (unknown - 20) (omega arith) (omega arith) (omega arith)

minus-plus_example : minus (plus 8 16) 16 ≡ 8
unfolding plus
minus-plus_example = minus-plus 8 16 (omega arith) (omega arith) (omega arith)
