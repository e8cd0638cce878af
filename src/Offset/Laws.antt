-- ===== src/Offset/Laws.antt =====
-- Arithmetic on offsets: what is known stays in range, and what overflows becomes unknown.
use llvmdg.Common.{◌+◌, ◌-◌, ◌≤◌, ◌<◌, ◌≡◌, ◌≢◌, ◌⊎◌, arith}
use llvmdg.Offset.{Offset, unknown, plus, minus}

-- A sum is the mathematical sum where that is a known offset, and is unknown otherwise, in
-- particular where it would wrap around.
pub plus_exact :
    (a b : Offset)
    → a ≤ unknown
    → b ≤ unknown
    → ((a + b < unknown) × (plus a b ≡ a + b)) ⊎ ((unknown ≤ a + b) × (plus a b ≡ unknown))
unfolding plus
plus_exact a b ha hb = ground arith

-- A sum of offsets does not depend on the order or the grouping of its operands.
pub plus_commutative_monoid :
    (a b c : Offset)
    → a ≤ unknown
    → b ≤ unknown
    → c ≤ unknown
    → (plus a b ≡ plus b a) × (plus (plus a b) c ≡ plus a (plus b c)) × (plus a 0 ≡ a)
unfolding plus
plus_commutative_monoid a b c ha hb hc = (ground arith, ground arith, ground arith)

-- Subtraction undoes addition as long as the sum is known.
pub minus-plus :
    (a b : Offset) → a ≤ unknown → b ≤ unknown → plus a b ≢ unknown → minus (plus a b) b ≡ a
unfolding plus minus
minus-plus a b ha hb h = ground arith

pub plus-one : (a : Offset) → a < unknown → plus a 1 ≡ a + 1
unfolding plus
plus-one a h = ground arith

pub minus-one : (a : Offset) → 0 < a → a < unknown → minus a 1 ≡ a - 1
unfolding minus
minus-one a p h = ground arith
