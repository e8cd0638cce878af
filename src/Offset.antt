-- ===== src/Offset.antt =====
-- include/dg/Offset.h and lib/Offset.cpp: an offset into memory is a uint64_t whose greatest value
-- stands for an offset that is not known.
pub mod Laws
pub mod Tests
use llvmdg.Common.{ℕ, ◌+◌, ◌-◌, ◌^◌, Bool, ◌&&◌, ◌||◌, ◌==◌, ltb, leb, if◌then◌else◌}

-- The value of the field `offset`. It is below 2 ^ 64 in every offset of the program.
abbrev pub Offset : Type 0
Offset = ℕ

-- Offset::UNKNOWN is ~0.
abbrev pub unknown : Offset
unknown = 2 ^ 64 - 1

abbrev pub is_unknown : Offset → Bool
is_unknown o = o == unknown

abbrev pub is_zero : Offset → Bool
is_zero o = o == 0

-- operator+ and operator+=
unfoldable pub plus : Offset → Offset → Offset
plus a b = if is_unknown a || (is_unknown b || leb (unknown - b) a) then unknown else a + b

-- operator-
unfoldable pub minus : Offset → Offset → Offset
minus a b = if is_unknown a || (is_unknown b || ltb a b) then unknown else a - b

-- operator~: the complement in 64 bits
unfoldable pub complement : Offset → Offset
complement a = if is_unknown a then unknown else unknown - a

unfoldable pub in_range : Offset → ℕ → ℕ → Bool
in_range o from to = leb from o && leb o to
