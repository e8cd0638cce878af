-- ===== src/Relations/Compose/Augment.antt =====
-- getAugmented: what it adds to the four pairs of a strict and a non-strict type.
use llvmdg.Common.{◌≡◌, refl, Bool, true, false, ◌||◌, ◌==◌, arith, some, if◌then◌else◌}
use llvmdg.Relations.{
  RelationType, eq, ne, sle, slt, ule, ult, sge, sgt, uge, ugt, pt, pf, Relations, has, set, index,
  get_non_strict,
}
use llvmdg.Relations.Compose.{augment_from, get_augmented}

-- Only the non-strict type of a pair is there.
abbrev pub weak : Relations → RelationType → RelationType → Bool
weak r s n = if has r s then false else has r n

-- The bits of the result, one by one.
abbrev pub augmented_bit : Relations → RelationType → Bool
augmented_bit r eq =
    has r eq || (weak r slt sle || (weak r ult ule || (weak r sgt sge || weak r ugt uge)))
augmented_bit r ne = has r ne
augmented_bit r sle = has r sle || has r slt
augmented_bit r slt = has r sle || has r slt
augmented_bit r ule = has r ule || has r ult
augmented_bit r ult = has r ule || has r ult
augmented_bit r sge = has r sge || has r sgt
augmented_bit r sgt = has r sge || has r sgt
augmented_bit r uge = has r uge || has r ugt
augmented_bit r ugt = has r uge || has r ugt
augmented_bit r pt = has r pt
augmented_bit r pf = has r pf

pair_up : RelationType → RelationType → Relations → Relations
pair_up s n r =
    if has r s then set n true r else (if has r n then set eq true (set s true r) else r)

pair_up-bit :
    (s n : RelationType) (r : Relations) (t : RelationType)
    → has (pair_up s n r) t ≡ (
        if has r s
        then (index n == index t || has r t)
        else (if has r n
            then (index eq == index t || (index s == index t || has r t))
            else has r t))
unfolding pair_up
pair_up-bit s n r t = ground arith

-- A type outside the pair, other than equality, keeps its bit.
pair_up-other :
    (s n : RelationType) (r : Relations) (t : RelationType)
    → (index eq == index t || (index s == index t || index n == index t)) ≡ false
    → has (pair_up s n r) t ≡ has r t
pair_up-other s n r t h = ground (arith, pair_up-bit s n r t)

-- The sets that the four rounds leave
up_slt : Relations → Relations
up_slt r = pair_up slt sle r

up_ult : Relations → Relations
up_ult r = pair_up ult ule (up_slt r)

up_sgt : Relations → Relations
up_sgt r = pair_up sgt sge (up_ult r)

up_ugt : Relations → Relations
up_ugt r = pair_up ugt uge (up_sgt r)

get_augmented-up : (r : Relations) → get_augmented r ≡ some (up_ugt r)
unfolding get_augmented augment_from get_non_strict up_slt up_ult up_sgt up_ugt pair_up
get_augmented-up r = refl

up_ugt-bit : (r : Relations) (t : RelationType) → has (up_ugt r) t ≡ augmented_bit r t
unfolding up_slt up_ult up_sgt up_ugt
up_ugt-bit r eq = ground (
  arith,
  pair_up-bit ugt uge (up_sgt r) eq,
  pair_up-bit sgt sge (up_ult r) eq,
  pair_up-bit ult ule (up_slt r) eq,
  pair_up-bit slt sle r eq,
  pair_up-other slt sle r ult refl,
  pair_up-other slt sle r ule refl,
  pair_up-other ult ule (up_slt r) sgt refl,
  pair_up-other slt sle r sgt refl,
  pair_up-other ult ule (up_slt r) sge refl,
  pair_up-other slt sle r sge refl,
  pair_up-other sgt sge (up_ult r) ugt refl,
  pair_up-other ult ule (up_slt r) ugt refl,
  pair_up-other slt sle r ugt refl,
  pair_up-other sgt sge (up_ult r) uge refl,
  pair_up-other ult ule (up_slt r) uge refl,
  pair_up-other slt sle r uge refl,
)
up_ugt-bit r ne = ground (
  arith,
  pair_up-other ugt uge (up_sgt r) ne refl,
  pair_up-other sgt sge (up_ult r) ne refl,
  pair_up-other ult ule (up_slt r) ne refl,
  pair_up-other slt sle r ne refl,
)
up_ugt-bit r sle = ground (
  arith,
  pair_up-other ugt uge (up_sgt r) sle refl,
  pair_up-other sgt sge (up_ult r) sle refl,
  pair_up-other ult ule (up_slt r) sle refl,
  pair_up-bit slt sle r sle,
)
up_ugt-bit r slt = ground (
  arith,
  pair_up-other ugt uge (up_sgt r) slt refl,
  pair_up-other sgt sge (up_ult r) slt refl,
  pair_up-other ult ule (up_slt r) slt refl,
  pair_up-bit slt sle r slt,
)
up_ugt-bit r ule = ground (
  arith,
  pair_up-other ugt uge (up_sgt r) ule refl,
  pair_up-other sgt sge (up_ult r) ule refl,
  pair_up-bit ult ule (up_slt r) ule,
  pair_up-other slt sle r ule refl,
  pair_up-other slt sle r ult refl,
)
up_ugt-bit r ult = ground (
  arith,
  pair_up-other ugt uge (up_sgt r) ult refl,
  pair_up-other sgt sge (up_ult r) ult refl,
  pair_up-bit ult ule (up_slt r) ult,
  pair_up-other slt sle r ult refl,
  pair_up-other slt sle r ule refl,
)
up_ugt-bit r sge = ground (
  arith,
  pair_up-other ugt uge (up_sgt r) sge refl,
  pair_up-bit sgt sge (up_ult r) sge,
  pair_up-other ult ule (up_slt r) sge refl,
  pair_up-other slt sle r sge refl,
  pair_up-other ult ule (up_slt r) sgt refl,
  pair_up-other slt sle r sgt refl,
)
up_ugt-bit r sgt = ground (
  arith,
  pair_up-other ugt uge (up_sgt r) sgt refl,
  pair_up-bit sgt sge (up_ult r) sgt,
  pair_up-other ult ule (up_slt r) sgt refl,
  pair_up-other slt sle r sgt refl,
  pair_up-other ult ule (up_slt r) sge refl,
  pair_up-other slt sle r sge refl,
)
up_ugt-bit r uge = ground (
  arith,
  pair_up-bit ugt uge (up_sgt r) uge,
  pair_up-other sgt sge (up_ult r) uge refl,
  pair_up-other ult ule (up_slt r) uge refl,
  pair_up-other slt sle r uge refl,
  pair_up-other sgt sge (up_ult r) ugt refl,
  pair_up-other ult ule (up_slt r) ugt refl,
  pair_up-other slt sle r ugt refl,
)
up_ugt-bit r ugt = ground (
  arith,
  pair_up-bit ugt uge (up_sgt r) ugt,
  pair_up-other sgt sge (up_ult r) ugt refl,
  pair_up-other ult ule (up_slt r) ugt refl,
  pair_up-other slt sle r ugt refl,
  pair_up-other sgt sge (up_ult r) uge refl,
  pair_up-other ult ule (up_slt r) uge refl,
  pair_up-other slt sle r uge refl,
)
up_ugt-bit r pt = ground (
  arith,
  pair_up-other ugt uge (up_sgt r) pt refl,
  pair_up-other sgt sge (up_ult r) pt refl,
  pair_up-other ult ule (up_slt r) pt refl,
  pair_up-other slt sle r pt refl,
)
up_ugt-bit r pf = ground (
  arith,
  pair_up-other ugt uge (up_sgt r) pf refl,
  pair_up-other sgt sge (up_ult r) pf refl,
  pair_up-other ult ule (up_slt r) pf refl,
  pair_up-other slt sle r pf refl,
)

-- getAugmented never aborts. It makes each strict type and its non-strict one present together, adds
-- equality where only the non-strict one was, and touches no other bit.
pub get_augmented-bit :
    (r : Relations)
    → (a : Relations) × (get_augmented r ≡ some a)
      × ((t : RelationType) → has a t ≡ augmented_bit r t)
get_augmented-bit r = (up_ugt r, get_augmented-up r, up_ugt-bit r)
