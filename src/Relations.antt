-- ===== src/Relations.antt =====
-- lib/ValueRelations/Relations.cpp and include/dg/ValueRelations/Relations.h: the relations that the
-- value relation analysis keeps between two values, as a set of relation types.
-- `none` stands for the call of abort() behind an assertion.
pub mod Compose
pub mod Meaning
pub mod Implied
pub mod Tests
use llvmdg.Common.{
  ℕ, Bool, true, false, not, ◌&&◌, ◌||◌, List, [], ◌∷◌, Option, none, some, ◌==◌, if◌then◌else◌,
  any, bool_eq,
}

-- Relations::Type. PT says that the left value points to the right one, PF that it is pointed to.
pub data RelationType : Type 0 where
  eq ne sle slt ule ult sge sgt uge ugt pt pf : RelationType

-- Relations::all
abbrev pub all : List RelationType
all = eq ∷ ne ∷ sle ∷ slt ∷ ule ∷ ult ∷ sge ∷ sgt ∷ uge ∷ ugt ∷ pt ∷ pf ∷ []

-- The position of a type in the enumeration is its bit.
abbrev pub index : RelationType → ℕ
index eq = 0
index ne = 1
index sle = 2
index slt = 3
index ule = 4
index ult = 5
index sge = 6
index sgt = 7
index uge = 8
index ugt = 9
index pt = 10
index pf = 11

-- The std::bitset
abbrev pub Relations : Type 0
Relations = RelationType → Bool

abbrev pub has : Relations → RelationType → Bool
has r t = r t

abbrev pub no_relations : Relations
no_relations t = false

abbrev pub set : RelationType → Bool → Relations → Relations
set t v r u = if index t == index u then v else r u

-- A chain of eq(), ne(), ... sets one bit after another.
abbrev pub set_all : List RelationType → Relations → Relations
set_all [] r = r
set_all (t ∷ ts) r = set_all ts (set t true r)

abbrev pub of_list : List RelationType → Relations
of_list ts = set_all ts no_relations

-- any()
abbrev pub any_set : Relations → Bool
any_set r = any r all

-- operator&=, operator|= and operator==
abbrev pub intersect : Relations → Relations → Relations
intersect a b t = a t && b t

abbrev pub unite : Relations → Relations → Relations
unite a b t = a t || b t

abbrev pub same_relations : Relations → Relations → Bool
same_relations a b = not (any (λ t. not (bool_eq (a t) (b t))) all)

abbrev pub any_common : Relations → Relations → Bool
any_common a b = any_set (intersect a b)

-- The constants strict and nonStrict
abbrev pub strict : Relations
strict = of_list (slt ∷ ult ∷ sgt ∷ ugt ∷ [])

abbrev pub non_strict : Relations
non_strict = of_list (sle ∷ ule ∷ sge ∷ uge ∷ [])

unfoldable pub inverted : RelationType → RelationType
inverted eq = eq
inverted ne = ne
inverted sle = sge
inverted slt = sgt
inverted ule = uge
inverted ult = ugt
inverted sge = sle
inverted sgt = slt
inverted uge = ule
inverted ugt = ult
inverted pt = pf
inverted pf = pt

unfoldable pub negated : RelationType → Option RelationType
negated eq = some ne
negated ne = some eq
negated sle = some sgt
negated slt = some sge
negated ule = some ugt
negated ult = some uge
negated sge = some slt
negated sgt = some sle
negated uge = some ult
negated ugt = some ule
negated pt = none
negated pf = none

unfoldable pub conflicting : RelationType → Relations
conflicting eq = of_list (ne ∷ slt ∷ ult ∷ sgt ∷ ugt ∷ [])
conflicting ne = of_list (eq ∷ [])
conflicting slt = of_list (eq ∷ sgt ∷ sge ∷ [])
conflicting ult = of_list (eq ∷ ugt ∷ uge ∷ [])
conflicting sgt = of_list (eq ∷ slt ∷ sle ∷ [])
conflicting ugt = of_list (eq ∷ ult ∷ ule ∷ [])
conflicting sle = of_list (sgt ∷ [])
conflicting ule = of_list (ugt ∷ [])
conflicting sge = of_list (slt ∷ [])
conflicting uge = of_list (ult ∷ [])
conflicting pt = no_relations
conflicting pf = no_relations

unfoldable pub conflicts_with : Relations → RelationType → Bool
unfolding conflicting
conflicts_with r t = any_common r (conflicting t)

abbrev pub first_of_list : Relations → List RelationType → Option RelationType
first_of_list r [] = none
first_of_list r (t ∷ ts) = let rest = first_of_list r ts in if has r t then some t else rest

-- get
unfoldable pub get : Relations → Option RelationType
get r = first_of_list r (eq ∷ slt ∷ ult ∷ sgt ∷ ugt ∷ ne ∷ sle ∷ ule ∷ sge ∷ uge ∷ pt ∷ pf ∷ [])

abbrev pub imply : RelationType → List RelationType → Relations → Relations
imply t ts r = if has r t then set_all ts r else r

-- addImplied: each test reads the bits that the tests before it have set.
unfoldable pub add_implied : Relations → Relations
add_implied r = imply ugt (uge ∷ ne ∷ []) (
    imply sgt (sge ∷ ne ∷ []) (
      imply ult (ule ∷ ne ∷ [])
        (imply slt (sle ∷ ne ∷ []) (imply eq (sle ∷ ule ∷ sge ∷ uge ∷ []) r))))

abbrev pub invert_from : Relations → List RelationType → Relations → Relations
invert_from r [] bits = bits
invert_from r (t ∷ ts) bits =
    invert_from r ts (if has r t then set (inverted t) true bits else bits)

unfoldable pub invert : Relations → Relations
unfolding inverted
invert r = invert_from r all no_relations

unfoldable pub is_signed : RelationType → Option Bool
is_signed slt = some true
is_signed sle = some true
is_signed sgt = some true
is_signed sge = some true
is_signed ult = some false
is_signed ule = some false
is_signed ugt = some false
is_signed uge = some false
is_signed _ = none

unfoldable pub get_strict : RelationType → Option RelationType
get_strict slt = some slt
get_strict sle = some slt
get_strict ult = some ult
get_strict ule = some ult
get_strict sgt = some sgt
get_strict sge = some sgt
get_strict ugt = some ugt
get_strict uge = some ugt
get_strict _ = none

unfoldable pub get_non_strict : RelationType → Option RelationType
get_non_strict slt = some sle
get_non_strict ult = some ule
get_non_strict sgt = some sge
get_non_strict ugt = some uge
get_non_strict _ = none
