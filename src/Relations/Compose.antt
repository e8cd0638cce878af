-- ===== src/Relations/Compose.antt =====
-- Relations.cpp: transitiveOver, compose and getAugmented.
pub mod Sound
pub mod Augment
use llvmdg.Common.{Bool, true, false, ◌&&◌, ◌||◌, List, [], ◌∷◌, Option, none, some, if◌then◌else◌}
use llvmdg.Relations.{
  RelationType, eq, ne, sle, slt, ule, ult, sge, sgt, uge, ugt, pt, pf, all, Relations, has, set,
  no_relations, strict, get_strict, get_non_strict, add_implied,
}

unfoldable pub transitive_over : RelationType → RelationType → Bool
transitive_over sle sle = true
transitive_over sle slt = true
transitive_over slt sle = true
transitive_over slt slt = true
transitive_over ule ule = true
transitive_over ule ult = true
transitive_over ult ule = true
transitive_over ult ult = true
transitive_over sge sge = true
transitive_over sge sgt = true
transitive_over sgt sge = true
transitive_over sgt sgt = true
transitive_over uge uge = true
transitive_over uge ugt = true
transitive_over ugt uge = true
transitive_over ugt ugt = true
transitive_over _ _ = false

-- isStrict
abbrev pub is_strict : RelationType → Bool
is_strict = strict

-- The type that compose sets for a pair of types.
unfoldable pub composed : RelationType → RelationType → Option RelationType
composed p q = if is_strict p || is_strict q then get_strict p else some p

-- One round of the inner loop
unfoldable pub compose_pair : Relations → RelationType → RelationType → Relations → Option Relations
unfolding composed transitive_over
compose_pair rt p q result =
    if has rt q && transitive_over p q
    then elim (composed p q) [ none ↦ none | some t ↦ some (set t true result) ]
    else some result

unfoldable pub compose_row :
    Relations → RelationType → List RelationType → Relations → Option Relations
unfolding compose_pair
compose_row rt p [] result = some result
compose_row rt p (q ∷ qs) result = elim (compose_pair rt p q result) [
  | none ↦ none
  | some r ↦ compose_row rt p qs r
]

-- The outer loop
unfoldable pub compose_rows :
    Relations → Relations → List RelationType → Relations → Option Relations
unfolding compose_row
compose_rows lt rt [] result = some result
compose_rows lt rt (p ∷ ps) result =
    elim (if has lt p then compose_row rt p all result else some result) [
      | none ↦ none
      | some r ↦ compose_rows lt rt ps r
    ]

unfoldable pub compose : Relations → Relations → Option Relations
compose lt rt =
    if has lt eq
    then some rt
    else (if has rt eq then some lt else elim (compose_rows lt rt all no_relations) [
      | none ↦ none
      | some result ↦ some (add_implied result)
    ])

-- One round of getAugmented
unfoldable pub augment : Relations → RelationType → Option Relations
augment r t =
    if is_strict t
    then elim (get_non_strict t) [
      | none ↦ none
      | some u ↦
          some (if has r t then set u true r else if has r u then set eq true (set t true r) else r)
    ]
    else some r

unfoldable pub augment_from : List RelationType → Relations → Option Relations
unfolding augment
augment_from [] r = some r
augment_from (t ∷ ts) r = elim (augment r t) [ none ↦ none | some a ↦ augment_from ts a ]

unfoldable pub get_augmented : Relations → Option Relations
get_augmented r = augment_from all r
