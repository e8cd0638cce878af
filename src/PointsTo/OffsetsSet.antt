-- ===== src/PointsTo/OffsetsSet.antt =====
-- include/dg/PointerAnalysis/PointsToSets/OffsetsSetPointsToSet.h: a points-to set as a map from
-- nodes to bit vectors of offsets.
pub mod Add
pub mod Must
pub mod Remove
pub mod Union
use llvmdg.Common.{
  ℕ, ◌+◌, Bool, true, false, not, ◌&&◌, ◌||◌, ◌==◌, if◌then◌else◌, List, [], ◌∷◌, ◌++◌, map, length,
  Option, none, some, is_empty,
}
use llvmdg.Offset.{Offset, unknown, is_unknown}
use llvmdg.Std.OrderedMap.{find, assign, erase, value_or}
use llvmdg.Bitvector
use llvmdg.Bitvector.{Buckets, singleton}
use llvmdg.PointsTo.{Node, Pointer, pointer, SpecialNodes}

abbrev pub OffsetsSet : Type 0
OffsetsSet = List (Node × Buckets)

-- addWithUnknownOffset
unfoldable pub add_with_unknown_offset : Node → OffsetsSet → Bool × OffsetsSet
add_with_unknown_offset t m =
    let only = Bitvector.set unknown [] in
    elim (find t m) [
      | some bits ↦ if Bitvector.get bits unknown then (false, m) else (true, assign t only.1 m)
      | none ↦ (not only.0, assign t only.1 m)
    ]

unfoldable pub add : Node → Offset → OffsetsSet → Bool × OffsetsSet
unfolding add_with_unknown_offset
add t o m = if is_unknown o then add_with_unknown_offset t m else elim (find t m) [
  | none ↦ (true, assign t (singleton o) m)
  | some bits ↦
      if Bitvector.get bits unknown
      then (false, m)
      else (not (Bitvector.set o bits).0, assign t (Bitvector.set o bits).1 m)
]

-- The union: add(S)
unfoldable pub add_set : OffsetsSet → OffsetsSet → Bool × OffsetsSet
add_set [] m = (false, m)
add_set ((t, rhs) ∷ s) m =
    let united = Bitvector.set_union rhs (value_or [] (find t m)) in
    let rest = add_set s (assign t united.1 m) in (united.0 || rest.0, rest.1)

-- remove(target, offset)
unfoldable pub remove : Node → Offset → OffsetsSet → Bool × OffsetsSet
remove t o m = elim (find t m) [
  | none ↦ (false, m)
  | some bits ↦
      let ret = Bitvector.unset o bits in
      (ret.0, if ret.0 && is_empty ret.1 then erase t m else assign t ret.1 m)
]

unfoldable pub remove_any : Node → OffsetsSet → Bool × OffsetsSet
remove_any t m = elim (find t m) [ none ↦ (false, m) | some bits ↦ (true, erase t m) ]

unfoldable pub points_to : OffsetsSet → Node → Offset → Bool
points_to m t o = elim (find t m) [ none ↦ false | some bits ↦ Bitvector.get bits o ]

unfoldable pub may_point_to : OffsetsSet → Pointer → Bool
unfolding points_to
may_point_to m p = points_to m p.target p.offset || points_to m p.target unknown

unfoldable pub is_singleton : OffsetsSet → Bool
is_singleton m = length m == 1

-- The assertion on the offset is the result none.
unfoldable pub must_point_to : OffsetsSet → Pointer → Option Bool
unfolding points_to is_singleton
must_point_to m p =
    if is_unknown p.offset then none else some (points_to m p.target p.offset && is_singleton m)

unfoldable pub points_to_target : OffsetsSet → Node → Bool
points_to_target m t = elim (find t m) [ none ↦ false | some bits ↦ true ]

unfoldable pub count : OffsetsSet → Pointer → ℕ
count m p = elim (find p.target m) [
  | none ↦ 0
  | some bits ↦ if Bitvector.get bits p.offset then 1 else 0
]

abbrev pub has : OffsetsSet → Pointer → Bool
has m p = not (count m p == 0)

abbrev pub has_unknown : SpecialNodes → OffsetsSet → Bool
has_unknown s m = points_to_target m s.unknown_memory

abbrev pub has_null : SpecialNodes → OffsetsSet → Bool
has_null s m = points_to_target m s.null

abbrev pub has_invalidated : SpecialNodes → OffsetsSet → Bool
has_invalidated s m = points_to_target m s.invalidated

unfoldable pub size : OffsetsSet → ℕ
size [] = 0
size ((t, bits) ∷ m) = Bitvector.size bits + size m

-- The pointers that an iteration visits, in order.
unfoldable pub pointers : OffsetsSet → List Pointer
pointers [] = []
pointers ((t, bits) ∷ m) = map (pointer t) (Bitvector.elements bits) ++ pointers m
