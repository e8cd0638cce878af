-- ===== src/PointsTo/SimpleSet.antt =====
-- include/dg/PointerAnalysis/PointsToSets/SimplePointsToSet.h: a points-to set as a set of pointers.
pub mod Laws
pub mod Remove
use llvmdg.Common.{
  ℕ, Bool, true, false, not, ◌&&◌, ◌||◌, ◌==◌, if◌then◌else◌, List, [], ◌∷◌, Option, none, some,
  any, length, is_empty,
}
use llvmdg.Offset.{Offset, unknown, is_unknown}
use llvmdg.PointsTo.{Node, Pointer, pointer, SpecialNodes}
use llvmdg.PointsTo.Ordered.{member, insert_pointer, erase_pointer}

abbrev pub SimpleSet : Type 0
SimpleSet = List Pointer

-- has, count and pointsTo
abbrev pub points_to : SimpleSet → Pointer → Bool
points_to = member

-- The loop of addWithUnknownOffset, which copies the pointers to other targets
unfoldable pub copy_others : Node → SimpleSet → SimpleSet → SimpleSet
copy_others t [] tmp = tmp
copy_others t (p ∷ ps) tmp =
    copy_others t ps (if p.target == t then tmp else (insert_pointer p tmp).1)

unfoldable pub add_with_unknown_offset : Node → SimpleSet → Bool × SimpleSet
unfolding copy_others
add_with_unknown_offset t s =
    if points_to s (pointer t unknown)
    then (false, s)
    else insert_pointer (pointer t unknown) (copy_others t s [])

-- add(target, off)
unfoldable pub add : Node → Offset → SimpleSet → Bool × SimpleSet
unfolding add_with_unknown_offset
add t o s =
    if is_unknown o
    then add_with_unknown_offset t s
    else if points_to s (pointer t unknown)
    then (false, s)
    else insert_pointer (pointer t o) s

-- The union: add(rhs)
unfoldable pub add_set : SimpleSet → SimpleSet → Bool × SimpleSet
add_set [] s = (false, s)
add_set (p ∷ rhs) s =
    let first = insert_pointer p s in let rest = add_set rhs first.1 in (first.0 || rest.0, rest.1)

unfoldable pub remove : Pointer → SimpleSet → Bool × SimpleSet
remove p s = (points_to s p, erase_pointer p s)

unfoldable pub points_to_target : SimpleSet → Node → Bool
points_to_target s t = any (λ p. p.target == t) s

-- The loop of removeAny, which adds the pointers to other targets to a new set
unfoldable pub add_others : Node → SimpleSet → SimpleSet → SimpleSet
unfolding add
add_others t [] tmp = tmp
add_others t (p ∷ ps) tmp =
    add_others t ps (if p.target == t then tmp else (add p.target p.offset tmp).1)

unfoldable pub remove_any : Node → SimpleSet → Bool × SimpleSet
unfolding points_to_target add_others
remove_any t s = if points_to_target s t then (true, add_others t s []) else (false, s)

unfoldable pub may_point_to : SimpleSet → Pointer → Bool
may_point_to s p = points_to s p || points_to s (pointer p.target unknown)

unfoldable pub is_singleton : SimpleSet → Bool
is_singleton s = length s == 1

-- The assertion on the offset is the result none.
unfoldable pub must_point_to : SimpleSet → Pointer → Option Bool
unfolding is_singleton
must_point_to s p = if is_unknown p.offset then none else some (points_to s p && is_singleton s)

abbrev pub size : SimpleSet → ℕ
size = length

abbrev pub empty : SimpleSet → Bool
empty = is_empty

abbrev pub has_unknown : SpecialNodes → SimpleSet → Bool
has_unknown k s = points_to_target s k.unknown_memory

abbrev pub has_null : SpecialNodes → SimpleSet → Bool
has_null k s = points_to_target s k.null

abbrev pub has_invalidated : SpecialNodes → SimpleSet → Bool
has_invalidated k s = points_to_target s k.invalidated
