-- ===== src/PointsTo/PointerIdSet.antt =====
-- include/dg/PointerAnalysis/PointsToSets/PointerIdPointsToSet.h: a points-to set as a bit vector of
-- the IDs that the lookup table, which all sets share, gives to the pointers. This is the points-to
-- set that the pointer analysis is built with.
pub mod Order
pub mod RemoveAny
pub mod Ids
pub mod Add
pub mod Remove
use llvmdg.Common.{
  ℕ, Bool, true, false, not, ◌&&◌, ◌||◌, ◌==◌, if◌then◌else◌, List, [], ◌∷◌, Option, none, some,
  is_empty, ◌>>=◌,
}
use llvmdg.Offset.{Offset, unknown, is_unknown}
use llvmdg.Bitvector
use llvmdg.Bitvector.{Buckets}
use llvmdg.PointsTo.{Node, Pointer, pointer, SpecialNodes}
use llvmdg.PointsTo.LookupTable.{Table, get_or_create, get_pointer}

-- A set, with the state of the table. Also the queries may give a pointer an ID.
pub record PointerIdSet : Type 0 where
  pub table : Table
  pub pointers : Buckets

abbrev pub with_table : Table → Buckets → PointerIdSet
with_table t b = record { table = t; pointers = b }

-- pointsTo
unfoldable pub points_to : Pointer → PointerIdSet → Bool × PointerIdSet
points_to p s =
    let id = get_or_create s.table p in (Bitvector.get s.pointers id.0, with_table id.1 s.pointers)

-- has and count
abbrev pub has : Pointer → PointerIdSet → Bool × PointerIdSet
has = points_to

-- The loop of removeAny over the IDs: those of other targets go to the new vector.
unfoldable pub keep_others : List ℕ → Node → Table → Buckets → Option (Bool × Buckets)
keep_others [] n t tmp = some (false, tmp)
keep_others (id ∷ ids) n t tmp = do
  p ← get_pointer t id
  rest ← keep_others ids n t (if p.target == n then tmp else (Bitvector.set id tmp).1)
  some (p.target == n || rest.0, rest.1)

unfoldable pub remove_any : Node → PointerIdSet → Option (Bool × PointerIdSet)
unfolding keep_others
remove_any n s = do
  kept ← keep_others (Bitvector.elements s.pointers) n s.table []
  some (kept.0, with_table s.table kept.1)

-- addWithUnknownOffset
unfoldable pub add_with_unknown_offset : Node → PointerIdSet → Option (Bool × PointerIdSet)
unfolding remove_any
add_with_unknown_offset n s =
    let id = get_or_create s.table (pointer n unknown) in
    if Bitvector.get s.pointers id.0 then some (false, with_table id.1 s.pointers) else (do
      removed ← remove_any n (with_table id.1 s.pointers)
      let set = Bitvector.set id.0 removed.1.pointers in
          some (not set.0, with_table removed.1.table set.1))

unfoldable pub add : Pointer → PointerIdSet → Option (Bool × PointerIdSet)
unfolding points_to add_with_unknown_offset
add p s =
    let all = has (pointer p.target unknown) s in
    if all.0
    then some (false, all.1)
    else if is_unknown p.offset
    then add_with_unknown_offset p.target all.1
    else (let id = get_or_create all.1.table p in
        let set = Bitvector.set id.0 all.1.pointers in some (not set.0, with_table id.1 set.1))

-- The union with a set over the same table: add(S)
unfoldable pub add_set : Buckets → PointerIdSet → Bool × PointerIdSet
add_set rhs s = let set = Bitvector.set_union rhs s.pointers in (set.0, with_table s.table set.1)

unfoldable pub remove : Pointer → PointerIdSet → Bool × PointerIdSet
remove p s =
    let id = get_or_create s.table p in
    let unset = Bitvector.unset id.0 s.pointers in (unset.0, with_table id.1 unset.1)

unfoldable pub may_point_to : Pointer → PointerIdSet → Bool × PointerIdSet
unfolding points_to
may_point_to p s =
    let here = points_to p s in if here.0 then here else points_to (pointer p.target unknown) here.1

unfoldable pub is_singleton : PointerIdSet → Bool
is_singleton s = Bitvector.size s.pointers == 1

-- The assertion on the offset is the result none.
unfoldable pub must_point_to : Pointer → PointerIdSet → Option (Bool × PointerIdSet)
unfolding points_to is_singleton
must_point_to p s =
    let here = points_to p s in
    if is_unknown p.offset then none else some (here.0 && is_singleton s, here.1)

-- The loops over the IDs that look for a pointer
unfoldable pub some_pointer : (Pointer → Bool) → List ℕ → Table → Option Bool
some_pointer test [] t = some false
some_pointer test (id ∷ ids) t = do
  p ← get_pointer t id
  let rest = some_pointer test ids t in if test p then some true else rest

unfoldable pub points_to_target : Node → PointerIdSet → Option Bool
unfolding some_pointer
points_to_target n s = some_pointer (λ p. p.target == n) (Bitvector.elements s.pointers) s.table

unfoldable pub has_null_with_offset : SpecialNodes → PointerIdSet → Option Bool
unfolding some_pointer
has_null_with_offset k s =
    some_pointer (λ p. p.target == k.null && not (p.offset == 0)) (Bitvector.elements s.pointers)
      s.table

unfoldable pub empty : PointerIdSet → Bool
empty s = is_empty s.pointers

unfoldable pub size : PointerIdSet → ℕ
size s = Bitvector.size s.pointers
