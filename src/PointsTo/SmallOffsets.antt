-- ===== src/PointsTo/SmallOffsets.antt =====
-- include/dg/PointerAnalysis/PointsToSets/AlignedSmallOffsetsPointsToSet.h, and
-- SmallOffsetsPointsToSet.h beside it, which is the same code without the multiplier (a multiplier
-- of 1): nodes are numbered, a bit vector holds 64 positions of each node, 63 for its small offsets
-- and the last one for the unknown offset, and a set holds the other pointers.
pub mod Nodes
pub mod Order
pub mod RemoveAny
pub mod Positions
pub mod Add
pub mod Tests
use llvmdg.Common.{
  ℕ, zero, suc, ◌+◌, ◌-◌, ◌*◌, ◌/◌, ◌%◌, Bool, true, false, not, ◌&&◌, ◌||◌, ◌==◌, leb,
  if◌then◌else◌, List, [], ◌∷◌, ◌++◌, Option, none, some, any, length, is_empty,
}
use llvmdg.Offset.{Offset, unknown, is_unknown}
use llvmdg.Std.OrderedMap.{find, assign}
use llvmdg.Bitvector
use llvmdg.Bitvector.{Buckets}
use llvmdg.PointsTo.{Node, Pointer, pointer}
use llvmdg.PointsTo.Ordered.{member, insert_pointer, erase_pointer, erase_target}

abbrev pub max_offset : ℕ
max_offset = 63

-- The static tables ids and idVector: nodes are numbered from 1 on.
pub record NodeIds : Type 0 where
  pub ids : List (Node × ℕ)
  pub id_vector : List Node

-- A set, with the state of the tables
pub record SmallOffsets : Type 0 where
  pub nodes : NodeIds
  pub pointers : Buckets
  pub large : List Pointer

abbrev pub small_offsets : NodeIds → Buckets → List Pointer → SmallOffsets
small_offsets d b l = record { nodes = d; pointers = b; large = l }

-- getNodeID
unfoldable pub get_node_id : NodeIds → Node → ℕ × NodeIds
get_node_id d n = elim (find n d.ids) [
  | some id ↦ (id, d)
  | none ↦ (
    length d.ids + 1,
    record { ids = assign n (length d.ids + 1) d.ids; id_vector = d.id_vector ++ (n ∷ []) },
  )
]

-- getNodePosition
unfoldable pub get_node_position : NodeIds → Node → ℕ × NodeIds
get_node_position d n = (((get_node_id d n).0 - 1) * (max_offset + 1), (get_node_id d n).1)

-- The loop of removeAny over the positions of a node
unfoldable pub unset_range : ℕ → ℕ → Buckets → Bool × Buckets
unset_range zero i b = (false, b)
unset_range (suc rounds) i b =
    let first = Bitvector.unset i b in
    let rest = unset_range rounds (suc i) first.1 in (first.0 || rest.0, rest.1)

unfoldable pub remove_any : Node → SmallOffsets → Bool × SmallOffsets
unfolding get_node_position
remove_any n s =
    let position = get_node_position s.nodes n in
    let range = unset_range (max_offset + 1) position.0 s.pointers in
    (
      range.0 || any (λ p. p.target == n) s.large,
      small_offsets position.1 range.1 (erase_target n s.large),
    )

-- The loop of pointsToTarget over the positions of a node
unfoldable pub get_range : ℕ → ℕ → Buckets → Bool
get_range zero i b = false
get_range (suc rounds) i b = Bitvector.get b i || get_range rounds (suc i) b

unfoldable pub points_to_target : Node → SmallOffsets → Bool × SmallOffsets
unfolding get_node_position
points_to_target n s =
    let position = get_node_position s.nodes n in
    (
      get_range (max_offset + 1) position.0 s.pointers || any (λ p. p.target == n) s.large,
      small_offsets position.1 s.pointers s.large,
    )

-- The loop of the union over the set of large pointers
unfoldable pub insert_each : List Pointer → List Pointer → Bool × List Pointer
insert_each [] l = (false, l)
insert_each (p ∷ ps) l =
    let first = insert_pointer p l in
    let rest = insert_each ps first.1 in (first.0 || rest.0, rest.1)

-- The union with a set over the same tables: add(S)
unfoldable pub add_set : Buckets → List Pointer → SmallOffsets → Bool × SmallOffsets
unfolding insert_each
add_set rhs large s =
    let united = Bitvector.set_union rhs s.pointers in
    let inserted = insert_each large s.large in
    (united.0 || inserted.0, small_offsets s.nodes united.1 inserted.1)

unfoldable pub is_singleton : SmallOffsets → Bool
is_singleton s =
    (Bitvector.size s.pointers == 1 && is_empty s.large)
    || (is_empty s.pointers && length s.large == 1)

unfoldable pub empty : SmallOffsets → Bool
empty s = is_empty s.pointers && is_empty s.large

unfoldable pub size : SmallOffsets → ℕ
size s = Bitvector.size s.pointers + length s.large

module _ (multiplier : ℕ) where
  -- What getPosition adds to the position of the node
  unfoldable pub place : Offset → ℕ
  place o = if is_unknown o then max_offset else o / multiplier

  -- getPosition
  unfoldable pub get_position : NodeIds → Node → Offset → ℕ × NodeIds
  unfolding get_node_position place
  get_position d n o = ((get_node_position d n).0 + place o, (get_node_position d n).1)

  -- isOffsetValid
  unfoldable pub is_offset_valid : Offset → Bool
  is_offset_valid o = is_unknown o || (leb o ((max_offset - 1) * multiplier) && o % multiplier == 0)

  -- pointsTo, count and has
  unfoldable pub points_to : Pointer → SmallOffsets → Bool × SmallOffsets
  unfolding get_position is_offset_valid
  points_to p s =
      let position = get_position s.nodes p.target p.offset in
      if is_offset_valid p.offset
      then (Bitvector.get s.pointers position.0, small_offsets position.1 s.pointers s.large)
      else (member s.large p, s)

  unfoldable pub add_with_unknown_offset : Node → SmallOffsets → Bool × SmallOffsets
  unfolding remove_any get_position
  add_with_unknown_offset n s =
      let left = (remove_any n s).1 in
      let position = get_position left.nodes n unknown in
      let set = Bitvector.set position.0 left.pointers in
      (not set.0, small_offsets position.1 set.1 left.large)

  -- The rest of add: a known offset, to a target without the unknown one
  unfoldable pub add_known : Pointer → SmallOffsets → Bool × SmallOffsets
  add_known p s =
      let position = get_position s.nodes p.target p.offset in
      let set = Bitvector.set position.0 s.pointers in
      let inserted = insert_pointer p s.large in
      if is_offset_valid p.offset
      then (not set.0, small_offsets position.1 set.1 s.large)
      else (inserted.0, small_offsets s.nodes s.pointers inserted.1)

  unfoldable pub add : Pointer → SmallOffsets → Bool × SmallOffsets
  add p s =
      let all = points_to (pointer p.target unknown) s in
      if all.0
      then (false, all.1)
      else if is_unknown p.offset
      then add_with_unknown_offset p.target all.1
      else add_known p all.1

  unfoldable pub remove : Pointer → SmallOffsets → Bool × SmallOffsets
  unfolding get_position is_offset_valid
  remove p s =
      let position = get_position s.nodes p.target p.offset in
      let unset = Bitvector.unset position.0 s.pointers in
      if is_offset_valid p.offset
      then (unset.0, small_offsets position.1 unset.1 s.large)
      else (member s.large p, small_offsets s.nodes s.pointers (erase_pointer p s.large))

  unfoldable pub may_point_to : Pointer → SmallOffsets → Bool × SmallOffsets
  unfolding points_to
  may_point_to p s =
      let here = points_to p s in
      if here.0 then here else points_to (pointer p.target unknown) here.1

  -- The assertion on the offset is the result none.
  unfoldable pub must_point_to : Pointer → SmallOffsets → Option (Bool × SmallOffsets)
  unfolding points_to is_singleton
  must_point_to p s =
      let here = points_to p s in
      if is_unknown p.offset then none else some (here.0 && is_singleton s, here.1)
