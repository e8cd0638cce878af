-- ===== src/PointsTo/Tests.antt =====
-- The points-to sets at concrete inputs.
use llvmdg.Common.{◌||◌, ◌≡◌, ◌↔◌, refl, subst, Bool, true, false, [], ◌∷◌, some, arith}
use llvmdg.Offset.{Offset, unknown}
use llvmdg.Std.OrderedMap.{find, assign, emplace}
use llvmdg.Std.Word.{bit_at, with_bit, without_bit}
use llvmdg.Bitvector
use llvmdg.Bitvector.{Buckets, count_bits, positions}
use llvmdg.PointsTo.{Node, pointer}
use llvmdg.PointsTo.Spec.{may, without_target, IsAdded, IsAddedEach, add_each, add_each-IsAddedEach}
use llvmdg.PointsTo.{Pointer, pointer_lt}
use llvmdg.PointsTo.Ordered.{member, Ascending}
use llvmdg.PointsTo.SimpleSet
use llvmdg.PointsTo.SimpleSet.{SimpleSet}
use llvmdg.PointsTo.SimpleSet.Laws
use llvmdg.PointsTo.SimpleSet.Remove.{remove_any-may, add_set_exact}
use llvmdg.PointsTo.LookupTable.{empty_table, get_id, get_or_create}
use llvmdg.PointsTo.LookupTable.Laws.{IsTable, IsCreated, get_or_create-IsCreated}
use llvmdg.PointsTo.OffsetsSet
use llvmdg.PointsTo.Sets.Instances.{offsets_sets, member-pointers}
use llvmdg.PointsTo.OffsetsSet.{OffsetsSet}
use llvmdg.PointsTo.OffsetsSet.Add
use llvmdg.PointsTo.OffsetsSet.Add.{IsOffsetsSet}
use llvmdg.PointsTo.OffsetsSet.Must.{AllTo, must_point_to_exact}
use llvmdg.PointsTo.OffsetsSet.Remove
use llvmdg.PointsTo.OffsetsSet.Union.{IsSetUnion, add_set-IsSetUnion}
use llvmdg.PointsTo.PointerIdSet
use llvmdg.PointsTo.PointerIdSet.{PointerIdSet}
use llvmdg.PointsTo.PointerIdSet.Order.{IsPointerIdSet, holds, IsAsked, points_to-IsAsked}
use llvmdg.PointsTo.PointerIdSet.RemoveAny.{points_to_target_exact}
use llvmdg.PointsTo.PointerIdSet.Add.{add-Held, pointer_id_set}
use llvmdg.PointsTo.PointerIdSet.Remove.{
  IsTakenOut, remove-IsTakenOut, IsUnion, add_set-IsUnion, may_point_to_exact, must_point_to_sound,
}

-- Node 3 at the offsets 0 and 2
abbrev two : OffsetsSet
two = (3, (0, 5) ∷ []) ∷ []

two-IsOffsetsSet : IsOffsetsSet two
two-IsOffsetsSet = record {
  sorted = omega arith;
  vectors = (
    (record { sorted = omega arith; buckets = ground arith; aligned = omega arith }, λ e. cc e),
    tt,
  );
}

add_unknown_collapses :
    OffsetsSet.add 3 unknown two ≡ (true, (3, (Bitvector.set unknown []).1) ∷ [])
unfolding OffsetsSet.add find assign Bitvector.get bit_at
add_unknown_collapses = refl

remove_one : OffsetsSet.remove 3 2 two ≡ (true, (3, (0, 1) ∷ []) ∷ [])
unfolding OffsetsSet.remove Bitvector.unset find assign without_bit
remove_one = refl

two_holds :
    (OffsetsSet.points_to two 3 0 ≡ true)
    × ((OffsetsSet.points_to two 3 1 ≡ false) × (OffsetsSet.points_to two 3 2 ≡ true))
unfolding OffsetsSet.points_to find Bitvector.get bit_at
two_holds = (refl, (refl, refl))

one_target : OffsetsSet.is_singleton two ≡ true
unfolding OffsetsSet.is_singleton
one_target = refl

add-IsAdded_example :
    IsAdded IsOffsetsSet OffsetsSet.points_to 3 unknown two (some (OffsetsSet.add 3 unknown two))
add-IsAdded_example = Add.add-IsAdded 3 unknown two two-IsOffsetsSet

remove-IsRemoved_example : Remove.IsRemoved 3 2 two (OffsetsSet.remove 3 2 two)
remove-IsRemoved_example = Remove.remove-IsRemoved 3 2 two two-IsOffsetsSet

remove_reports_example : (OffsetsSet.remove 3 1 two).0 ≡ true
remove_reports_example =
    Remove.remove_reports 3 1 two two-IsOffsetsSet 0 two_holds.1.0 two_holds.0 refl

must_point_to_exact_example :
    (OffsetsSet.must_point_to two (pointer 3 0) ≡ some true)
    ↔ (OffsetsSet.points_to two 3 0 ≡ true) × AllTo two 3
must_point_to_exact_example = must_point_to_exact two 3 0 two-IsOffsetsSet refl

add_set-IsSetUnion_example : IsSetUnion two two (OffsetsSet.add_set two two)
add_set-IsSetUnion_example = add_set-IsSetUnion two two two-IsOffsetsSet two-IsOffsetsSet

-- The table and the sets that the code starts from
empty_table-IsTable : IsTable empty_table
unfolding get_id find
empty_table-IsTable = record {
  stands = λ p i h. absurd (omega arith);
  positive = λ p h. cc h;
  numbered = λ p i h. cc h;
}

abbrev nothing : PointerIdSet
nothing = record { table = empty_table; pointers = [] }

nothing-IsPointerIdSet : IsPointerIdSet nothing
unfolding Bitvector.get find
nothing-IsPointerIdSet = record {
  table = empty_table-IsTable;
  vector = record { sorted = tt; buckets = tt; aligned = tt };
  named = λ id h. absurd (cc h);
}

get_or_create-IsCreated_example :
    IsCreated empty_table (pointer 3 0) (get_or_create empty_table (pointer 3 0))
get_or_create-IsCreated_example =
    get_or_create-IsCreated empty_table (pointer 3 0) empty_table-IsTable

-- The pointer to node 3 at 0, after the query for its unknown offset took the first ID
abbrev one : PointerIdSet
one = record {
  table = record {
    ptr_to_id = (3, (0, 2) ∷ (unknown, 1) ∷ []) ∷ [];
    id_to_ptr = pointer 3 unknown ∷ pointer 3 0 ∷ [];
  };
  pointers = (0, 4) ∷ [];
}

add_one : PointerIdSet.add (pointer 3 0) nothing ≡ some (true, one)
unfolding PointerIdSet.add get_or_create get_id find assign emplace Bitvector.get Bitvector.set
    bit_at with_bit
add_one = refl

one-IsPointerIdSet : IsPointerIdSet one
one-IsPointerIdSet =
    let added = add-Held 3 0 nothing nothing-IsPointerIdSet in
    let e : added.result ≡ (true, one) = cc (added.returns, add_one) in
    subst (λ r. IsPointerIdSet r.1) e added.valid

one-holds : holds one 3 0 ≡ true
unfolding get_id find Bitvector.get bit_at
one-holds = refl

one_must : PointerIdSet.must_point_to (pointer 3 0) one ≡ some (true, one)
unfolding PointerIdSet.must_point_to get_or_create get_id find Bitvector.get Bitvector.size
    count_bits bit_at
one_must = refl

points_to-IsAsked_example : IsAsked (pointer 5 0) one (PointerIdSet.points_to (pointer 5 0) one)
points_to-IsAsked_example = points_to-IsAsked (pointer 5 0) one one-IsPointerIdSet

add-Held_example :
    IsAdded IsPointerIdSet holds 3 unknown one (PointerIdSet.add (pointer 3 unknown) one)
add-Held_example = add-Held 3 unknown one one-IsPointerIdSet

must_point_to_sound_example :
    (holds one 3 0 ≡ true)
    × ((u : Node) (q : Offset) → holds one u q ≡ true → pointer u q ≡ pointer 3 0)
must_point_to_sound_example = must_point_to_sound (pointer 3 0) one one one-IsPointerIdSet one_must

add_each-IsAddedEach_example :
    IsAddedEach pointer_id_set
      (pointer 3 4 ∷ pointer 5 unknown ∷ [])
      one
      (add_each pointer_id_set (pointer 3 4 ∷ pointer 5 unknown ∷ []) one)
add_each-IsAddedEach_example =
    add_each-IsAddedEach pointer_id_set (pointer 3 4 ∷ pointer 5 unknown ∷ []) one
      one-IsPointerIdSet

remove-IsTakenOut_example : IsTakenOut (pointer 3 0) one (PointerIdSet.remove (pointer 3 0) one)
remove-IsTakenOut_example = remove-IsTakenOut (pointer 3 0) one one-IsPointerIdSet

add_set-IsUnion_example : IsUnion one one (PointerIdSet.add_set one.pointers one)
add_set-IsUnion_example = add_set-IsUnion one.pointers one one-IsPointerIdSet one-IsPointerIdSet

may_point_to_exact_example :
    IsPointerIdSet (PointerIdSet.may_point_to (pointer 3 1) one).1
    × ((PointerIdSet.may_point_to (pointer 3 1) one).0 ≡ may (holds one) 3 1)
    × ((u : Node) (q : Offset)
        → holds (PointerIdSet.may_point_to (pointer 3 1) one).1 u q ≡ holds one u q)
may_point_to_exact_example = may_point_to_exact (pointer 3 1) one one-IsPointerIdSet

remove_any_target_example :
    IsOffsetsSet (OffsetsSet.remove_any 3 two).1
    × ((u : Node) (q : Offset)
        → OffsetsSet.points_to (OffsetsSet.remove_any 3 two).1 u q
          ≡ without_target 3 (OffsetsSet.points_to two) u q)
    × ((OffsetsSet.remove_any 3 two).0 ≡ OffsetsSet.points_to_target two 3)
remove_any_target_example = Remove.remove_any_target 3 two two-IsOffsetsSet

points_to_target_exact_example :
    (b : Bool) × (PointerIdSet.points_to_target 3 one ≡ some b)
    × ((q : Offset) → holds one 3 q ≡ true → b ≡ true)
    × (b ≡ true → (q : Offset) × (holds one 3 q ≡ true))
points_to_target_exact_example = points_to_target_exact 3 one one-IsPointerIdSet

-- The plain set of the same pointers
abbrev plain : SimpleSet
plain = pointer 3 0 ∷ pointer 3 8 ∷ []

plain-Ascending : Ascending plain
unfolding pointer_lt
plain-Ascending = (refl, tt)

add-Added_example :
    IsAdded Ascending Laws.holds 3 unknown plain (some (SimpleSet.add 3 unknown plain))
add-Added_example = Laws.add-Added 3 unknown plain plain-Ascending

remove_any-may_example :
    Ascending (SimpleSet.remove_any 3 plain).1
    × ((u : Node) (q : Offset)
        → may (Laws.holds (SimpleSet.remove_any 3 plain).1) u q
          ≡ without_target 3 (may (Laws.holds plain)) u q)
    × ((SimpleSet.remove_any 3 plain).0 ≡ SimpleSet.points_to_target plain 3)
remove_any-may_example = remove_any-may 3 plain plain-Ascending

add_set_exact_example :
    Ascending (SimpleSet.add_set plain plain).1
    × ((p : Pointer)
        → member (SimpleSet.add_set plain plain).1 p ≡ (member plain p || member plain p))
    × ((SimpleSet.add_set plain plain).0 ≡ false
        → (p : Pointer) → member (SimpleSet.add_set plain plain).1 p ≡ member plain p)
add_set_exact_example = add_set_exact plain plain plain-Ascending

both_empty : (u : Node) (q : Offset) → may (holds nothing) u q ≡ may (Laws.holds []) u q
unfolding Bitvector.get find member
both_empty u q = refl

member-pointers_example :
    member (OffsetsSet.pointers (OffsetsSet.add 3 8 []).1) (pointer 3 8)
    ≡ OffsetsSet.points_to (OffsetsSet.add 3 8 []).1 3 8
member-pointers_example =
    member-pointers (OffsetsSet.add 3 8 []).1 3 8
      (offsets_sets.add_law (pointer 3 8) [] offsets_sets.nothing-Valid).valid
