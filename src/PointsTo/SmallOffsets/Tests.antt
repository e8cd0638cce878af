-- ===== src/PointsTo/SmallOffsets/Tests.antt =====
-- The set of small offsets at concrete inputs, with the multiplier 4.
use llvmdg.Common.{◌≡◌, refl, subst, true, [], ◌∷◌, some}
use llvmdg.Offset.{unknown}
use llvmdg.Std.OrderedMap.{find, assign}
use llvmdg.Std.Word.{bit_at, with_bit}
use llvmdg.Bitvector
use llvmdg.PointsTo.{pointer}
use llvmdg.PointsTo.Ordered.{insert_pointer}
use llvmdg.PointsTo.Spec.{IsAdded}
use llvmdg.PointsTo.SmallOffsets.{
  NodeIds, SmallOffsets, small_offsets, get_node_id, get_node_position, get_position, place,
  is_offset_valid, points_to, add_known, add, remove_any,
}
use llvmdg.PointsTo.SmallOffsets.Nodes.{IsNodeIds}
use llvmdg.PointsTo.SmallOffsets.Order.{IsSmallOffsets, holds}
use llvmdg.PointsTo.SmallOffsets.RemoveAny.{IsCleared, remove_any-IsCleared}
use llvmdg.PointsTo.SmallOffsets.Add.{add-IsHeld, four-HasPlaces}

abbrev no_nodes : NodeIds
no_nodes = record { ids = []; id_vector = [] }

no_nodes-IsNodeIds : IsNodeIds no_nodes
unfolding find
no_nodes-IsNodeIds = record {
  distinct = λ n k i h g. absurd (cc h);
  range = λ n i h. absurd (cc h);
}

abbrev nothing : SmallOffsets
nothing = small_offsets no_nodes [] []

nothing-IsSmallOffsets : IsSmallOffsets nothing
unfolding Bitvector.get find
nothing-IsSmallOffsets = record {
  nodes = no_nodes-IsNodeIds;
  vector = record { sorted = tt; buckets = tt; aligned = tt };
  named = λ b h. absurd (cc h);
  sorted = tt;
}

-- Node 7 at the offset 8, which has the place 2
abbrev one : SmallOffsets
one = small_offsets (record { ids = (7, 1) ∷ []; id_vector = 7 ∷ [] }) ((0, 4) ∷ []) []

add_aligned : add 4 (pointer 7 8) nothing ≡ (true, one)
unfolding add add_known points_to get_position get_node_position get_node_id place is_offset_valid
    find assign Bitvector.get Bitvector.set bit_at with_bit
add_aligned = refl

-- An offset that the multiplier does not divide goes to the set.
add_odd : add 4 (pointer 7 9) one ≡ (true, small_offsets one.nodes one.pointers (pointer 7 9 ∷ []))
unfolding add add_known points_to get_position get_node_position get_node_id place is_offset_valid
    find assign Bitvector.get Bitvector.set bit_at with_bit insert_pointer
add_odd = refl

one-IsSmallOffsets : IsSmallOffsets one
one-IsSmallOffsets =
    let added = add-IsHeld 4 four-HasPlaces 7 8 nothing nothing-IsSmallOffsets in
    let e : added.result ≡ (true, one) = cc (added.returns, add_aligned) in
    subst (λ r. IsSmallOffsets r.1) e added.valid

add-IsHeld_example :
    IsAdded IsSmallOffsets (holds 4) 7 unknown one (some (add 4 (pointer 7 unknown) one))
add-IsHeld_example = add-IsHeld 4 four-HasPlaces 7 unknown one one-IsSmallOffsets

remove_any-IsCleared_example : IsCleared 4 four-HasPlaces 7 one (remove_any 7 one).1
remove_any-IsCleared_example = remove_any-IsCleared 4 four-HasPlaces 7 one one-IsSmallOffsets
