-- ===== src/PointerAnalysis/Tests/Parts.antt =====
-- The parts of the pointer analysis on the nodes of the small graph.
use llvmdg.Common.{
  ℕ, ◌+◌, ◌≡◌, ◌≢◌, ◌<◌, ◌⊎◌, refl, true, false, not, ◌&&◌, [], ◌∷◌, none, some, arith, is_empty,
}
use llvmdg.Offset.{unknown}
use llvmdg.PointsTo.{pointer}
use llvmdg.PointsTo.Sets.Instances.{simple_sets}
use llvmdg.Std.OrderedMap.{find}
use llvmdg.PointerAnalysis.{has_type, function, fun_has_address_taken}
use llvmdg.PointerAnalysis.Machine.{State, MemoryObject, update}
use llvmdg.PointerAnalysis.Memory.{merge, stored, with_object}
use llvmdg.PointerAnalysis.Memory.Merge.{IsMerged, merge-IsMerged}
use llvmdg.PointerAnalysis.Transfer.{gep_pointer}
use llvmdg.PointerAnalysis.Transfer.Bounds.{IsTracked, gep_pointer_bounds, copied_offset_bounds}
use llvmdg.PointerAnalysis.Transfer.Calls.{fun_has_address_taken-users}
use llvmdg.PointerAnalysis.Copy.{is_copied, copied_offset, copy_objects}
use llvmdg.PointerAnalysis.Copy.Zero.{copy_objects-zero}
use llvmdg.PointerAnalysis.Initial.{initial}
use llvmdg.PointerAnalysis.Objects.Created.{with_object-IsSound}
use llvmdg.PointerAnalysis.Invariant.{IsSound}
use llvmdg.PointerAnalysis.Tests.{demo, demo_start, demo-IsSound}

fun_has_address_taken-users_example :
    fun_has_address_taken demo 13
    ≡ (has_type demo function 13 && not (is_empty (demo.nodes 13).users))
fun_has_address_taken-users_example = fun_has_address_taken-users demo 13

gep_pointer_bounds_example :
    ((gep_pointer simple_sets demo 15 (pointer 11 4)).target ≡ 11)
    × ((gep_pointer simple_sets demo 15 (pointer 11 4)).offset ≢ unknown
        → IsTracked demo 11 (gep_pointer simple_sets demo 15 (pointer 11 4)).offset)
    × (4 + 8 < unknown
        → IsTracked demo 11 (4 + 8)
        → (gep_pointer simple_sets demo 15 (pointer 11 4)).offset ≡ 4 + 8)
gep_pointer_bounds_example = gep_pointer_bounds simple_sets demo 15 (pointer 11 4) (omega arith)

in_copy : is_copied demo 8 4 10 ≡ true
unfolding is_copied
in_copy = refl

at_six : copied_offset demo 12 8 4 2 ≡ 6
unfolding copied_offset
at_six = refl

copied_offset_bounds_example :
    (copied_offset demo 12 8 4 2 < 16)
    × (copied_offset demo 12 8 4 2 < 64)
    × (copied_offset demo 12 8 4 2 + 4 ≡ 8 + 2)
    × (◌≢◌ {A = ℕ} 8 unknown)
    × ((◌≡◌ {A = ℕ} 10 unknown) ⊎ (8 < 4 + 10))
copied_offset_bounds_example =
    copied_offset_bounds demo 12 8 4 2 10 (omega arith) in_copy (omega (arith, at_six))

abbrev one_object : MemoryObject simple_sets
one_object = (0, pointer 10 0 ∷ []) ∷ (8, pointer 11 4 ∷ []) ∷ []

merge-IsMerged_example :
    IsMerged simple_sets
      (λ o. simple_sets.points_to (stored simple_sets o one_object))
      []
      (merge simple_sets one_object [])
merge-IsMerged_example = merge-IsMerged simple_sets one_object [] (omega arith) (tt, (tt, tt)) tt

-- Node 11 has a memory object in which nothing is stored.
abbrev with_memory : State simple_sets
with_memory = with_object simple_sets 11 demo_start

memory-IsSound : IsSound simple_sets demo with_memory
memory-IsSound = with_object-IsSound simple_sets demo demo_start 11 demo-IsSound

memory_empty : with_memory.memory 11 ≡ some []
unfolding with_object initial
memory_empty = refl

memory_zero : with_memory.zero_initialized 11 ≡ true
unfolding with_object initial
memory_zero = refl

nothing_found : find 4 (let mo : MemoryObject simple_sets = [] in mo) ≡ none
unfolding find
nothing_found = refl

copy_objects-zero_example :
    copy_objects simple_sets demo (11 ∷ []) (12 ∷ []) (pointer 11 0) (pointer 12 0) 16 with_memory
    ≡ some (
      false,
      record with_memory { zero_initialized = update with_memory.zero_initialized 12 true },
    )
copy_objects-zero_example =
    copy_objects-zero simple_sets demo with_memory (pointer 11 0) (pointer 12 0) 16 (omega arith)
      refl refl (omega arith) (omega arith) refl refl refl memory_zero memory_empty
