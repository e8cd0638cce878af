-- ===== src/PointerAnalysis/Tests.antt =====
-- The pointer analysis on a small graph: a store through a GEP, a load, a copy of memory, a call through
-- a pointer, and their initial state.
pub mod Parts
use llvmdg.Common.{
  ℕ, zero, suc, ◌+◌, ◌≡◌, ◌≢◌, ◌≤◌, ◌<◌, refl, Bool, false, not, ◌&&◌, ◌||◌, ◌==◌, if◌then◌else◌,
  List, [], ◌∷◌, Option, none, some, All, arith, length, is_empty, Bool-cases, inl, inr,
}
use llvmdg.NodesWalk
use llvmdg.NodesWalk.Reachable.{Reach, here, step}
use llvmdg.NodesWalk.Total.{IsComplete, run-IsComplete}
use llvmdg.Offset.{Offset, unknown}
use llvmdg.PointsTo.{Node, Pointer, pointer}
use llvmdg.PointsTo.Sets.{PointsToSets}
use llvmdg.PointsTo.Sets.Instances.{simple_sets}
use llvmdg.PointsTo.SimpleSet
use llvmdg.PointsTo.Ordered.{insert_pointer, member}
use llvmdg.PointerAnalysis.{
  Setting, PsNode, PsNodeType, Options, has_type, alloc, constant, function, load, store, gep, phi,
  cast, memcpy, call_funcptr, noop, null_addr, unknown_mem, invalidated, fun_has_address_taken,
}
use llvmdg.PointerAnalysis.Machine.{State, MemoryObject}
use llvmdg.PointerAnalysis.Process.{process_node}
use llvmdg.PointerAnalysis.Run.{iteration}
use llvmdg.PointerAnalysis.Initial.{initial, initial-IsSound}
use llvmdg.PointerAnalysis.Invariant.{IsSound, Ran}
use llvmdg.PointerAnalysis.Process.Transferred.{IsWellFormed, Transferred}
use llvmdg.PointerAnalysis.Process.Kinds.{process_node-Ran}
use llvmdg.PointerAnalysis.Run.Iteration.{IsIterated, iteration-IsIterated}
use llvmdg.PointerAnalysis.Run.Rounds.{IsQueue}

-- A node with its type, operands, successors, size, offset and length
abbrev demo_node : PsNodeType → List Node → List Node → ℕ → ℕ → ℕ → PsNode
demo_node t ops next size offset length = record {
  type = t;
  operands = ops;
  users = [];
  successors = next;
  callees = [];
  return_sites = [];
  size = size;
  offset = offset;
  length = length;
  is_heap = false;
  is_global = false;
}

abbrev demo_nodes : Node → PsNode
demo_nodes n =
    if n == 10
    then demo_node alloc [] (11 ∷ []) 8 0 0
    else if n == 11
    then demo_node alloc [] (12 ∷ []) 16 0 0
    else if n == 12
    then demo_node alloc [] (15 ∷ []) 16 0 0
    else if n == 13
    then record (demo_node function [] [] 0 0 0) { users = 20 ∷ [] }
    else if n == 15
    then demo_node gep (11 ∷ []) (16 ∷ []) 0 8 0
    else if n == 16
    then demo_node store (10 ∷ 15 ∷ []) (17 ∷ []) 0 0 0
    else if n == 17
    then demo_node load (15 ∷ []) (18 ∷ []) 0 0 0
    else if n == 18
    then demo_node memcpy (11 ∷ 12 ∷ []) (20 ∷ []) 0 0 16
    else if n == 20
    then demo_node call_funcptr (13 ∷ []) (15 ∷ []) 0 0 0
    else demo_node noop [] [] 0 0 0

abbrev demo : Setting
demo = record {
  nodes = demo_nodes;
  node_count = 12;
  special = record { null = 1; unknown_memory = 2; invalidated = 3 };
  options = record { field_sensitivity = 64; invalidate_nodes = false; max_iterations = 5 };
}

abbrev demo_universe : List Node
demo_universe = 10 ∷ 11 ∷ 12 ∷ 15 ∷ 16 ∷ 17 ∷ 18 ∷ 20 ∷ []

-- The memory of node 11 is zero-initialized.
abbrev demo_start : State simple_sets
demo_start = initial simple_sets demo (λ n. n == 11) (λ n. 0)

no_constants : (n : Node) → has_type demo constant n ≡ false
no_constants n = ground arith

one_element :
    (p : Pointer) → length (simple_sets.elements (simple_sets.add p simple_sets.nothing).1) ≡ 1
unfolding SimpleSet.add insert_pointer member
one_element p = elim (Bool-cases (p.offset == unknown)) [
  | inl all ↦ rw all refl
  | inr one ↦ rw one refl
]

initial-IsSound_example : IsSound simple_sets demo demo_start
initial-IsSound_example =
    initial-IsSound simple_sets demo (λ n h. absurd (cc (h, no_constants n))) (λ n. n == 11)
      (λ n. 0) one_element

demo-IsSound : IsSound simple_sets demo demo_start
demo-IsSound =
    initial-IsSound simple_sets demo (λ n h. absurd (cc (h, no_constants n))) (λ n. n == 11)
      (λ n. 0) one_element

-- The GEP makes a pointer to offset 8 of node 11.
process_node-Ran_example :
    Ran simple_sets demo demo_start
      (Transferred simple_sets demo 15 demo_start)
      (process_node simple_sets demo 15 demo_start)
process_node-Ran_example = process_node-Ran simple_sets demo 15 demo_start (11, refl) demo-IsSound

demo_formed : All (λ n. IsWellFormed demo n) demo_universe
demo_formed = (
  tt,
  (
    tt,
    (
      tt,
      (
        (11, refl),
        (
          ((10, refl), (15, refl)),
          ((15, refl), (((11, refl), (12, refl), omega arith, omega arith), ((13, refl), tt))),
        ),
      ),
    ),
  ),
)

iteration-IsIterated_example :
    IsIterated simple_sets demo demo_start demo_universe
      (iteration simple_sets demo demo_universe demo_start)
iteration-IsIterated_example =
    iteration-IsIterated simple_sets demo demo_universe demo_start demo_formed demo-IsSound
