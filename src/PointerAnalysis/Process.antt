-- ===== src/PointerAnalysis/Process.antt =====
-- lib/PointerAnalysis/PointerAnalysis.cpp: processNode.
pub mod Transferred
pub mod Kinds
use llvmdg.Common.{
  ℕ, Bool, true, false, not, ◌&&◌, ◌||◌, ◌==◌, if◌then◌else◌, List, [], ◌∷◌, Option, none, some,
  length,
}
use llvmdg.PointsTo.{Node}
use llvmdg.PointsTo.Sets.{PointsToSets}
use llvmdg.PointerAnalysis.{
  Setting, PsNodeType, alloc, load, store, gep, phi, cast, function, call, call_funcptr,
  call_return, entry, return, fork, join, invalidate_locals, free, invalidate_object, constant,
  noop, memcpy, null_addr, unknown_mem, invalidated,
}
use llvmdg.PointerAnalysis.Machine
use llvmdg.PointerAnalysis.Machine.{State, update, M, ◌>>=◌, fail, when}
use llvmdg.PointerAnalysis.Memory.{pointers_of, operand}
use llvmdg.PointerAnalysis.Transfer.{
  process_load, process_store, process_gep, process_cast, process_phi, process_call_return,
  process_call_funcptr, process_fork, handle_join,
}
use llvmdg.PointerAnalysis.Copy.{process_memcpy}

module _ (I : PointsToSets) (c : Setting) where
  -- getSingleSuccessor
  abbrev pub single_successor : List Node → M I Node
  single_successor [] s = none
  single_successor (n ∷ ns) s = if length ns == 0 then some (n, s) else none

  -- INVALIDATE_LOCALS: the node is given the parent of its operand's successor.
  unfoldable pub process_invalidate_locals : Node → M I Bool
  process_invalidate_locals n = operand I c n 0 >>= λ op.
      single_successor (c.nodes op).successors >>= λ succ.
      λ s. some (false, record s { parent = update s.parent n (s.parent succ) })

  abbrev pub points_to_self : Node → State I → Bool
  points_to_self n s = I.points_to (s.points_to n) n 0

  abbrev pub points_to_one : Node → State I → Bool
  points_to_one n s = length (I.elements (s.points_to n)) == 1

  -- processNode, by the type of the node
  unfoldable pub process_as : PsNodeType → Node → M I Bool
  process_as load n = process_load I c n
  process_as store n = process_store I c n
  process_as invalidate_object n = Machine.return false
  process_as free n = Machine.return false
  process_as invalidate_locals n = process_invalidate_locals n
  process_as gep n = process_gep I c n
  process_as cast n = process_cast I c n
  process_as constant n = λ s. if points_to_one n s then some (false, s) else none
  process_as call_return n = process_call_return I c n
  process_as return n = process_phi I c n
  process_as phi n = process_phi I c n
  process_as call_funcptr n = process_call_funcptr I c n
  process_as fork n = process_fork I c n
  process_as join n = handle_join I c n
  process_as memcpy n = process_memcpy I c n
  process_as alloc n =
      λ s. if points_to_self n s && points_to_one n s then some (false, s) else none
  process_as function n =
      λ s. if points_to_self n s && points_to_one n s then some (false, s) else none
  process_as call n = Machine.return false
  process_as entry n = Machine.return false
  process_as noop n = Machine.return false
  process_as null_addr n = fail
  process_as unknown_mem n = fail
  process_as invalidated n = fail

  unfoldable pub process_node : Node → M I Bool
  process_node n = process_as (c.nodes n).type n
