-- ===== src/PointerAnalysis/Memory.antt =====
-- include/dg/PointerAnalysis/MemoryObject.h, the node's points-to set of PSNode.h, and the memory
-- objects of include/dg/PointerAnalysis/PointerAnalysisFI.h.
pub mod Merge
use llvmdg.Common.{
  ℕ, Bool, true, false, not, ◌&&◌, ◌||◌, ◌==◌, if◌then◌else◌, List, [], ◌∷◌, Option, none, some,
  get_elem?, length,
}
use llvmdg.Offset.{Offset}
use llvmdg.Std.OrderedMap.{find, assign, value_or}
use llvmdg.PointsTo.{Node, Pointer, pointer}
use llvmdg.PointsTo.Sets.{PointsToSets}
use llvmdg.PointerAnalysis.{
  Setting, PsNodeType, has_type, alloc, cast, constant, function, gep, unknown_mem,
}
use llvmdg.PointerAnalysis.Machine.{MemoryObject, State, update, M, return, ◌>>=◌, fail, when}

module _ (I : PointsToSets) where
  -- pointsTo[off]
  abbrev pub stored : Offset → MemoryObject I → I.Set
  stored off mo = value_or I.nothing (find off mo)

  -- addPointsTo(off, ptr)
  unfoldable pub add_pointer : Offset → Pointer → MemoryObject I → Bool × MemoryObject I
  add_pointer off p mo = let r = I.add p (stored off mo) in (r.0, assign off r.1 mo)

  -- addPointsTo(off, pointers)
  unfoldable pub add_pointers : Offset → I.Set → MemoryObject I → Bool × MemoryObject I
  add_pointers off ps mo =
      if I.empty ps
      then (false, mo)
      else let r = I.add_set ps (stored off mo) in (r.0, assign off r.1 mo)

  -- merge
  unfoldable pub merge : MemoryObject I → MemoryObject I → Bool × MemoryObject I
  merge [] mo = (false, mo)
  merge ((off, ps) ∷ rhs) mo =
      let r = I.add_set ps (stored off mo) in
      let this : Bool × MemoryObject I =
        if I.empty ps then (false, mo) else (r.0, assign off r.1 mo) in
      let rest = merge rhs this.1 in (this.0 || rest.0, rest.1)

  -- The points-to set of a node
  abbrev pub pointers_of : Node → M I I.Set
  pointers_of n s = some (s.points_to n, s)

  -- PSNode::addPointsTo(ptr)
  unfoldable pub add_points_to : Node → Pointer → M I Bool
  add_points_to n p s =
      let r = I.add p (s.points_to n) in
      some (r.0, record s { points_to = update s.points_to n r.1 })

  -- PSNode::addPointsTo(ptrs)
  unfoldable pub add_all_points_to : Node → I.Set → M I Bool
  add_all_points_to n ps s =
      let r = I.add_set ps (s.points_to n) in
      some (r.0, record s { points_to = update s.points_to n r.1 })

  -- The memory object of a node; the program keeps a pointer to an object that it has created.
  abbrev pub object_of : Node → M I (MemoryObject I)
  object_of n s = elim (s.memory n) [ none ↦ none | some mo ↦ some (mo, s) ]

  -- o->addPointsTo(off, ptr) and o->addPointsTo(off, pointers)
  unfoldable pub store_pointer : Node → Offset → Pointer → M I Bool
  store_pointer n off p s = elim (s.memory n) [
    | none ↦ none
    | some mo ↦
        let r = add_pointer off p mo in
        some (r.0, record s { memory = update s.memory n (some r.1) })
  ]

  unfoldable pub store_pointers : Node → Offset → I.Set → M I Bool
  store_pointers n off ps s = elim (s.memory n) [
    | none ↦ none
    | some mo ↦
        let r = add_pointers off ps mo in
        some (r.0, record s { memory = update s.memory n (some r.1) })
  ]

  -- A new memory object for a node that has none
  unfoldable pub with_object : Node → State I → State I
  with_object n s = elim (s.memory n) [
    | none ↦ record s { memory = update s.memory n (some []) }
    | some mo ↦ s
  ]

module _ (I : PointsToSets) (c : Setting) where
  -- getOperand
  abbrev pub operand : Node → ℕ → M I Node
  operand n i s = elim (get_elem? (c.nodes n).operands i) [ none ↦ none | some op ↦ some (op, s) ]

  -- The only pointer of a set: of a constant
  abbrev pub only_target : List Pointer → M I Node
  only_target [] s = none
  only_target (p ∷ ps) s = if length ps == 0 then some (p.target, s) else none

  -- The node whose memory a pointer's target stands for
  unfoldable pub allocation_site : Node → M I Node
  allocation_site n =
      if has_type c cast n || has_type c gep n
      then operand n 0
      else if has_type c constant n
      then (pointers_of I n >>= λ ps. only_target (I.elements ps))
      else return n

  -- PointerAnalysisFI::getMemoryObjects; an object is written as its node.
  unfoldable pub get_memory_objects : Pointer → M I (List Node)
  unfolding allocation_site
  get_memory_objects p = allocation_site p.target >>= λ n.
      if has_type c function n
      then return []
      else when (has_type c alloc n || has_type c unknown_mem n)
          (λ s. some (n ∷ [], with_object I n s))
