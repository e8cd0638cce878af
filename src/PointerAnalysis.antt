-- ===== src/PointerAnalysis.antt =====
-- include/dg/PointerAnalysis/PSNode.h, include/dg/SubgraphNode.h and the options of the pointer
-- analysis: the part of a pointer graph's nodes that the analysis reads and does not change.
pub mod Machine
pub mod Memory
pub mod Transfer
pub mod Copy
pub mod Process
pub mod Graph
pub mod Run
pub mod Initial
pub mod Tests
pub mod Invariant
pub mod Rules
pub mod Primitives
pub mod Objects
pub mod Demands
pub mod Loops
use llvmdg.Common.{ℕ, Bool, false, not, ◌&&◌, ◌||◌, ◌==◌, if◌then◌else◌, List, [], ◌∷◌, any}
use llvmdg.Offset.{Offset, unknown}
use llvmdg.PointsTo.{
  Node, Pointer, pointer, SpecialNodes, is_valid, is_invalidated, is_unknown_memory,
}

-- PSNodeType
pub data PsNodeType : Type 0 where
  alloc : PsNodeType
  load : PsNodeType
  store : PsNodeType
  gep : PsNodeType
  phi : PsNodeType
  cast : PsNodeType
  function : PsNodeType
  call : PsNodeType
  call_funcptr : PsNodeType
  call_return : PsNodeType
  entry : PsNodeType
  return : PsNodeType
  fork : PsNodeType
  join : PsNodeType
  invalidate_locals : PsNodeType
  free : PsNodeType
  invalidate_object : PsNodeType
  constant : PsNodeType
  noop : PsNodeType
  memcpy : PsNodeType
  null_addr : PsNodeType
  unknown_mem : PsNodeType
  invalidated : PsNodeType

-- The enumerator's value
abbrev pub value : PsNodeType → ℕ
value alloc = 1
value load = 2
value store = 3
value gep = 4
value phi = 5
value cast = 6
value function = 7
value call = 8
value call_funcptr = 9
value call_return = 10
value entry = 11
value return = 12
value fork = 13
value join = 14
value invalidate_locals = 15
value free = 16
value invalidate_object = 17
value constant = 18
value noop = 19
value memcpy = 20
value null_addr = 21
value unknown_mem = 22
value invalidated = 23

-- PSNode with the fields of its subclasses: `offset` is that of PSNodeGep and PSNodeConstant, `length`
-- that of PSNodeMemcpy, `callees` those of PSNodeCall by their root, and `return_sites` those of
-- PSNodeRet.
pub record PsNode : Type 0 where
  pub type : PsNodeType
  pub operands : List Node
  pub users : List Node
  pub successors : List Node
  pub callees : List Node
  pub return_sites : List Node
  pub size : Offset
  pub offset : Offset
  pub length : Offset
  pub is_heap : Bool
  pub is_global : Bool

-- PointerAnalysisOptions
pub record Options : Type 0 where
  pub field_sensitivity : Offset
  pub invalidate_nodes : Bool
  pub max_iterations : ℕ

-- What the analysis works on: the nodes by their address and their number, the nodes NULLPTR,
-- UNKNOWN_MEMORY and INVALIDATED, and the options.
pub record Setting : Type 0 where
  pub nodes : Node → PsNode
  pub node_count : ℕ
  pub special : SpecialNodes
  pub options : Options

-- getOperand(0) == user
abbrev pub first_is : Node → List Node → Bool
first_is user [] = false
first_is user (op ∷ ops) = op == user

module _ (c : Setting) where
  abbrev pub type_of : Node → ℕ
  type_of n = value (c.nodes n).type

  abbrev pub has_type : PsNodeType → Node → Bool
  has_type t n = type_of n == value t

  -- UnknownPointer and NullPointer
  abbrev pub unknown_pointer : Pointer
  unknown_pointer = pointer c.special.unknown_memory unknown

  abbrev pub null_pointer : Pointer
  null_pointer = pointer c.special.null 0

  -- canBeDereferenced
  unfoldable pub can_be_dereferenced : Pointer → Bool
  unfolding is_valid is_invalidated is_unknown_memory
  can_be_dereferenced p =
      if not (is_valid c.special p) || (is_invalidated c.special p || is_unknown_memory c.special p)
      then false
      else not (has_type function p.target)

  -- funHasAddressTaken: the lambda tests the function itself, not its user.
  unfoldable pub fun_has_address_taken : Node → Bool
  fun_has_address_taken n =
      if not (has_type function n)
      then false
      else any (λ user. not (has_type call n) || not (first_is user (c.nodes n).operands))
          (c.nodes n).users
