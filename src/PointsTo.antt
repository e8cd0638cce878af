-- ===== src/PointsTo.antt =====
-- include/dg/PointerAnalysis/Pointer.h, and what the points-to sets of
-- include/dg/PointerAnalysis/PointsToSets have in common: a set of pointers, each a node and an
-- offset into it, where the unknown offset of a node stands for all of its offsets.
pub mod Spec
pub mod Sets
pub mod Ordered
pub mod LookupTable
pub mod SimpleSet
pub mod SmallOffsets
pub mod OffsetsSet
pub mod PointerIdSet
pub mod Tests
use llvmdg.Common.{ℕ, Bool, true, false, not, ◌&&◌, ◌||◌, ◌==◌, ltb, if◌then◌else◌}
use llvmdg.Offset.{Offset, unknown, is_unknown}

-- A PSNode by its address.
abbrev pub Node : Type 0
Node = ℕ

pub record Pointer : Type 0 where
  pub target : Node
  pub offset : Offset

abbrev pub pointer : Node → Offset → Pointer
pointer t o = record { target = t; offset = o }

-- operator==
abbrev pub pointer_eq : Pointer → Pointer → Bool
pointer_eq p q = p.target == q.target && p.offset == q.offset

-- operator<
unfoldable pub pointer_lt : Pointer → Pointer → Bool
pointer_lt p q = if p.target == q.target then ltb p.offset q.offset else ltb p.target q.target

-- The nodes NULLPTR, UNKNOWN_MEMORY and INVALIDATED
pub record SpecialNodes : Type 0 where
  pub null : Node
  pub unknown_memory : Node
  pub invalidated : Node

unfoldable pub is_null : SpecialNodes → Pointer → Bool
is_null s p = p.target == s.null

unfoldable pub is_unknown_memory : SpecialNodes → Pointer → Bool
is_unknown_memory s p = p.target == s.unknown_memory

unfoldable pub is_valid : SpecialNodes → Pointer → Bool
unfolding is_null is_unknown_memory
is_valid s p = not (is_null s p) && not (is_unknown_memory s p)

unfoldable pub is_invalidated : SpecialNodes → Pointer → Bool
is_invalidated s p = p.target == s.invalidated
