-- ===== src/PointerAnalysis/Demands.antt =====
-- lib/PointerAnalysis/PointerAnalysis.cpp: what the branches of processNode are to do, on the pointers
-- that the nodes and the memory objects hold.
use llvmdg.Common.{◌≡◌, true, false, ◌||◌}
use llvmdg.Offset.{Offset, unknown, is_unknown}
use llvmdg.PointsTo.{Node, Pointer, pointer, is_unknown_memory}
use llvmdg.PointsTo.Spec.{Pointers, may}
use llvmdg.PointsTo.Sets.{PointsToSets}
use llvmdg.PointerAnalysis.{Setting, has_type, function, can_be_dereferenced, fun_has_address_taken}
use llvmdg.PointerAnalysis.Machine.{State}
use llvmdg.PointerAnalysis.Transfer.{gep_pointer}
use llvmdg.PointerAnalysis.Copy.{is_copied, copied_offset}
use llvmdg.PointerAnalysis.Invariant.{points, content}

module _ (I : PointsToSets) where
  -- A node may point where a set of pointers may.
  abbrev pub Receives : Node → Pointers → State I → Type 0
  Receives n P t = (u : Node) (q : Offset) → may P u q ≡ true → may (points I t n) u q ≡ true

  -- An offset of a memory object may hold what a set of pointers may.
  abbrev pub Holds : Node → Offset → Pointers → State I → Type 0
  Holds n o P t = (u : Node) (q : Offset) → may P u q ≡ true → may (content I t n o) u q ≡ true

module _ (I : PointsToSets) (c : Setting) (n : Node) where
  -- The pointers that a GEP computes from those of its operand
  abbrev pub Shifted : Node → State I → State I → Type 0
  Shifted op s t =
      (u : Node) (q : Offset)
      → points I s op u q ≡ true
      → may (points I t n) (gep_pointer I c n (pointer u q)).target
          (gep_pointer I c n (pointer u q)).offset
        ≡ true

  -- The memory that a pointer stands for holds what the stored operand points to.
  abbrev pub StoredTo : Node → State I → Pointer → State I → Type 0
  StoredTo from s p t =
      can_be_dereferenced c p ≡ true → Holds I p.target p.offset (points I s from) t

  -- What a load through a pointer finds in memory reaches the node: the pointers stored at its offset
  -- and at the unknown offset, and through a pointer with the unknown offset all that is stored.
  abbrev pub Found : State I → Pointer → State I → Type 0
  Found s p t =
      Receives I n (content I s p.target p.offset) t
      × Receives I n (content I s p.target unknown) t
      × (is_unknown p.offset ≡ true → (o : Offset) → Receives I n (content I s p.target o) t)

  -- A load through a pointer: nothing through one that cannot be dereferenced, and the unknown
  -- pointer through one to unknown memory.
  abbrev pub Loaded : State I → Pointer → State I → Type 0
  Loaded s p t =
      (can_be_dereferenced c p ≡ true → Found s p t)
      × (is_unknown_memory c.special p ≡ true
          → may (points I t n) c.special.unknown_memory unknown ≡ true)

  -- A function that a pointer leads to is called, if its address is taken.
  abbrev pub Called : Pointer → State I → Type 0
  Called p t =
      has_type c function p.target ≡ true
      → fun_has_address_taken c p.target ≡ true
      → may (points I t n) p.target p.offset ≡ true

  abbrev pub Forked : Pointer → State I → Type 0
  Forked p t = has_type c function p.target ≡ true → may (points I t n) p.target p.offset ≡ true

  -- A pointer to a local allocation may be invalidated on return.
  abbrev pub Invalidated : Pointer → State I → Type 0
  Invalidated p t =
      can_be_dereferenced c p ≡ true
      → (c.nodes p.target).is_heap ≡ false
      → (c.nodes p.target).is_global ≡ false
      → may (points I t n) c.special.invalidated 0 ≡ true

  -- What is stored in the copied range of a pointer's memory reaches the memory of each destination:
  -- at the offset that it is copied to, or at the unknown offset.
  abbrev pub CopyReaches : Node → State I → Pointer → State I → Type 0
  CopyReaches dest s p t =
      can_be_dereferenced c p ≡ true
      → (u : Node) (q : Offset) → may (points I s dest) u q ≡ true
      → can_be_dereferenced c (pointer u q) ≡ true
      → (o : Offset) → is_copied c o p.offset (c.nodes n).length ≡ true
      → (v : Node) (r : Offset) → may (content I s p.target o) v r ≡ true
      → (may (content I t u (copied_offset c u o p.offset q)) v r
          || may (content I t u unknown) v r)
        ≡ true
