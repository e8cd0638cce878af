-- ===== src/PointerAnalysis/Process/Transferred.antt =====
-- lib/PointerAnalysis/PointerAnalysis.cpp: what each kind of node demands of the state after it has
-- been processed.
use llvmdg.Common.{ℕ, ◌≡◌, ◌<◌, true, some, All, get_elem?, length}
use llvmdg.Offset.{Offset}
use llvmdg.PointsTo.{Node, pointer}
use llvmdg.PointsTo.Spec.{may}
use llvmdg.PointsTo.Sets.{PointsToSets}
use llvmdg.PointerAnalysis.{
  Setting, PsNodeType, load, store, gep, phi, cast, call_funcptr, call_return, return, fork,
  invalidate_locals, memcpy, null_addr, unknown_mem, invalidated,
}
use llvmdg.PointerAnalysis.Machine.{State}
use llvmdg.PointerAnalysis.Invariant.{points}
use llvmdg.PointerAnalysis.Demands.{
  Receives, Shifted, StoredTo, Loaded, Called, Forked, Invalidated, CopyReaches,
}

module _ (c : Setting) where
  abbrev pub HasOperand : Node → ℕ → Type 0
  HasOperand n i = (op : Node) × (get_elem? (c.nodes n).operands i ≡ some op)

  -- What the graph's builder guarantees of a node of each type
  abbrev pub WellFormedAs : PsNodeType → Node → Type 0
  WellFormedAs load n = HasOperand n 0
  WellFormedAs store n = HasOperand n 0 × HasOperand n 1
  WellFormedAs gep n = HasOperand n 0
  WellFormedAs cast n = HasOperand n 0
  WellFormedAs call_funcptr n = HasOperand n 0
  WellFormedAs fork n = HasOperand n 0
  WellFormedAs invalidate_locals n =
      (op : Node) × (get_elem? (c.nodes n).operands 0 ≡ some op)
      × (length (c.nodes op).successors ≡ 1)
  WellFormedAs memcpy n =
      HasOperand n 0 × HasOperand n 1 × (0 < (c.nodes n).length) × (0 < c.node_count)
  WellFormedAs null_addr n = ⊥
  WellFormedAs unknown_mem n = ⊥
  WellFormedAs invalidated n = ⊥
  WellFormedAs t n = Unit {0}

  abbrev pub IsWellFormed : Node → Type 0
  IsWellFormed n = WellFormedAs (c.nodes n).type n

module _ (I : PointsToSets) (c : Setting) where
  -- The pointers that a node of each type moves from a state s to a state t
  abbrev pub TransferredAs : PsNodeType → Node → State I → State I → Type 0
  TransferredAs load n s t =
      (op : Node)
      → get_elem? (c.nodes n).operands 0 ≡ some op
      → (u : Node) (q : Offset) → points I s op u q ≡ true
      → Loaded I c n s (pointer u q) t
  TransferredAs store n s t =
      (from to : Node)
      → get_elem? (c.nodes n).operands 0 ≡ some from
      → get_elem? (c.nodes n).operands 1 ≡ some to
      → (u : Node) (q : Offset) → points I s to u q ≡ true
      → StoredTo I c n from s (pointer u q) t
  TransferredAs gep n s t =
      (op : Node) → get_elem? (c.nodes n).operands 0 ≡ some op → Shifted I c n op s t
  TransferredAs cast n s t =
      (op : Node) → get_elem? (c.nodes n).operands 0 ≡ some op → Receives I n (points I s op) t
  TransferredAs phi n s t = All (λ op. Receives I n (points I s op) t) (c.nodes n).operands
  TransferredAs return n s t = All (λ op. Receives I n (points I s op) t) (c.nodes n).operands
  TransferredAs call_return n s t =
      (c.options.invalidate_nodes ≡ true
        → All
            (λ op.
              (u : Node) (q : Offset)
              → may (points I s op) u q ≡ true
              → Invalidated I c n (pointer u q) t)
            (c.nodes n).operands)
      × All (λ op. Receives I n (points I s op) t) (c.nodes n).operands
  TransferredAs call_funcptr n s t =
      (op : Node)
      → get_elem? (c.nodes n).operands 0 ≡ some op
      → (u : Node) (q : Offset) → points I s op u q ≡ true
      → Called I c n (pointer u q) t
  TransferredAs fork n s t =
      (op : Node)
      → get_elem? (c.nodes n).operands 0 ≡ some op
      → (u : Node) (q : Offset) → points I s op u q ≡ true
      → Forked I c n (pointer u q) t
  TransferredAs memcpy n s t =
      (source dest : Node)
      → get_elem? (c.nodes n).operands 0 ≡ some source
      → get_elem? (c.nodes n).operands 1 ≡ some dest
      → (u : Node) (q : Offset) → points I s source u q ≡ true
      → CopyReaches I c n dest s (pointer u q) t
  TransferredAs k n s t = Unit {0}

  abbrev pub Transferred : Node → State I → State I → Type 0
  Transferred n = TransferredAs (c.nodes n).type n
