-- ===== src/PointerAnalysis/Run/Steady.antt =====
-- lib/PointerAnalysis/PointerAnalysis.cpp: what a node demands of a state, from the demand at an earlier
-- state that holds the same pointers.
use llvmdg.Common.{◌≡◌, true, arith, Bool-cases, inl, inr}
use llvmdg.Offset.{Offset, unknown}
use llvmdg.PointsTo.{Node, Pointer, pointer}
use llvmdg.PointsTo.Spec.{may}
use llvmdg.PointsTo.Sets.{PointsToSets}
use llvmdg.PointerAnalysis.{
  Setting, PsNodeType, alloc, load, store, gep, phi, cast, function, call, call_funcptr,
  call_return, entry, return, fork, join, invalidate_locals, free, invalidate_object, constant,
  noop, memcpy, null_addr, unknown_mem, invalidated,
}
use llvmdg.PointerAnalysis.Machine.{State}
use llvmdg.PointerAnalysis.Copy.{copied_offset}
use llvmdg.PointerAnalysis.Invariant.{points, content, Grows, IsSame}
use llvmdg.PointerAnalysis.Loops.{All-map}
use llvmdg.PointerAnalysis.Demands.{Receives, Loaded, CopyReaches}
use llvmdg.PointerAnalysis.Process.Transferred.{TransferredAs, Transferred}

module _ (I : PointsToSets) {s s' : State I} (e : IsSame I s s') where
  same_points : (n u : Node) (q : Offset) → points I s' n u q ≡ true → points I s n u q ≡ true
  same_points n u q h = cc (h, e.nodes n u q)

  same_may :
      (n u : Node) (q : Offset) → may (points I s' n) u q ≡ true → may (points I s n) u q ≡ true
  same_may n u q h = cc (h, e.nodes n u q, e.nodes n u unknown)

  same_content :
      (n : Node) (o : Offset) (u : Node) (q : Offset)
      → may (content I s' n o) u q ≡ true
      → may (content I s n o) u q ≡ true
  same_content n o u q h = cc (h, e.objects n o u q, e.objects n o u unknown)

module _ (I : PointsToSets) (c : Setting) (n : Node) {s s' t t' : State I} (e : IsSame I s s')
    (g : Grows I t t') where
  Receives-steady : (op : Node) → Receives I n (points I s op) t → Receives I n (points I s' op) t'
  Receives-steady op h u q m = g.nodes n u q (h u q (same_may I e op u q m))

  contents-steady :
      (o : Node) (off : Offset)
      → Receives I n (content I s o off) t
      → Receives I n (content I s' o off) t'
  contents-steady o off h u q m = g.nodes n u q (h u q (same_content I e o off u q m))

  Loaded-steady : (p : Pointer) → Loaded I c n s p t → Loaded I c n s' p t'
  Loaded-steady p (h, k) = (
    λ d. (
      contents-steady p.target p.offset (h d).0,
      contents-steady p.target unknown (h d).1,
      λ w o. contents-steady p.target o ((h d).2 w o),
    ),
    λ w. g.nodes n c.special.unknown_memory unknown (k w),
  )

  CopyReaches-steady :
      (dest : Node) (p : Pointer) → CopyReaches I c n dest s p t → CopyReaches I c n dest s' p t'
  CopyReaches-steady dest p h d u q m k o b v r i =
      let old = h d u q (same_may I e dest u q m) k o b v r (same_content I e p.target o v r i) in
      elim (Bool-cases (may (content I t u unknown) v r)) [
        | inl wide ↦ ground (arith, g.objects u unknown v r wide)
        | inr narrow ↦
            ground (arith, g.objects u (copied_offset c u o p.offset q) v r (ground arith))
      ]

  TransferredAs-steady : (k : PsNodeType) → TransferredAs I c k n s t → TransferredAs I c k n s' t'
  TransferredAs-steady load h =
      λ op f u q m. Loaded-steady (pointer u q) (h op f u q (same_points I e op u q m))
  TransferredAs-steady store h = λ from to f k u q m d v r i.
      g.objects u q v r
        (h from to f k u q (same_points I e to u q m) d v r (same_may I e from v r i))
  TransferredAs-steady gep h = λ op f u q m. g.nodes n _ _ (h op f u q (same_points I e op u q m))
  TransferredAs-steady cast h = λ op f. Receives-steady op (h op f)
  TransferredAs-steady phi h = All-map (c.nodes n).operands (λ op. Receives-steady op) h
  TransferredAs-steady return h = All-map (c.nodes n).operands (λ op. Receives-steady op) h
  TransferredAs-steady call_return (h, k) = (
    λ i.
        All-map (c.nodes n).operands
          (λ op f u q m d a b.
            g.nodes n c.special.invalidated 0 (f u q (same_may I e op u q m) d a b))
          (h i),
    All-map (c.nodes n).operands (λ op. Receives-steady op) k,
  )
  TransferredAs-steady call_funcptr h =
      λ op f u q m a b. g.nodes n u q (h op f u q (same_points I e op u q m) a b)
  TransferredAs-steady fork h =
      λ op f u q m a. g.nodes n u q (h op f u q (same_points I e op u q m) a)
  TransferredAs-steady memcpy h = λ source dest f k u q m.
      CopyReaches-steady dest (pointer u q) (h source dest f k u q (same_points I e source u q m))
  TransferredAs-steady alloc h = tt
  TransferredAs-steady function h = tt
  TransferredAs-steady call h = tt
  TransferredAs-steady entry h = tt
  TransferredAs-steady join h = tt
  TransferredAs-steady invalidate_locals h = tt
  TransferredAs-steady free h = tt
  TransferredAs-steady invalidate_object h = tt
  TransferredAs-steady constant h = tt
  TransferredAs-steady noop h = tt
  TransferredAs-steady null_addr h = tt
  TransferredAs-steady unknown_mem h = tt
  TransferredAs-steady invalidated h = tt

  -- A demand that is met stays met in later states with the same pointers.
  pub Transferred-steady : Transferred I c n s t → Transferred I c n s' t'
  Transferred-steady h = TransferredAs-steady (c.nodes n).type h
