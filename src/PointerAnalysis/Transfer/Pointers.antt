-- ===== src/PointerAnalysis/Transfer/Pointers.antt =====
-- lib/PointerAnalysis/PointerAnalysis.cpp: which pointers casts, joins and GEPs give to a node.
use llvmdg.Common.{◌≡◌, ap, true, false, some, All, arith, get_elem?}
use llvmdg.PointsTo.{Node, Pointer}
use llvmdg.PointsTo.Spec.{may}
use llvmdg.PointsTo.Sets.{PointsToSets}
use llvmdg.PointerAnalysis.{Setting}
use llvmdg.PointerAnalysis.Machine.{State, or_each}
use llvmdg.PointerAnalysis.Memory.{add_points_to, add_all_points_to}
use llvmdg.PointerAnalysis.Transfer.{process_cast, process_phi, process_gep, gep_pointer}
use llvmdg.PointerAnalysis.Demands.{Shifted, Receives}
use llvmdg.PointerAnalysis.Invariant.{points, is_target, is_fixed, IsSound, Ran}
use llvmdg.PointerAnalysis.Rules.{Ran-weaken, or_each-Ran}
use llvmdg.PointerAnalysis.Primitives.{add_points_to-Ran, add_all_points_to-Ran}
use llvmdg.PointerAnalysis.Loops.{pointers-Ran, operand-Ran, All-Unit}

module _ (I : PointsToSets) (c : Setting) (n : Node) (free : is_fixed I c n ≡ false) where
  pub process_cast-Ran :
      (s : State I) {op : Node}
      → get_elem? (c.nodes n).operands 0 ≡ some op
      → IsSound I c s
      → Ran I c s (Receives I n (points I s op)) (process_cast I c n s)
  unfolding process_cast
  process_cast-Ran s {op} e v =
      operand-Ran I c s n 0 (λ op. λ t. add_all_points_to I n (t.points_to op) t)
        (Receives I n (points I s op)) e
        (add_all_points_to-Ran I c s n (s.points_to op) free (v.sets op) v)

  pub process_phi-Ran :
      (s : State I)
      → IsSound I c s
      → Ran I c s
          (λ t. All (λ op. Receives I n (points I s op) t) (c.nodes n).operands)
          (process_phi I c n s)
  unfolding process_phi
  process_phi-Ran s v =
      or_each-Ran I c s (λ op t. add_all_points_to I n (t.points_to op) t) (c.nodes n).operands
        (λ op. Receives I n (points I s op)) (λ op. Unit {0})
        (λ op t t' g h u q m. g.nodes n u q (h u q m))
        (λ op t k w g.
          Ran-weaken I c (add_all_points_to-Ran I c t n (t.points_to op) free (w.sets op) w)
            (λ t' w' g' h u q m. h u q (g.nodes op u q m)))
        v (All-Unit (c.nodes n).operands)

  gep_pointer-target : (p : Pointer) → (gep_pointer I c n p).target ≡ p.target
  unfolding gep_pointer
  gep_pointer-target p = ground arith

  pub process_gep-Ran :
      (s : State I) {op : Node}
      → get_elem? (c.nodes n).operands 0 ≡ some op
      → IsSound I c s
      → Ran I c s (Shifted I c n op s) (process_gep I c n s)
  unfolding process_gep
  process_gep-Ran s {op} e v =
      operand-Ran I c s n 0
        (λ op t.
          or_each (λ p. add_points_to I n (gep_pointer I c n p)) (I.elements (t.points_to op)) t)
        (Shifted I c n op s) e
        (pointers-Ran I c s (λ p. add_points_to I n (gep_pointer I c n p)) (s.points_to op)
          (λ p t.
            may (points I t n) (gep_pointer I c n p).target (gep_pointer I c n p).offset ≡ true)
          (λ p t t' g h. g.nodes n _ _ h)
          (λ p t k w g.
            add_points_to-Ran I c t n (gep_pointer I c n p) free
              (cc (ap (is_target I c) (gep_pointer-target p), k)) w)
          v (v.sets op))
