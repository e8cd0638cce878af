-- ===== src/PointerAnalysis/Copy/Loops.antt =====
-- lib/PointerAnalysis/PointerAnalysis.cpp: processMemcpy(node).
use llvmdg.Common.{
  ◌≡◌, ◌<◌, subst, true, false, not, ◌||◌, Bool-cases, inl, inr, [], ◌∷◌, some, arith, get_elem?,
  is_empty,
}
use llvmdg.Offset.{Offset, unknown}
use llvmdg.PointsTo.{Node, Pointer, pointer}
use llvmdg.PointsTo.Spec.{may}
use llvmdg.PointsTo.Sets.{PointsToSets}
use llvmdg.PointerAnalysis.{Setting, can_be_dereferenced}
use llvmdg.PointerAnalysis.Machine.{State, or_each, ◌>>=◌, when}
use llvmdg.PointerAnalysis.Memory.{pointers_of, operand}
use llvmdg.PointerAnalysis.Copy.{
  is_copied, copied_offset, copy_objects, copy_into, copy_from, process_memcpy,
}
use llvmdg.PointerAnalysis.Demands.{CopyReaches}
use llvmdg.PointerAnalysis.Invariant.{points, content, has_object, is_target, Grows, IsSound, Ran}
use llvmdg.PointerAnalysis.Rules.{Ran-weaken, return-Ran}
use llvmdg.PointerAnalysis.Objects.Created.{with_objects-Ran, dereferenced-alloc}
use llvmdg.PointerAnalysis.Loops.{pointers-Ran, operand-Ran}
use llvmdg.PointerAnalysis.Copy.Objects.{copy_objects-Ran, CopiedTo}

dereferenced-offset :
    (c : Setting) (u : Node) (q r : Offset)
    → can_be_dereferenced c (pointer u q) ≡ true
    → can_be_dereferenced c (pointer u r) ≡ true
unfolding can_be_dereferenced
dereferenced-offset c u q r h = h

copied_offset-unknown :
    (c : Setting) (d : Node) (o src_offset : Offset)
    → copied_offset c d o src_offset unknown ≡ unknown
unfolding copied_offset
copied_offset-unknown c d o src_offset = ground arith

module _ (I : PointsToSets) (c : Setting) (n : Node) (long : 0 < (c.nodes n).length)
    (some_nodes : 0 < c.node_count) where
  copy_into-Ran :
      (s : State I) (p q : Pointer)
      → is_target I c p.target ≡ true
      → can_be_dereferenced c p ≡ true
      → has_object I s p.target ≡ true
      → is_target I c q.target ≡ true
      → IsSound I c s
      → Ran I c s
          (λ t. can_be_dereferenced c q ≡ true → CopiedTo I c p (c.nodes n).length s q t)
          (copy_into I c n p (p.target ∷ []) q s)
  unfolding copy_into
  copy_into-Ran s p q kp d h k v = elim (Bool-cases (can_be_dereferenced c q)) [
    | inr skipped ↦ rw (skipped, copy_into) (return-Ran I c s false v (λ e. absurd (cc e)))
    | inl taken ↦
        rw (taken, copy_into)
          (with_objects-Ran I c s q
            (λ dests.
              when (not (is_empty dests))
                (copy_objects I c (p.target ∷ []) dests p q (c.nodes n).length))
            (λ t. true ≡ true → CopiedTo I c p (c.nodes n).length s q t) k taken v
            λ t w g has.
              Ran-weaken I c
                (copy_objects-Ran I c t p q (c.nodes n).length long some_nodes
                  (dereferenced-alloc I c p kp d) (dereferenced-alloc I c q k taken)
                  (g.created p.target h) has w)
                (λ r x j f e o b u i m. f o b u i (g.objects p.target o u i m)))
  ]

  copy_from-Ran :
      (s : State I) (dest : Node) (p : Pointer)
      → is_target I c p.target ≡ true
      → IsSound I c s
      → Ran I c s (CopyReaches I c n dest s p) (copy_from I c n dest p s)
  unfolding copy_from
  copy_from-Ran s dest p k v = elim (Bool-cases (can_be_dereferenced c p)) [
    | inr skipped ↦
        rw (skipped, copy_from) (return-Ran I c s false v (λ e. absurd (cc (e, skipped))))
    | inl taken ↦
        rw (taken, copy_from)
          (with_objects-Ran I c s p
            (λ sources.
              when (not (is_empty sources))
                (pointers_of I dest >>= λ ps. or_each (copy_into I c n p sources) (I.elements ps)))
            (CopyReaches I c n dest s p) k taken v
            λ t w g has.
              Ran-weaken I c
                (pointers-Ran I c t (copy_into I c n p (p.target ∷ [])) (t.points_to dest)
                  (λ q r. can_be_dereferenced c q ≡ true → CopiedTo I c p (c.nodes n).length t q r)
                  (λ q r r' j f e o b u i m. j.objects q.target _ u i (f e o b u i m))
                  (λ q r kq x j.
                    Ran-weaken I c (copy_into-Ran r p q k taken (j.created p.target has) kq x)
                      (λ r' y i f e o b u a m. f e o b u a (j.objects p.target o u a m)))
                  w (w.sets dest))
                (λ r x j f e u q m d o b v i h.
                  reaches t r f u q (g.nodes dest u q m) d o b v i (g.objects p.target o v i h)))
  ]
    where
      reaches :
          (t r : State I)
          → ((u : Node) (q : Offset)
              → points I t dest u q ≡ true
              → can_be_dereferenced c (pointer u q) ≡ true
              → CopiedTo I c p (c.nodes n).length t (pointer u q) r)
          → (u : Node) (q : Offset) → may (points I t dest) u q ≡ true
          → can_be_dereferenced c (pointer u q) ≡ true
          → (o : Offset) → is_copied c o p.offset (c.nodes n).length ≡ true
          → (v : Node) (i : Offset) → may (content I t p.target o) v i ≡ true
          → (may (content I r u (copied_offset c u o p.offset q)) v i
              || may (content I r u unknown) v i)
            ≡ true
      reaches t r f u q m d o b v i h = elim (Bool-cases (points I t dest u q)) [
        | inl here ↦ ground (arith, f u q here d o b v i h)
        | inr elsewhere ↦
            let e : points I t dest u unknown ≡ true = ground arith in
            let y = f u unknown e (dereferenced-offset c u q unknown d) o b v i h in
            let z : may (content I r u unknown) v i ≡ true =
              subst (λ k. may (content I r u k) v i ≡ true) (copied_offset-unknown c u o p.offset)
                y in
            ground arith
      ]

  pub process_memcpy-Ran :
      (s : State I) {source dest : Node}
      → get_elem? (c.nodes n).operands 0 ≡ some source
      → get_elem? (c.nodes n).operands 1 ≡ some dest
      → IsSound I c s
      → Ran I c s
          (λ t.
            (u : Node) (q : Offset)
            → points I s source u q ≡ true
            → CopyReaches I c n dest s (pointer u q) t)
          (process_memcpy I c n s)
  unfolding process_memcpy
  process_memcpy-Ran s {source} {dest} e f v =
      operand-Ran I c s n 0
        (λ a. operand I c n 1 >>= λ b.
          pointers_of I a >>= λ ps. or_each (copy_from I c n b) (I.elements ps))
        (λ t.
          (u : Node) (q : Offset)
          → points I s source u q ≡ true
          → CopyReaches I c n dest s (pointer u q) t)
        e
        (operand-Ran I c s n 1
          (λ b. pointers_of I source >>= λ ps. or_each (copy_from I c n b) (I.elements ps))
          (λ t.
            (u : Node) (q : Offset)
            → points I s source u q ≡ true
            → CopyReaches I c n dest s (pointer u q) t)
          f
          (pointers-Ran I c s (copy_from I c n dest) (s.points_to source) (CopyReaches I c n dest s)
            (λ p t t' g h d u q m k o b w i x. kept p t t' g u q o w i (h d u q m k o b w i x))
            (λ p t k w g.
              Ran-weaken I c (copy_from-Ran t dest p k w) (λ r x j h d u q m a o b i y z.
                h d u q (g.nodes dest u q m) a o b i y (g.objects p.target o i y z)))
            v (v.sets source)))
    where
      kept :
          (p : Pointer) (t t' : State I)
          → Grows I t t'
          → (u : Node) (q o : Offset) (w : Node) (i : Offset)
          → (may (content I t u (copied_offset c u o p.offset q)) w i
              || may (content I t u unknown) w i)
            ≡ true
          → (may (content I t' u (copied_offset c u o p.offset q)) w i
              || may (content I t' u unknown) w i)
            ≡ true
      kept p t t' g u q o w i h = elim (Bool-cases (may (content I t u unknown) w i)) [
        | inl wide ↦ ground (arith, g.objects u unknown w i wide)
        | inr narrow ↦
            ground (arith, g.objects u (copied_offset c u o p.offset q) w i (ground arith))
      ]
