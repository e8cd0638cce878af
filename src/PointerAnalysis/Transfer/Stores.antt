-- ===== src/PointerAnalysis/Transfer/Stores.antt =====
-- lib/PointerAnalysis/PointerAnalysis.cpp: which memory a store changes.
use llvmdg.Common.{◌≡◌, true, false, Bool-cases, inl, inr, [], ◌∷◌, some, get_elem?}
use llvmdg.Offset.{Offset}
use llvmdg.PointsTo.{Node, Pointer, pointer}
use llvmdg.PointsTo.Sets.{PointsToSets}
use llvmdg.PointerAnalysis.{Setting, can_be_dereferenced}
use llvmdg.PointerAnalysis.Machine.{State, or_each, ◌>>=◌}
use llvmdg.PointerAnalysis.Memory.{pointers_of, store_pointers, operand}
use llvmdg.PointerAnalysis.Transfer.{process_store, store_to}
use llvmdg.PointerAnalysis.Demands.{StoredTo, Holds}
use llvmdg.PointerAnalysis.Invariant.{points, has_object, is_target, IsSound, Ran}
use llvmdg.PointerAnalysis.Rules.{Ran-weaken, or_each-Ran, return-Ran}
use llvmdg.PointerAnalysis.Objects.{store_pointers-Ran}
use llvmdg.PointerAnalysis.Objects.Created.{with_objects-Ran}
use llvmdg.PointerAnalysis.Loops.{pointers-Ran, operand-Ran}

module _ (I : PointsToSets) (c : Setting) (n : Node) where
  store_to-Ran :
      (s : State I) (p : Pointer) {from : Node}
      → get_elem? (c.nodes n).operands 0 ≡ some from
      → is_target I c p.target ≡ true
      → IsSound I c s
      → Ran I c s (StoredTo I c n from s p) (store_to I c n p s)
  unfolding store_to
  store_to-Ran s p {from} e k v = elim (Bool-cases (can_be_dereferenced c p)) [
    | inr skipped ↦
        rw (skipped, store_to) (return-Ran I c s false v (λ h. absurd (cc (h, skipped))))
    | inl taken ↦
        rw (taken, store_to)
          (with_objects-Ran I c s p
            (or_each (λ o.
              operand I c n 0 >>= λ op. pointers_of I op >>= λ ps. store_pointers I o p.offset ps))
            (StoredTo I c n from s p) k taken v
            λ t w g has.
              Ran-weaken I c
                (or_each-Ran I c t
                  (λ o. operand I c n 0 >>= λ op.
                    pointers_of I op >>= λ ps. store_pointers I o p.offset ps)
                  (p.target ∷ []) (λ o. Holds I o p.offset (points I t from))
                  (λ o. has_object I t o ≡ true)
                  (λ o r r' h a u q m. h.objects o p.offset u q (a u q m))
                  (λ o r has_o x h.
                    operand-Ran I c r n 0 (λ op r. store_pointers I o p.offset (r.points_to op) r)
                      (Holds I o p.offset (points I t from)) e
                      (Ran-weaken I c
                        (store_pointers-Ran I c r o p.offset (r.points_to from) (h.created o has_o)
                          (x.sets from) x)
                        (λ r' y j a u q m. a u q (h.nodes from u q m))))
                  w (has, tt))
                (λ r x h a d u q m. a.0 u q (g.nodes from u q m)))
  ]

  pub process_store-Ran :
      (s : State I) {from to : Node}
      → get_elem? (c.nodes n).operands 0 ≡ some from
      → get_elem? (c.nodes n).operands 1 ≡ some to
      → IsSound I c s
      → Ran I c s
          (λ t.
            (u : Node) (q : Offset)
            → points I s to u q ≡ true
            → StoredTo I c n from s (pointer u q) t)
          (process_store I c n s)
  unfolding process_store
  process_store-Ran s {from} {to} e f v =
      operand-Ran I c s n 1 (λ op t. or_each (store_to I c n) (I.elements (t.points_to op)) t)
        (λ t.
          (u : Node) (q : Offset)
          → points I s to u q ≡ true
          → StoredTo I c n from s (pointer u q) t)
        f
        (pointers-Ran I c s (store_to I c n) (s.points_to to) (StoredTo I c n from s)
          (λ p t t' g h d u q m. g.objects p.target p.offset u q (h d u q m))
          (λ p t k w g.
            Ran-weaken I c (store_to-Ran t p e k w)
              (λ r x h a d u q m. a d u q (g.nodes from u q m)))
          v (v.sets to))
