-- ===== src/PointerAnalysis/Transfer/LoadLoop.antt =====
-- lib/PointerAnalysis/PointerAnalysis.cpp: the loops of processLoad.
use llvmdg.Common.{
  ◌≡◌, refl, sym, ap, subst, Bool, true, false, ◌==◌, Bool-cases, Option-cases, inl, inr, [], ◌∷◌,
  some, All, arith, get_elem?, length, is_empty, ==_refl, if◌then◌else◌,
}
use llvmdg.Offset.{Offset, unknown, is_unknown}
use llvmdg.PointsTo.{Node, Pointer, pointer, is_unknown_memory}
use llvmdg.PointsTo.Sets.{PointsToSets}
use llvmdg.PointerAnalysis.{Setting, can_be_dereferenced, unknown_pointer, has_type, alloc}
use llvmdg.PointerAnalysis.Machine.{State, MemoryObject, or_each, when}
use llvmdg.PointerAnalysis.Memory.{stored, object_of}
use llvmdg.PointerAnalysis.Transfer.{
  process_load, load_pointer, load_object, load_at, load_any, null_or_error, error,
}
use llvmdg.PointerAnalysis.Demands.{Found, Loaded, Receives}
use llvmdg.PointerAnalysis.Invariant.{
  points, content, held, has_object, is_some, is_target, is_fixed, Grows, IsSound, IsSoundSet, Ran,
}
use llvmdg.PointerAnalysis.Rules.{Ran-weaken, or_each-Ran, return-Ran}
use llvmdg.PointerAnalysis.Primitives.{add_points_to-Ran}
use llvmdg.PointerAnalysis.Objects.Created.{with_objects-Ran, dereferenced-alloc}
use llvmdg.PointerAnalysis.Loops.{pointers-Ran, operand-Ran, read-Ran}
use llvmdg.PointerAnalysis.Transfer.Loads.{load_at-Ran, load_any-Ran, Receives-stored}

module _ (I : PointsToSets) (c : Setting) (n : Node) (free : is_fixed I c n ≡ false) where
  Found-stable :
      (s : State I) (p : Pointer) (t t' : State I)
      → Grows I t t'
      → Found I c n s p t
      → Found I c n s p t'
  Found-stable s p t t' g f = (
    λ u q m. g.nodes n u q (f.0 u q m),
    λ u q m. g.nodes n u q (f.1 u q m),
    λ h o u q m. g.nodes n u q (f.2 h o u q m),
  )

  Found-earlier :
      (s s' : State I) (p : Pointer) (t : State I)
      → Grows I s s'
      → Found I c n s' p t
      → Found I c n s p t
  Found-earlier s s' p t g f = (
    λ u q m. f.0 u q (g.objects p.target p.offset u q m),
    λ u q m. f.1 u q (g.objects p.target unknown u q m),
    λ h o u q m. f.2 h o u q (g.objects p.target o u q m),
  )

  -- The set that a memory object holds, in the state where it is read
  Receives-held :
      (s t : State I) (o : Node) (mo : MemoryObject I) (off : Offset)
      → s.memory o ≡ some mo
      → Receives I n (I.points_to (stored I off mo)) t
      → Receives I n (content I s o off) t
  Receives-held s t o mo off at r =
      subst (λ k. Receives I n (I.points_to (held I k off)) t) (sym at) r

  load_object-Ran :
      (s : State I) (p : Pointer) (only : Bool)
      → has_object I s p.target ≡ true
      → IsSound I c s
      → Ran I c s (Found I c n s p) (load_object I c n p only p.target s)
  unfolding load_object
  load_object-Ran s p only h v = elim (Option-cases (s.memory p.target)) [
    | inl missing ↦ absurd (cc (ap (is_some I) missing, h))
    | inr (mo, at) ↦
        read-Ran I c s
          (λ mo.
            if is_unknown p.offset
            then load_any I c n p.target only mo
            else load_at I c n p.target p.offset mo)
          (Found I c n s p) (rw (at, object_of) refl)
          (at_offset mo at (v.objects p.target mo at) (is_unknown p.offset) refl)
  ]
    where
      at_offset :
          (mo : MemoryObject I)
          → s.memory p.target ≡ some mo
          → All (λ e. IsSoundSet I c e.1) mo
          → (b : Bool) → is_unknown p.offset ≡ b
          → Ran I c s (Found I c n s p) (
              (if b then load_any I c n p.target only mo else load_at I c n p.target p.offset mo) s)
      at_offset mo at a true e =
          Ran-weaken I c (load_any-Ran I c n free s p.target only mo a v) (λ t w g all. (
            Receives-held s t p.target mo p.offset at
                (Receives-stored I c n free p.offset mo t all),
            Receives-held s t p.target mo unknown at (Receives-stored I c n free unknown mo t all),
            λ h o. Receives-held s t p.target mo o at (Receives-stored I c n free o mo t all),
          ))
      at_offset mo at a false e =
          Ran-weaken I c (load_at-Ran I c n free s p.target p.offset mo a v) (λ t w g f. (
            Receives-held s t p.target mo p.offset at f.0,
            Receives-held s t p.target mo unknown at f.1,
            λ h. absurd (cc (e, h)),
          ))

  unknown_memory-skipped :
      (p : Pointer) → is_unknown_memory c.special p ≡ true → can_be_dereferenced c p ≡ true → ⊥
  unfolding can_be_dereferenced
  unknown_memory-skipped p h d = ground arith

  load_objects-Ran :
      (s : State I) (p : Pointer)
      → is_target I c p.target ≡ true
      → can_be_dereferenced c p ≡ true
      → has_object I s p.target ≡ true
      → IsSound I c s
      → Ran I c s
          (Found I c n s p)
          (when (has_type c alloc p.target) (or_each (load_object I c n p true) (p.target ∷ [])) s)
  load_objects-Ran s p k d h v = rw (dereferenced-alloc I c p k d) (
      Ran-weaken I c
        (or_each-Ran I c s (load_object I c n p true) (p.target ∷ []) (λ o. Found I c n s p)
          (λ o. (o ≡ p.target) × (has_object I s p.target ≡ true)) (λ o. Found-stable s p)
          (λ o t e w g.
            subst (λ o. Ran I c t (Found I c n s p) (load_object I c n p true o t)) (sym e.0)
              (Ran-weaken I c (load_object-Ran t p true (g.created p.target e.1) w)
                (λ r x j f. Found-earlier s t p r g f)))
          v ((refl, h), tt))
        (λ t w g a. a.0))

  load_pointer-Ran :
      (s : State I) (p : Pointer)
      → is_target I c p.target ≡ true
      → IsSound I c s
      → Ran I c s (Loaded I c n s p) (load_pointer I c n p s)
  unfolding load_pointer
  load_pointer-Ran s p k v = elim (Bool-cases (is_unknown_memory c.special p)) [
    | inl somewhere ↦
        rw (somewhere, load_pointer)
          (Ran-weaken I c (add_points_to-Ran I c s n (unknown_pointer c) free target v)
            (λ t w g h. ((λ d. absurd (unknown_memory-skipped p somewhere d)), λ e. h)))
    | inr somewhere_else ↦ elim (Bool-cases (can_be_dereferenced c p)) [
      | inr skipped ↦
          rw (somewhere_else, skipped, load_pointer)
            (return-Ran I c s false v
              ((λ d. absurd (cc (d, skipped))), λ e. absurd (cc (e, somewhere_else))))
      | inl taken ↦
          rw (somewhere_else, taken, load_pointer)
            (Ran-weaken I c
              (with_objects-Ran I c s p
                (λ objects. when (has_type c alloc p.target) (
                  if is_empty objects
                  then null_or_error I c n p.target
                  else or_each (load_object I c n p (length objects == 1)) objects))
                (Found I c n s p) k taken v
                λ t w g h.
                  Ran-weaken I c (load_objects-Ran t p k taken h w)
                    (λ r x j f. Found-earlier s t p r g f))
              (λ t w g f. ((λ d. f), λ e. absurd (cc (e, somewhere_else)))))
    ]
  ]
    where
      target : is_target I c c.special.unknown_memory ≡ true
      target = ground (arith, ==_refl c.special.unknown_memory)

  pub process_load-Ran :
      (s : State I) {op : Node}
      → get_elem? (c.nodes n).operands 0 ≡ some op
      → IsSound I c s
      → Ran I c s
          (λ t. (u : Node) (q : Offset) → points I s op u q ≡ true → Loaded I c n s (pointer u q) t)
          (process_load I c n s)
  unfolding process_load
  process_load-Ran s {op} e v =
      operand-Ran I c s n 0
        (λ op t.
          (if I.empty (t.points_to op)
              then error I c op
              else or_each (load_pointer I c n) (I.elements (t.points_to op)))
            t)
        (λ t. (u : Node) (q : Offset) → points I s op u q ≡ true → Loaded I c n s (pointer u q) t) e
        (elim (Bool-cases (I.empty (s.points_to op))) [
          | inl none_there ↦ rw none_there (
              return-Ran I c s false v
                (λ u q h. absurd (cc (h, I.empty_law (s.points_to op) u q none_there))))
          | inr some_there ↦ rw some_there (
              pointers-Ran I c s (load_pointer I c n) (s.points_to op) (Loaded I c n s)
                (λ p t t' g f. (
                  λ d. Found-stable s p t t' g (f.0 d),
                  λ h. g.nodes n c.special.unknown_memory unknown (f.1 h),
                ))
                (λ p t k w g.
                  Ran-weaken I c (load_pointer-Ran t p k w)
                    (λ r x h f. (λ d. Found-earlier s t p r g (f.0 d), f.1)))
                v (v.sets op))
        ])
