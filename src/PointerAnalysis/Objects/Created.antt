-- ===== src/PointerAnalysis/Objects/Created.antt =====
-- lib/PointerAnalysis/PointerAnalysis.cpp and PointerAnalysisFI.h: which memory objects a pointer leads
-- to, and what a new memory object makes of a state.
use llvmdg.Common.{
  ◌≡◌, refl, sym, ap, subst, Bool, true, inl, inr, List, [], ◌∷◌, some, All, arith, Option-cases,
}
use llvmdg.Std.OrderedMap.{find}
use llvmdg.PointsTo.{Node, Pointer}
use llvmdg.PointsTo.Spec.{may}
use llvmdg.PointsTo.Sets.{PointsToSets}
use llvmdg.PointerAnalysis.{Setting, has_type, alloc, can_be_dereferenced}
use llvmdg.PointerAnalysis.Machine.{State, MemoryObject, M, ◌>>=◌, continue}
use llvmdg.PointerAnalysis.Memory.{with_object, get_memory_objects, allocation_site}
use llvmdg.PointerAnalysis.Invariant.{
  content, held, has_object, is_some, is_target, Grows, Grows-refl, IsSame, IsSame-refl, IsSoundSet,
  IsSound, Ran,
}
use llvmdg.PointerAnalysis.Rules.{Ran-after}
use llvmdg.PointerAnalysis.Primitives.{update_elim, update_at}

module _ (I : PointsToSets) where
  pub with_object-Grows : (s : State I) (n : Node) → Grows I s (with_object I n s)
  unfolding with_object find
  with_object-Grows s n = elim (Option-cases (s.memory n)) [
    | inl missing ↦
        rw (missing, with_object)
          (record {
            nodes = λ m u q h. h;
            objects = λ m o u q h.
                update_elim (λ k. may (I.points_to (held I k o)) u q ≡ true) s.memory n (some []) m
                  (λ e. cc (ap (λ k. may (content I s k o) u q) e, h)) h;
            created =
                λ m h. update_elim (λ k. is_some I k ≡ true) s.memory n (some []) m (λ e. refl) h;
            zeroed = λ m h. h;
          })
    | inr (mo, at) ↦ rw (at, with_object) (Grows-refl I s)
  ]

  pub with_object-IsSame : (s : State I) (n : Node) → IsSame I s (with_object I n s)
  unfolding with_object find
  with_object-IsSame s n = elim (Option-cases (s.memory n)) [
    | inl missing ↦
        rw (missing, with_object)
          (record {
            nodes = λ m u q. refl;
            objects = λ m o u q.
                update_elim (λ k. I.points_to (held I k o) u q ≡ content I s m o u q) s.memory n
                  (some []) m (λ e. cc (ap (λ k. content I s k o u q) e)) refl;
          })
    | inr (mo, at) ↦ rw (at, with_object) (IsSame-refl I s)
  ]

  pub with_object-has : (s : State I) (n : Node) → has_object I (with_object I n s) n ≡ true
  unfolding with_object
  with_object-has s n = elim (Option-cases (s.memory n)) [
    | inl missing ↦
        rw (missing, with_object) (update_at (λ k. is_some I k ≡ true) s.memory n (some []) refl)
    | inr (mo, at) ↦ rw (at, with_object) (ap (is_some I) at)
  ]

module _ (I : PointsToSets) (c : Setting) where
  pub with_object-IsSound :
      (s : State I) (n : Node) → IsSound I c s → IsSound I c (with_object I n s)
  unfolding with_object
  with_object-IsSound s n v = elim (Option-cases (s.memory n)) [
    | inl missing ↦
        rw (missing, with_object)
          (record {
            sets = v.sets;
            objects = λ m mo.
                update_elim (λ k. k ≡ some mo → All (λ e. IsSoundSet I c e.1) mo) s.memory n
                  (some []) m
                  (λ e h.
                    let same : ◌≡◌ {A = MemoryObject I} [] mo = cc h in
                    subst (All (λ e. IsSoundSet I c e.1)) same tt)
                  (v.objects m mo);
            one = v.one;
            self = v.self;
          })
    | inr (mo, at) ↦ rw (at, with_object) v
  ]

  -- A pointer that can be dereferenced points to an allocation.
  pub dereferenced-alloc :
      (p : Pointer)
      → is_target I c p.target ≡ true
      → can_be_dereferenced c p ≡ true
      → has_type c alloc p.target ≡ true
  unfolding can_be_dereferenced
  dereferenced-alloc p t h = ground arith

  -- The memory object of an allocation is its own, and it is created if it is missing.
  pub get_memory_objects-alloc :
      (s : State I) (p : Pointer)
      → has_type c alloc p.target ≡ true
      → get_memory_objects I c p s ≡ some (p.target ∷ [], with_object I p.target s)
  unfolding get_memory_objects allocation_site
  get_memory_objects-alloc s p h = ground arith

  -- A command on the objects of a pointer that can be dereferenced runs on the object of its target.
  pub with_objects-Ran :
      (s : State I) (p : Pointer) (f : List Node → M I Bool) (Q : State I → Type 0)
      → is_target I c p.target ≡ true
      → can_be_dereferenced c p ≡ true
      → IsSound I c s
      → ((t : State I)
          → IsSound I c t
          → Grows I s t
          → has_object I t p.target ≡ true
          → Ran I c t Q (f (p.target ∷ []) t))
      → Ran I c s Q ((get_memory_objects I c p >>= f) s)
  with_objects-Ran s p f Q t d v run =
      subst (Ran I c s Q)
        (sym (ap (continue f) (get_memory_objects-alloc s p (dereferenced-alloc p t d))))
        (Ran-after I c (with_object-Grows I s p.target) (with_object-IsSame I s p.target) (
          run (with_object I p.target s) (with_object-IsSound s p.target v)
            (with_object-Grows I s p.target) (with_object-has I s p.target)))
