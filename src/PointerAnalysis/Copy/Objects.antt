-- ===== src/PointerAnalysis/Copy/Objects.antt =====
-- lib/PointerAnalysis/PointerAnalysis.cpp: the loops of processMemcpy over pointers and objects.
use llvmdg.Common.{
  ℕ, suc, zero, ◌≡◌, ◌<◌, refl, sym, ap, subst, Bool, true, false, not, ◌&&◌, ◌==◌, [], ◌∷◌, Option,
  some, arith, if◌then◌else◌, lt→ltb,
}
use llvmdg.Offset.{Offset, is_unknown, is_zero}
use llvmdg.PointsTo.{Node, Pointer}
use llvmdg.PointsTo.Sets.{PointsToSets}
use llvmdg.PointerAnalysis.{Setting, has_type, alloc, constant}
use llvmdg.PointerAnalysis.Machine.{State, return, update, continue}
use llvmdg.PointerAnalysis.Copy.{
  is_copied, copied_offset, copy_to, copy_zero, copy_objects, unwrap_constants,
  set_zero_initialized,
}
use llvmdg.PointerAnalysis.Demands.{Holds}
use llvmdg.PointerAnalysis.Invariant.{
  content, has_object, Grows, Grows-refl, IsSame, IsSame-refl, IsSound, Ran,
}
use llvmdg.PointerAnalysis.Rules.{Ran-weaken, Ran-after, or_each-Ran}
use llvmdg.PointerAnalysis.Loops.{read-Ran}
use llvmdg.PointerAnalysis.Copy.Entries.{copy_to-Ran, Copied}

module _ (I : PointsToSets) (c : Setting) where
  -- A pointer to an allocation has no constants to unwrap, and one round of fuel is enough.
  pub unwrap_constants-alloc :
      (fuel : ℕ) (p : Pointer) (s : State I)
      → 0 < fuel
      → has_type c alloc p.target ≡ true
      → unwrap_constants I c fuel p s ≡ some (p, s)
  unfolding unwrap_constants
  unwrap_constants-alloc zero p s h k = elim h [ ]
  unwrap_constants-alloc (suc fuel) p s h k =
      let e : has_type c constant p.target ≡ false = ground arith in rw (e, unwrap_constants) refl

  -- What the flag zeroInitialized of a copied source leads to: no pointer changes.
  record IsZeroed (s : State I) (r : Option (Bool × State I)) : Type 0 where
    pub result : Bool × State I
    pub returns : r ≡ some result
    pub sound : IsSound I c result.1
    pub grows : Grows I s result.1
    pub same : IsSame I s result.1

  unchanged-IsZeroed : (s : State I) (b : Bool) → IsSound I c s → IsZeroed s (some (b, s))
  unchanged-IsZeroed s b v = record {
    result = (b, s);
    returns = refl;
    sound = v;
    grows = Grows-refl I s;
    same = IsSame-refl I s;
  }

  set_zero_initialized-IsZeroed :
      (s : State I) (n : Node) → IsSound I c s → IsZeroed s (set_zero_initialized I c n s)
  set_zero_initialized-IsZeroed s n v = record {
    result = (false, record s { zero_initialized = update s.zero_initialized n true });
    returns = refl;
    sound = record { sets = v.sets; objects = v.objects; one = v.one; self = v.self };
    grows = record {
      nodes = λ m u q h. h;
      objects = λ m o u q h. h;
      created = λ m h. h;
      zeroed = λ m h. ground (arith, h);
    };
    same = record { nodes = λ m u q. refl; objects = λ m o u q. refl };
  }

  copy_zero-IsZeroed :
      (s : State I) (source dest : Node) (sptr : Pointer) (len : Offset)
      → IsSound I c s
      → IsZeroed s (copy_zero I c source dest sptr len s)
  unfolding copy_zero
  copy_zero-IsZeroed s source dest sptr len v = zero_case (s.zero_initialized source) (
      not (is_unknown (c.nodes source).size)
      && ((c.nodes source).size == (c.nodes dest).size
          && (len == (c.nodes source).size && is_zero sptr.offset)))
    where
      zero_case :
          (z whole : Bool)
          → IsZeroed s (
              (if z
                  then if whole then set_zero_initialized I c dest else return true
                  else return false)
                s)
      zero_case true true = set_zero_initialized-IsZeroed s dest v
      zero_case true false = unchanged-IsZeroed s true v
      zero_case false whole = unchanged-IsZeroed s false v

  -- The memory that a copy's destination pointer stands for receives what the source's holds.
  abbrev pub CopiedTo : Pointer → Offset → State I → Pointer → State I → Type 0
  CopiedTo p len s q t =
      (o : Offset)
      → is_copied c o p.offset len ≡ true
      → Holds I q.target (copied_offset c q.target o p.offset q.offset) (content I s p.target o) t

  pub copy_objects-Ran :
      (s : State I) (p q : Pointer) (len : Offset)
      → 0 < len
      → 0 < c.node_count
      → has_type c alloc p.target ≡ true
      → has_type c alloc q.target ≡ true
      → has_object I s p.target ≡ true
      → has_object I s q.target ≡ true
      → IsSound I c s
      → Ran I c s (CopiedTo p len s q) (copy_objects I c (p.target ∷ []) (q.target ∷ []) p q len s)
  unfolding copy_objects
  copy_objects-Ran s p q len hl hc ap_ aq hp hq v =
      let z = copy_zero-IsZeroed s p.target q.target p len v in
      rw (lt→ltb 0 len hl, copy_objects)
        (read-Ran I c s _ (CopiedTo p len s q) (unwrap_constants-alloc c.node_count p s hc ap_) (
          rw ap_ (
            read-Ran I c s _ (CopiedTo p len s q) (unwrap_constants-alloc c.node_count q s hc aq) (
              rw aq (
                subst (Ran I c s (CopiedTo p len s q)) (sym (ap (continue _) z.returns)) (
                  Ran-after I c z.grows z.same (
                    Ran-weaken I c
                      (or_each-Ran I c z.result.1
                        (copy_to I c z.result.0 (p.target ∷ []) p.offset q.offset len)
                        (q.target ∷ [])
                        (λ d. Copied I c z.result.0 p.offset q.offset len z.result.1 p.target d)
                        (λ d. has_object I z.result.1 d ≡ true)
                        (λ d t t' g f o k u r m. g.objects d _ u r (f o k u r m))
                        (λ d t h w g.
                          Ran-weaken I c
                            (copy_to-Ran I c z.result.0 p.offset q.offset len t (p.target ∷ []) d
                              (g.created p.target (z.grows.created p.target hp), tt) (g.created d h)
                              w)
                            (λ r x j f o k u e m. f.1.0 o k u e (g.objects p.target o u e m)))
                        z.sound (z.grows.created q.target hq, tt))
                      (λ t w g f o k u r m. f.0 o k u r (z.grows.objects p.target o u r m)))))))))
