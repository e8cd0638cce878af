-- ===== src/PointerAnalysis/Copy/Zero.antt =====
-- lib/PointerAnalysis/PointerAnalysis.cpp: the flag zeroInitialized in processMemcpy.
use llvmdg.Common.{
  ◌≡◌, ◌≢◌, ◌<◌, refl, ◌∙◌, true, false, not, ◌&&◌, ◌==◌, [], ◌∷◌, some, arith, lt→ltb,
}
use llvmdg.Offset.{Offset, unknown, is_unknown, is_zero}
use llvmdg.PointsTo.{Node, Pointer}
use llvmdg.PointsTo.Sets.{PointsToSets}
use llvmdg.PointerAnalysis.{Setting, has_type, alloc}
use llvmdg.PointerAnalysis.Machine.{State, after, update}
use llvmdg.PointerAnalysis.Memory.{object_of}
use llvmdg.PointerAnalysis.Copy.{copy_objects, copy_zero, copy_to}
use llvmdg.PointerAnalysis.Copy.Objects.{unwrap_constants-alloc}

module _ (I : PointsToSets) (c : Setting) where
  copy_zero-whole :
      (s : State I) (source dest : Node) (p : Pointer) (len : Offset)
      → s.zero_initialized source ≡ true
      → len ≢ unknown
      → (c.nodes source).size ≡ len
      → (c.nodes dest).size ≡ len
      → p.offset ≡ 0
      → copy_zero I c source dest p len s
        ≡ some (false, record s { zero_initialized = update s.zero_initialized dest true })
  unfolding copy_zero
  copy_zero-whole s source dest p len z k f g o = rw z (rw whole refl)
    where
      whole :
          (not (is_unknown (c.nodes source).size)
            && ((c.nodes source).size == (c.nodes dest).size
                && (len == (c.nodes source).size && is_zero p.offset)))
          ≡ true
      whole = ground arith

  -- A copy of a whole zero-initialized object in which no pointer is stored marks the destination as
  -- zero-initialized, and reports that nothing changed.
  pub copy_objects-zero :
      (s : State I) (p q : Pointer) (len : Offset)
      → 0 < c.node_count
      → has_type c alloc p.target ≡ true
      → has_type c alloc q.target ≡ true
      → 0 < len
      → len ≢ unknown
      → (c.nodes p.target).size ≡ len
      → (c.nodes q.target).size ≡ len
      → p.offset ≡ 0
      → s.zero_initialized p.target ≡ true
      → s.memory p.target ≡ some []
      → copy_objects I c (p.target ∷ []) (q.target ∷ []) p q len s
        ≡ some (false, record s { zero_initialized = update s.zero_initialized q.target true })
  unfolding copy_objects copy_to
  copy_objects-zero s p q len hc ap_ aq hl k f g o z m = rw (lt→ltb 0 len hl) (
      after _ (unwrap_constants-alloc I c c.node_count p s hc ap_)
      ∙ rw ap_ (
          after _ (unwrap_constants-alloc I c c.node_count q s hc aq)
          ∙ rw aq (
              after _ (copy_zero-whole s p.target q.target p len z k f g o)
              ∙ rw (m, object_of) refl)))
