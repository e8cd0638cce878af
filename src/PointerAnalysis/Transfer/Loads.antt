-- ===== src/PointerAnalysis/Transfer/Loads.antt =====
-- lib/PointerAnalysis/PointerAnalysis.cpp: which pointers a load gives to its node.
use llvmdg.Common.{
  ◌≡◌, refl, Bool, true, false, Option, none, some, All, arith, is_empty, ==_refl, if◌then◌else◌,
}
use llvmdg.Offset.{Offset, unknown}
use llvmdg.Std.OrderedMap.{find, All-find, value_or}
use llvmdg.PointsTo.{Node}
use llvmdg.PointsTo.Sets.{PointsToSets}
use llvmdg.PointerAnalysis.{Setting, null_pointer}
use llvmdg.PointerAnalysis.Machine.{State, MemoryObject, M, or_each, return, ◌>>=◌}
use llvmdg.PointerAnalysis.Memory.{stored, add_points_to, add_all_points_to}
use llvmdg.PointerAnalysis.Transfer.{
  load_at, load_any, add_found, error_empty_points_to, is_zero_initialized,
}
use llvmdg.PointerAnalysis.Demands.{Receives}
use llvmdg.PointerAnalysis.Invariant.{is_fixed, IsSound, IsSoundSet, Ran}
use llvmdg.PointerAnalysis.Rules.{Ran-weaken, or_each-Ran, or_else-Ran, return-Ran}
use llvmdg.PointerAnalysis.Primitives.{add_points_to-Ran, add_all_points_to-Ran}
use llvmdg.PointerAnalysis.Objects.{stored-IsSoundSet}

module _ (I : PointsToSets) (c : Setting) (n : Node) (free : is_fixed I c n ≡ false) where
  null-Ran :
      (s : State I)
      → IsSound I c s
      → Ran I c s (λ t. Unit {0}) (add_points_to I n (null_pointer c) s)
  null-Ran s v =
      Ran-weaken I c
        (add_points_to-Ran I c s n (null_pointer c) free (ground (arith, ==_refl c.special.null)) v)
        (λ t w g h. tt)

  Receives-nothing : (t : State I) → Receives I n (I.points_to I.nothing) t
  Receives-nothing t u q h =
      absurd (ground (arith, I.nothing-points_to u q, I.nothing-points_to u unknown))

  pub Receives-stored :
      (o : Offset) (mo : MemoryObject I) (t : State I)
      → All (λ e. Receives I n (I.points_to e.1) t) mo
      → Receives I n (I.points_to (stored I o mo)) t
  Receives-stored o mo t a = found (find o mo) refl
    where
      found :
          (x : Option I.Set) → find o mo ≡ x → Receives I n (I.points_to (value_or I.nothing x)) t
      found none e = Receives-nothing t
      found (some x) e = All-find (λ y. Receives I n (I.points_to y) t) o x mo a e

  pub add_found-Ran :
      (s : State I) (x : Option I.Set)
      → IsSoundSet I c (value_or I.nothing x)
      → IsSound I c s
      → Ran I c s (Receives I n (I.points_to (value_or I.nothing x))) (add_found I c n x s)
  add_found-Ran s none w v = return-Ran I c s false v (Receives-nothing s)
  add_found-Ran s (some x) w v = add_all_points_to-Ran I c s n x free w v

  -- The first part of a load from a known offset
  abbrev pub load_first : Node → MemoryObject I → Option I.Set → M I Bool
  load_first target mo x = elim x [
    | none ↦ is_zero_initialized I c target >>= λ z.
        if z then add_points_to I n (null_pointer c) else elim (find unknown mo) [
          | none ↦ error_empty_points_to I c n target
          | some ps ↦ return false
        ]
    | some ps ↦ add_all_points_to I n ps
  ]

  load_first-Ran :
      (s : State I) (target : Node) (mo : MemoryObject I) (x : Option I.Set)
      → IsSoundSet I c (value_or I.nothing x)
      → IsSound I c s
      → Ran I c s (Receives I n (I.points_to (value_or I.nothing x))) (load_first target mo x s)
  load_first-Ran s target mo (some x) w v = add_all_points_to-Ran I c s n x free w v
  load_first-Ran s target mo none w v = zero_case (s.zero_initialized target) (find unknown mo)
    where
      zero_case :
          (z : Bool) (x : Option I.Set)
          → Ran I c s (Receives I n (I.points_to I.nothing)) (
              (if z then add_points_to I n (null_pointer c) else elim x [
                | none ↦ error_empty_points_to I c n target
                | some ps ↦ return false
              ])
                s)
      zero_case true x = Ran-weaken I c (null-Ran s v) (λ t w g h. Receives-nothing t)
      zero_case false none = return-Ran I c s false v (Receives-nothing s)
      zero_case false (some x) = return-Ran I c s false v (Receives-nothing s)

  pub load_at-Ran :
      (s : State I) (target : Node) (off : Offset) (mo : MemoryObject I)
      → All (λ e. IsSoundSet I c e.1) mo
      → IsSound I c s
      → Ran I c s
          (λ t.
            Receives I n (I.points_to (stored I off mo)) t
            × Receives I n (I.points_to (stored I unknown mo)) t)
          (load_at I c n target off mo s)
  unfolding load_at
  load_at-Ran s target off mo a v =
      or_else-Ran I c s (load_first target mo (find off mo)) (add_found I c n (find unknown mo))
        (λ t t' g h u q m. g.nodes n u q (h u q m))
        (load_first-Ran s target mo (find off mo) (stored-IsSoundSet I c off mo a) v)
        (λ t w g. add_found-Ran t (find unknown mo) (stored-IsSoundSet I c unknown mo a) w)

  -- The first part of a load from an unknown offset
  abbrev load_none : Node → Bool → Bool → M I Bool
  load_none target only b =
      if b
      then (is_zero_initialized I c target >>= λ z.
          if z
          then add_points_to I n (null_pointer c)
          else if only
          then error_empty_points_to I c n target
          else return false)
      else return false

  load_none-Ran :
      (s : State I) (target : Node) (only b : Bool)
      → IsSound I c s
      → Ran I c s (λ t. Unit {0}) (load_none target only b s)
  load_none-Ran s target only false v = return-Ran I c s false v tt
  load_none-Ran s target only true v = zero_case (s.zero_initialized target) only
    where
      zero_case :
          (z b : Bool)
          → Ran I c s
              (λ t. Unit {0})
              ((if z
                  then add_points_to I n (null_pointer c)
                  else if b
                  then error_empty_points_to I c n target
                  else return false)
                s)
      zero_case true b = null-Ran s v
      zero_case false true = return-Ran I c s false v tt
      zero_case false false = return-Ran I c s false v tt

  pub load_any-Ran :
      (s : State I) (target : Node) (only : Bool) (mo : MemoryObject I)
      → All (λ e. IsSoundSet I c e.1) mo
      → IsSound I c s
      → Ran I c s
          (λ t. All (λ e. Receives I n (I.points_to e.1) t) mo)
          (load_any I c n target only mo s)
  unfolding load_any
  load_any-Ran s target only mo a v =
      Ran-weaken I c
        (or_else-Ran I c s (load_none target only (is_empty mo))
          (or_each (λ e. add_all_points_to I n e.1) mo) (λ t t' g h. tt)
          (load_none-Ran s target only (is_empty mo) v)
          (λ t w g.
            or_each-Ran I c t (λ e. add_all_points_to I n e.1) mo
              (λ e. Receives I n (I.points_to e.1)) (λ e. IsSoundSet I c e.1)
              (λ e t t' g h u q m. g.nodes n u q (h u q m))
              (λ e t k w g. add_all_points_to-Ran I c t n e.1 free k w) w a))
        (λ t w g h. h.1)
