-- ===== src/PointerAnalysis/Copy/Entries.antt =====
-- lib/PointerAnalysis/PointerAnalysis.cpp: what processMemcpy copies from one memory object to another.
use llvmdg.Common.{
  ℕ, ◌≡◌, refl, sym, ap, subst, Bool, true, false, ◌==◌, Bool-cases, Option-cases, inl, inr, List,
  [], ◌∷◌, Option, none, some, All, arith, if◌then◌else◌, ==_refl,
}
use llvmdg.Offset.{Offset, unknown}
use llvmdg.Std.OrderedMap.{find, value_or}
use llvmdg.PointsTo.{Node}
use llvmdg.PointsTo.Spec.{may}
use llvmdg.PointsTo.Sets.{PointsToSets}
use llvmdg.PointerAnalysis.{Setting, null_pointer}
use llvmdg.PointerAnalysis.Machine.{State, MemoryObject, or_each, return, ◌>>=◌}
use llvmdg.PointerAnalysis.Memory.{object_of, store_pointer}
use llvmdg.PointerAnalysis.Copy.{is_copied, copied_offset, copy_entry, copy_to}
use llvmdg.PointerAnalysis.Demands.{Holds}
use llvmdg.PointerAnalysis.Invariant.{content, held, has_object, is_some, IsSound, IsSoundSet, Ran}
use llvmdg.PointerAnalysis.Rules.{Ran-weaken, or_each-Ran, or_else-Ran, return-Ran}
use llvmdg.PointerAnalysis.Objects.{store_pointer-Ran, store_pointers-Ran}
use llvmdg.PointerAnalysis.Loops.{read-Ran, All-map}

-- A loop over the entries of a map reaches the value that is found under a key.
All-entry :
    {V : Type 0} (P : ℕ × V → Type 0) (k : ℕ) (v : V) (m : List (ℕ × V))
    → All P m
    → find k m ≡ some v
    → P (k, v)
unfolding find
All-entry P k v [] a h = cc h
All-entry P k v ((j, w) ∷ m) a h = elim (Bool-cases (j == k)) [
  | inl same ↦ let e : ◌≡◌ {A = ℕ × _} (j, w) (k, v) = ground arith in subst P e a.0
  | inr other ↦ All-entry P k v m a.1 (ground arith)
]

module _ (I : PointsToSets) (c : Setting) (contains_null : Bool)
    (src_offset dest_offset len : Offset) where
  -- What the copy takes from the memory of a source to that of a destination
  abbrev pub Copied : State I → Node → Node → State I → Type 0
  Copied s so d t =
      (o : Offset)
      → is_copied c o src_offset len ≡ true
      → Holds I d (copied_offset c d o src_offset dest_offset) (content I s so o) t

  copy_entry-Ran :
      (s : State I) (d : Node) (e : Offset × I.Set)
      → has_object I s d ≡ true
      → IsSoundSet I c e.1
      → IsSound I c s
      → Ran I c s
          (λ t.
            is_copied c e.0 src_offset len ≡ true
            → Holds I d (copied_offset c d e.0 src_offset dest_offset) (I.points_to e.1) t)
          (copy_entry I c d src_offset dest_offset len e s)
  unfolding copy_entry
  copy_entry-Ran s d e h w v = elim (Bool-cases (is_copied c e.0 src_offset len)) [
    | inr outside ↦ rw (outside, copy_entry) (return-Ran I c s false v (λ k. absurd (cc k)))
    | inl inside ↦
        rw (inside, copy_entry)
          (Ran-weaken I c
            (store_pointers-Ran I c s d (copied_offset c d e.0 src_offset dest_offset) e.1 h w v)
            (λ t x g m k. m))
  ]

  -- The entries of a memory object
  copy_entries-Ran :
      (s : State I) (d so : Node) (mo : MemoryObject I)
      → s.memory so ≡ some mo
      → has_object I s d ≡ true
      → IsSound I c s
      → Ran I c s (Copied s so d) (or_each (copy_entry I c d src_offset dest_offset len) mo s)
  copy_entries-Ran s d so mo at h v =
      Ran-weaken I c
        (or_each-Ran I c s (copy_entry I c d src_offset dest_offset len) mo
          (λ e t.
            is_copied c e.0 src_offset len ≡ true
            → Holds I d (copied_offset c d e.0 src_offset dest_offset) (I.points_to e.1) t)
          (λ e. IsSoundSet I c e.1)
          (λ e t t' g a k u q m.
            g.objects d (copied_offset c d e.0 src_offset dest_offset) u q (a k u q m))
          (λ e t k w g. copy_entry-Ran t d e (g.created d h) k w) v (v.objects so mo at))
        (λ t w g a o k.
          subst
            (λ y.
              Holds I d (copied_offset c d o src_offset dest_offset) (I.points_to (held I y o)) t)
            (sym at) (entry t a o k (find o mo) refl))
    where
      entry :
          (t : State I)
          → All
              (λ e.
                is_copied c e.0 src_offset len ≡ true
                → Holds I d (copied_offset c d e.0 src_offset dest_offset) (I.points_to e.1) t)
              mo
          → (o : Offset) → is_copied c o src_offset len ≡ true
          → (x : Option I.Set) → find o mo ≡ x
          → Holds I d
              (copied_offset c d o src_offset dest_offset)
              (I.points_to (value_or I.nothing x))
              t
      entry t a o k none e u q m =
          absurd (ground (arith, I.nothing-points_to u q, I.nothing-points_to u unknown))
      entry t a o k (some x) e u q m =
          All-entry
            (λ e.
              is_copied c e.0 src_offset len ≡ true
              → Holds I d (copied_offset c d e.0 src_offset dest_offset) (I.points_to e.1) t)
            o x mo a e k u q m

  -- The null pointer at the unknown offset, if the source may hold it
  abbrev pub HoldsNull : Node → State I → Type 0
  HoldsNull d t = contains_null ≡ true → may (content I t d unknown) c.special.null 0 ≡ true

  add_null-Ran :
      (s : State I) (d : Node) (b : Bool)
      → has_object I s d ≡ true
      → IsSound I c s
      → Ran I c s
          (λ t. b ≡ true → may (content I t d unknown) c.special.null 0 ≡ true)
          ((if b then store_pointer I d unknown (null_pointer c) else return false) s)
  add_null-Ran s d false h v = return-Ran I c s false v (λ e. absurd (cc e))
  add_null-Ran s d true h v =
      Ran-weaken I c
        (store_pointer-Ran I c s d unknown (null_pointer c) h
          (ground (arith, ==_refl c.special.null)) v)
        (λ t w g m e. m)

  pub copy_to-Ran :
      (s : State I) (sources : List Node) (d : Node)
      → All (λ so. has_object I s so ≡ true) sources
      → has_object I s d ≡ true
      → IsSound I c s
      → Ran I c s
          (λ t. HoldsNull d t × All (λ so. Copied s so d t) sources)
          (copy_to I c contains_null sources src_offset dest_offset len d s)
  unfolding copy_to
  copy_to-Ran s sources d a h v =
      or_else-Ran I c s
        (if contains_null then store_pointer I d unknown (null_pointer c) else return false)
        (or_each
          (λ so. object_of I so >>= λ mo. or_each (copy_entry I c d src_offset dest_offset len) mo)
          sources)
        (λ t t' g m e. g.objects d unknown c.special.null 0 (m e))
        (add_null-Ran s d contains_null h v)
        (λ t w g.
          or_each-Ran I c t
            (λ so.
              object_of I so >>= λ mo. or_each (copy_entry I c d src_offset dest_offset len) mo)
            sources (λ so. Copied s so d) (λ so. has_object I t so ≡ true)
            (λ so r r' j f o k u q m.
              j.objects d (copied_offset c d o src_offset dest_offset) u q (f o k u q m))
            (λ so r k x j.
              Ran-weaken I c
                (copy_object-Ran r d so (j.created so k) (j.created d (g.created d h)) x)
                (λ r' y i f o b u q m. f o b u q (j.objects so o u q (g.objects so o u q m))))
            w (All-map sources (λ so. g.created so) a))
    where
      copy_object-Ran :
          (r : State I) (d so : Node)
          → has_object I r so ≡ true
          → has_object I r d ≡ true
          → IsSound I c r
          → Ran I c r (Copied r so d) (
              (object_of I so >>= λ mo. or_each (copy_entry I c d src_offset dest_offset len) mo) r)
      copy_object-Ran r d so k h x = elim (Option-cases (r.memory so)) [
        | inl missing ↦ absurd (cc (ap (is_some I) missing, k))
        | inr (mo, at) ↦
            read-Ran I c r (λ mo. or_each (copy_entry I c d src_offset dest_offset len) mo)
              (Copied r so d) (rw (at, object_of) refl) (copy_entries-Ran r d so mo at h x)
      ]
