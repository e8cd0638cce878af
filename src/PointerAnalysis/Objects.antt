-- ===== src/PointerAnalysis/Objects.antt =====
-- What the commands on memory objects make of a state.
pub mod Created
use llvmdg.Common.{
  ℕ, ◌≡◌, refl, sym, ap, subst, ◌∙◌, Bool, true, false, ◌&&◌, ◌||◌, ◌==◌, if◌then◌else◌, Bool-cases,
  inl, inr, List, [], ◌∷◌, Option, none, some, All, arith, ==_iff, ==_refl, Option-cases,
}
use llvmdg.Offset.{Offset, unknown, is_unknown}
use llvmdg.Std.OrderedMap.{find, assign, find-assign, All-assign, All-find, value_or}
use llvmdg.PointsTo.{Node, Pointer}
use llvmdg.PointsTo.Spec.{may}
use llvmdg.PointsTo.Sets.{PointsToSets}
use llvmdg.PointsTo.Sets.Added.{added_more, added_here, added_same, united_more, united_here}
use llvmdg.PointerAnalysis.{Setting}
use llvmdg.PointerAnalysis.Machine.{State, MemoryObject, update}
use llvmdg.PointerAnalysis.Memory.{stored, store_pointer, store_pointers, add_pointer, add_pointers}
use llvmdg.PointerAnalysis.Invariant.{
  content, held, has_object, is_some, is_target, IsSoundSet, IsSound, Ran,
}
use llvmdg.PointerAnalysis.Primitives.{
  update_elim, update_at, add-IsSoundSet, add_set-IsSoundSet, nothing-IsSoundSet,
}

module _ (I : PointsToSets) where
  pub stored-assign :
      (off o : Offset) (x : I.Set) (mo : MemoryObject I)
      → stored I o (assign off x mo) ≡ (if off == o then x else stored I o mo)
  stored-assign off o x mo = elim (Bool-cases (off == o)) [
    | inl e ↦ rw (find-assign off o x mo, e) refl
    | inr e ↦ rw (find-assign off o x mo, e) refl
  ]

  -- A property of the set at an offset after an assignment
  stored_elim :
      (P : I.Set → Type 0) (off o : Offset) (x : I.Set) (mo : MemoryObject I)
      → (off ≡ o → P x)
      → P (stored I o mo)
      → P (stored I o (assign off x mo))
  stored_elim P off o x mo here there = elim (Bool-cases (off == o)) [
    | inl e ↦ subst P (sym (stored-assign off o x mo)) (rw e (here ((==_iff off o).0 e)))
    | inr e ↦ subst P (sym (stored-assign off o x mo)) (rw e there)
  ]

module _ (I : PointsToSets) (c : Setting) where
  pub stored-IsSoundSet :
      (off : Offset) (mo : MemoryObject I)
      → All (λ e. IsSoundSet I c e.1) mo
      → IsSoundSet I c (stored I off mo)
  stored-IsSoundSet off mo a = found (find off mo) refl
    where
      found : (o : Option I.Set) → find off mo ≡ o → IsSoundSet I c (value_or I.nothing o)
      found none e = nothing-IsSoundSet I c
      found (some x) e = All-find (IsSoundSet I c) off x mo a e

  -- An object is given sound sets that lose no pointer.
  replace_object-Ran :
      (s : State I) (n : Node) (b : Bool) (mo mo' : MemoryObject I) (Q : State I → Type 0)
      → s.memory n ≡ some mo
      → IsSound I c s
      → All (λ e. IsSoundSet I c e.1) mo'
      → ((o : Offset) (u : Node) (q : Offset)
          → may (I.points_to (stored I o mo)) u q ≡ true
          → may (I.points_to (stored I o mo')) u q ≡ true)
      → (b ≡ false
          → (o : Offset) (u : Node) (q : Offset)
          → I.points_to (stored I o mo') u q ≡ I.points_to (stored I o mo) u q)
      → Q (record s { memory = update s.memory n (some mo') })
      → Ran I c s Q (some (b, record s { memory = update s.memory n (some mo') }))
  replace_object-Ran s n b mo mo' Q at v w more same post = record {
    result = (b, record s { memory = update s.memory n (some mo') });
    returns = refl;
    sound = record {
      sets = v.sets;
      objects = λ m y.
          update_elim (λ k. k ≡ some y → All (λ e. IsSoundSet I c e.1) y) s.memory n (some mo') m
            (λ e h. subst (All (λ e. IsSoundSet I c e.1)) (cc h) w) (v.objects m y);
      one = v.one;
      self = v.self;
    };
    grows = record {
      nodes = λ m u q h. h;
      objects = λ m o u q h.
          update_elim (λ k. may (I.points_to (held I k o)) u q ≡ true) s.memory n (some mo') m
            (λ e. more o u q (cc (this m o u q e, this m o u unknown e, h))) h;
      created = λ m h. update_elim (λ k. is_some I k ≡ true) s.memory n (some mo') m (λ e. refl) h;
      zeroed = λ m h. h;
    };
    unchanged = λ h. record {
      nodes = λ m u q. refl;
      objects = λ m o u q.
          update_elim (λ k. I.points_to (held I k o) u q ≡ content I s m o u q) s.memory n
            (some mo') m (λ e. same h o u q ∙ sym (this m o u q e)) refl;
    };
    post = post;
  }
    where
      this :
          (m : Node) (o : Offset) (u : Node) (q : Offset)
          → n ≡ m
          → content I s m o u q ≡ I.points_to (stored I o mo) u q
      this m o u q e =
          ap (λ k. content I s k o u q) (sym e) ∙ ap (λ k. I.points_to (held I k o) u q) at

  -- One of its sets is replaced.
  replace_set-Ran :
      (s : State I) (n : Node) (b : Bool) (mo : MemoryObject I) (off : Offset) (x : I.Set)
      (P : I.Set → Type 0)
      → s.memory n ≡ some mo
      → IsSound I c s
      → IsSoundSet I c x
      → ((u : Node) (q : Offset)
          → may (I.points_to (stored I off mo)) u q ≡ true
          → may (I.points_to x) u q ≡ true)
      → (b ≡ false
          → (u : Node) (q : Offset) → I.points_to x u q ≡ I.points_to (stored I off mo) u q)
      → P x
      → Ran I c s
          (λ t. P (held I (t.memory n) off))
          (some (b, record s { memory = update s.memory n (some (assign off x mo)) }))
  replace_set-Ran s n b mo off x P at v w more same post =
      replace_object-Ran s n b mo (assign off x mo) (λ t. P (held I (t.memory n) off)) at v
        (All-assign (λ e. IsSoundSet I c e.1) off x mo w (v.objects n mo at))
        (λ o u q h.
          stored_elim I (λ y. may (I.points_to y) u q ≡ true) off o x mo
            (λ f. more u q (subst (λ k. may (I.points_to (stored I k mo)) u q ≡ true) (sym f) h)) h)
        (λ h o u q.
          stored_elim I (λ y. I.points_to y u q ≡ I.points_to (stored I o mo) u q) off o x mo
            (λ f. same h u q ∙ ap (λ k. I.points_to (stored I k mo) u q) f) refl)
        (update_at (λ k. P (held I k off)) s.memory n (some (assign off x mo))
          (subst P (sym (stored-assign I off off x mo)) (rw (==_refl off) post)))

  store_pointer-at :
      (s : State I) (n : Node) (off : Offset) (p : Pointer) (mo : MemoryObject I)
      → s.memory n ≡ some mo
      → store_pointer I n off p s
        ≡ some (
          (I.add p (stored I off mo)).0,
          record s {
            memory = update s.memory n (some (assign off (I.add p (stored I off mo)).1 mo));
          },
        )
  unfolding store_pointer add_pointer
  store_pointer-at s n off p mo at = rw (at, store_pointer) refl

  -- A pointer stored at an offset of an object is there, and nothing is lost.
  pub store_pointer-Ran :
      (s : State I) (n : Node) (off : Offset) (p : Pointer)
      → has_object I s n ≡ true
      → is_target I c p.target ≡ true
      → IsSound I c s
      → Ran I c s
          (λ t. may (content I t n off) p.target p.offset ≡ true)
          (store_pointer I n off p s)
  store_pointer-Ran s n off p h t v = elim (Option-cases (s.memory n)) [
    | inl missing ↦ absurd (cc (ap (is_some I) missing, h))
    | inr (mo, at) ↦
        let w = stored-IsSoundSet off mo (v.objects n mo at) in
        let a = I.add_law p (stored I off mo) w.valid in
        subst (Ran I c s (λ r. may (content I r n off) p.target p.offset ≡ true))
          (sym (store_pointer-at s n off p mo at))
          (replace_set-Ran s n (I.add p (stored I off mo)).0 mo off (I.add p (stored I off mo)).1
            (λ y. may (I.points_to y) p.target p.offset ≡ true) at v
            (add-IsSoundSet I c p (stored I off mo) t w) (added_more a) (added_same a)
            (added_here a))
  ]

  store_pointers-at :
      (s : State I) (n : Node) (off : Offset) (ps : I.Set) (mo : MemoryObject I)
      → s.memory n ≡ some mo
      → store_pointers I n off ps s
        ≡ some (
          (add_pointers I off ps mo).0,
          record s { memory = update s.memory n (some (add_pointers I off ps mo).1) },
        )
  unfolding store_pointers
  store_pointers-at s n off ps mo at = rw (at, store_pointers) refl

  -- The pointers of a set that are stored at an offset of an object are there.
  abbrev pub Stored : Node → Offset → I.Set → State I → Type 0
  Stored n off ps t =
      (u : Node) (q : Offset) → may (I.points_to ps) u q ≡ true → may (content I t n off) u q ≡ true

  add_pointers-Ran :
      (s : State I) (n : Node) (off : Offset) (ps : I.Set) (mo : MemoryObject I)
      → s.memory n ≡ some mo
      → IsSoundSet I c ps
      → IsSound I c s
      → Ran I c s (Stored n off ps) (
          some (
            (add_pointers I off ps mo).0,
            record s { memory = update s.memory n (some (add_pointers I off ps mo).1) },
          ))
  unfolding add_pointers
  add_pointers-Ran s n off ps mo at w v = elim (Bool-cases (I.empty ps)) [
    | inl none_there ↦
        rw (none_there, add_pointers)
          (replace_object-Ran s n false mo mo (Stored n off ps) at v (v.objects n mo at)
            (λ o u q h. h) (λ h o u q. refl)
            (λ u q h.
              absurd (
                ground
                  (arith, I.empty_law ps u q none_there, I.empty_law ps u unknown none_there))))
    | inr some_there ↦
        let x = stored-IsSoundSet off mo (v.objects n mo at) in
        let a = I.add_set_law ps (stored I off mo) w.valid x.valid in
        rw (some_there, add_pointers)
          (replace_set-Ran s n (I.add_set ps (stored I off mo)).0 mo off
            (I.add_set ps (stored I off mo)).1
            (λ y.
              (u : Node) (q : Offset)
              → may (I.points_to ps) u q ≡ true
              → may (I.points_to y) u q ≡ true)
            at v (add_set-IsSoundSet I c ps (stored I off mo) w x) (united_more a) a.unchanged
            (united_here a))
  ]

  pub store_pointers-Ran :
      (s : State I) (n : Node) (off : Offset) (ps : I.Set)
      → has_object I s n ≡ true
      → IsSoundSet I c ps
      → IsSound I c s
      → Ran I c s (Stored n off ps) (store_pointers I n off ps s)
  store_pointers-Ran s n off ps h w v = elim (Option-cases (s.memory n)) [
    | inl missing ↦ absurd (cc (ap (is_some I) missing, h))
    | inr (mo, at) ↦
        subst (Ran I c s (Stored n off ps)) (sym (store_pointers-at s n off ps mo at))
          (add_pointers-Ran s n off ps mo at w v)
  ]
