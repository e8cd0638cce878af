-- ===== src/PointerAnalysis/Primitives.antt =====
-- What the primitive commands of the pointer analysis make of a state.
use llvmdg.Common.{
  ◌≡◌, refl, sym, ap, subst, ◌∙◌, Bool, true, false, ◌==◌, Bool-cases, inl, inr, some, arith,
  ==_iff, ==_refl, length,
}
use llvmdg.Offset.{Offset}
use llvmdg.PointsTo.{Node, Pointer}
use llvmdg.PointsTo.Spec.{may}
use llvmdg.PointsTo.Sets.{PointsToSets}
use llvmdg.PointsTo.Sets.Added.{
  added_more, added_here, added_from, added_same, united_more, united_here, united_from,
}
use llvmdg.PointerAnalysis.{Setting}
use llvmdg.PointerAnalysis.Machine.{State, update}
use llvmdg.PointerAnalysis.Memory.{add_points_to, add_all_points_to}
use llvmdg.PointerAnalysis.Invariant.{points, is_target, is_fixed, IsSoundSet, IsSound, Ran}

-- A property of an updated field
pub update_elim :
    {A : Type 0} (P : A → Type 0) (f : Node → A) (n : Node) (x : A) (m : Node)
    → (n ≡ m → P x)
    → P (f m)
    → P (update f n x m)
update_elim P f n x m here there = elim (Bool-cases (n == m)) [
  | inl e ↦ rw e (here ((==_iff n m).0 e))
  | inr e ↦ rw e there
]

pub update_at :
    {A : Type 0} (P : A → Type 0) (f : Node → A) (n : Node) (x : A) → P x → P (update f n x n)
update_at P f n x h = rw (==_refl n) h

module _ (I : PointsToSets) (c : Setting) where
  -- A node is given a sound set that loses no pointer.
  pub set_node-Ran :
      (s : State I) (n : Node) (b : Bool) (x : I.Set) (Q : State I → Type 0)
      → is_fixed I c n ≡ false
      → IsSound I c s
      → IsSoundSet I c x
      → ((u : Node) (q : Offset) → may (points I s n) u q ≡ true → may (I.points_to x) u q ≡ true)
      → (b ≡ false → (u : Node) (q : Offset) → I.points_to x u q ≡ points I s n u q)
      → Q (record s { points_to = update s.points_to n x })
      → Ran I c s Q (some (b, record s { points_to = update s.points_to n x }))
  set_node-Ran s n b x Q free v w more same post = record {
    result = (b, record s { points_to = update s.points_to n x });
    returns = refl;
    sound = record {
      sets = λ m. update_elim (IsSoundSet I c) s.points_to n x m (λ e. w) (v.sets m);
      objects = v.objects;
      one = λ m h.
          update_elim (λ y. (length (I.elements y) == 1) ≡ true) s.points_to n x m
            (λ e. absurd (changed m e h)) (v.one m h);
      self = λ m h.
          update_elim (λ y. I.points_to y m 0 ≡ true) s.points_to n x m
            (λ e. absurd (changed m e (ground (arith, h)))) (v.self m h);
    };
    grows = record {
      nodes = λ m u q h.
          update_elim (λ y. may (I.points_to y) u q ≡ true) s.points_to n x m
            (λ e. more u q (subst (λ k. may (points I s k) u q ≡ true) (sym e) h)) h;
      objects = λ m o u q h. h;
      created = λ m h. h;
      zeroed = λ m h. h;
    };
    unchanged = λ h. record {
      nodes = λ m u q.
          update_elim (λ y. I.points_to y u q ≡ points I s m u q) s.points_to n x m
            (λ e. same h u q ∙ ap (λ k. points I s k u q) e) refl;
      objects = λ m o u q. refl;
    };
    post = post;
  }
    where
      changed : (m : Node) → n ≡ m → is_fixed I c m ≡ true → ⊥
      changed m e h = cc (ap (is_fixed I c) e)

  -- add keeps a set sound.
  pub add-IsSoundSet :
      (p : Pointer) (x : I.Set)
      → is_target I c p.target ≡ true
      → IsSoundSet I c x
      → IsSoundSet I c (I.add p x).1
  add-IsSoundSet p x t v = record {
    valid = (I.add_law p x v.valid).valid;
    targets = λ u q h. elim (added_from (I.add_law p x v.valid) u q h) [
      | inl e ↦ subst (λ k. is_target I c k ≡ true) e t
      | inr old ↦ v.targets u q old
    ];
  }

  pub add_set-IsSoundSet :
      (rhs x : I.Set) → IsSoundSet I c rhs → IsSoundSet I c x → IsSoundSet I c (I.add_set rhs x).1
  add_set-IsSoundSet rhs x w v = record {
    valid = (I.add_set_law rhs x w.valid v.valid).valid;
    targets = λ u q h. elim (united_from (I.add_set_law rhs x w.valid v.valid) u q h) [
      | inl old ↦ v.targets u q old
      | inr new ↦ w.targets u q new
    ];
  }

  pub nothing-IsSoundSet : IsSoundSet I c I.nothing
  nothing-IsSoundSet = record {
    valid = I.nothing-Valid;
    targets = λ u q h. cc (h, I.nothing-points_to u q);
  }

  -- A pointer added to a node that is not fixed
  pub add_points_to-Ran :
      (s : State I) (n : Node) (p : Pointer)
      → is_fixed I c n ≡ false
      → is_target I c p.target ≡ true
      → IsSound I c s
      → Ran I c s (λ t. may (points I t n) p.target p.offset ≡ true) (add_points_to I n p s)
  unfolding add_points_to
  add_points_to-Ran s n p free t v =
      let a = I.add_law p (s.points_to n) (v.sets n).valid in
      set_node-Ran s n (I.add p (s.points_to n)).0 (I.add p (s.points_to n)).1
        (λ t. may (points I t n) p.target p.offset ≡ true) free v
        (add-IsSoundSet p (s.points_to n) t (v.sets n)) (added_more a) (added_same a)
        (update_at (λ y. may (I.points_to y) p.target p.offset ≡ true) s.points_to n
          (I.add p (s.points_to n)).1 (added_here a))

  -- The pointers of a set added to it
  pub add_all_points_to-Ran :
      (s : State I) (n : Node) (ps : I.Set)
      → is_fixed I c n ≡ false
      → IsSoundSet I c ps
      → IsSound I c s
      → Ran I c s
          (λ t.
            (u : Node) (q : Offset)
            → may (I.points_to ps) u q ≡ true
            → may (points I t n) u q ≡ true)
          (add_all_points_to I n ps s)
  unfolding add_all_points_to
  add_all_points_to-Ran s n ps free w v =
      let a = I.add_set_law ps (s.points_to n) w.valid (v.sets n).valid in
      set_node-Ran s n (I.add_set ps (s.points_to n)).0 (I.add_set ps (s.points_to n)).1
        (λ t.
          (u : Node) (q : Offset) → may (I.points_to ps) u q ≡ true → may (points I t n) u q ≡ true)
        free v (add_set-IsSoundSet ps (s.points_to n) w (v.sets n)) (united_more a) a.unchanged
        (update_at
          (λ y.
            (u : Node) (q : Offset)
            → may (I.points_to ps) u q ≡ true
            → may (I.points_to y) u q ≡ true)
          s.points_to n (I.add_set ps (s.points_to n)).1 (united_here a))
