-- ===== src/PointsTo/OffsetsSet/Union.antt =====
-- The union of two sets of offsets per node.
use llvmdg.Common.{
  suc, ◌≡◌, ◌≢◌, refl, sym, ap, Bool, true, false, ◌||◌, ◌==◌, if◌then◌else◌, [], ◌∷◌, arith,
  Bool-cases, Option-cases, inl, inr,
}
use llvmdg.Offset.{Offset}
use llvmdg.Std.OrderedMap.{find, assign, value_or, find_below, Sorted-mono, All-find}
use llvmdg.Bitvector
use llvmdg.Bitvector.{Buckets}
use llvmdg.Bitvector.Order.{get-nil, nil-IsBitvector, IsBitvector}
use llvmdg.Bitvector.Union.{set_union-IsUnion}
use llvmdg.Bitvector.Elements.{some_bit}
use llvmdg.PointsTo.{Node}
use llvmdg.PointsTo.OffsetsSet.{OffsetsSet, add_set, points_to}
use llvmdg.PointsTo.OffsetsSet.Add.{
  IsVector, IsOffsetsSet, points_to-assign, assign-IsOffsetsSet, points_to-missing, points_to-found,
}

-- What the union makes of a set.
pub record IsSetUnion (s m : OffsetsSet) (r : Bool × OffsetsSet) : Type 0 where
  pub valid : IsOffsetsSet r.1
  pub pointers : (u : Node) (q : Offset) → points_to r.1 u q ≡ (points_to m u q || points_to s u q)
  pub unchanged : (u : Node) (q : Offset) → r.0 ≡ false → points_to r.1 u q ≡ points_to m u q

pub points_to-nil : (u : Node) (q : Offset) → points_to [] u q ≡ false
unfolding points_to find
points_to-nil u q = refl

pub points_to-cons :
    (t : Node) (bits : Buckets) (s : OffsetsSet) (u : Node) (q : Offset)
    → points_to ((t, bits) ∷ s) u q ≡ (if t == u then Bitvector.get bits q else points_to s u q)
unfolding points_to find
points_to-cons t bits s u q = ground arith

-- A vector of the set, or the empty one
vector : (t : Node) (m : OffsetsSet) → IsOffsetsSet m → IsBitvector (value_or [] (find t m))
vector t m v = elim (Option-cases (find t m)) [
  | inl missing ↦ rw missing nil-IsBitvector
  | inr (bits, e) ↦ rw e (All-find IsVector t bits m v.vectors e).0
]

vector-get :
    (t : Node) (m : OffsetsSet) (q : Offset)
    → Bitvector.get (value_or [] (find t m)) q ≡ points_to m t q
vector-get t m q = elim (Option-cases (find t m)) [
  | inl missing ↦ rw missing (ground (arith, get-nil q, points_to-missing t m missing q))
  | inr (bits, e) ↦ rw e (sym (points_to-found t m bits e q))
]

-- The union with a vector that is not empty is not empty.
union_nonempty :
    (rhs old : Buckets) → IsVector rhs → IsBitvector old → (Bitvector.set_union rhs old).1 ≢ []
union_nonempty rhs old w v nil =
    let (i, set) = some_bit rhs w.0 w.1 in
    ground
      (arith, (set_union-IsUnion rhs old w.0 v).bits i, get-nil i, ap (λ b. Bitvector.get b i) nil)

-- The union holds exactly the pointers of both sets, with a sound vector for each node, and reports
-- no change only if there was none.
pub add_set-IsSetUnion :
    (s m : OffsetsSet) → IsOffsetsSet s → IsOffsetsSet m → IsSetUnion s m (add_set s m)
unfolding add_set
add_set-IsSetUnion [] m w v = record {
  valid = v;
  pointers = λ u q. ground (arith, points_to-nil u q);
  unchanged = λ u q h. refl;
}
add_set-IsSetUnion ((t, rhs) ∷ s) m w v =
    let old = value_or [] (find t m) in
    let united = set_union-IsUnion rhs old w.vectors.0.0 (vector t m v) in
    let new = (Bitvector.set_union rhs old).1 in
    let rest : IsOffsetsSet s = record {
      sorted = Sorted-mono 0 (suc t) s (omega arith) w.sorted.1;
      vectors = w.vectors.1;
    } in
    let ih = add_set-IsSetUnion s (assign t new m) rest (
      assign-IsOffsetsSet t new m v
        (united.valid, union_nonempty rhs old w.vectors.0 (vector t m v))) in
    record {
      valid = ih.valid;
      pointers = λ u q. elim (Bool-cases (t == u)) [
        | inl same ↦
            let e : t ≡ u = ground arith in
            ground (
              arith,
              ih.pointers u q,
              points_to-assign t new m u q,
              points_to-cons t rhs s u q,
              united.bits q,
              vector-get t m q,
              ap (λ n. points_to m n q) e,
              points_to_below u q same,
            )
        | inr other ↦
            ground
              (arith, ih.pointers u q, points_to-assign t new m u q, points_to-cons t rhs s u q)
      ];
      unchanged = λ u q h. elim (Bool-cases (t == u)) [
        | inl same ↦
            let e : t ≡ u = ground arith in
            ground (
              arith,
              ih.unchanged u q,
              points_to-assign t new m u q,
              united.unchanged q,
              vector-get t m q,
              ap (λ n. points_to m n q) e,
            )
        | inr other ↦ ground (arith, ih.unchanged u q, points_to-assign t new m u q)
      ];
    }
  where
    points_to_below : (u : Node) (q : Offset) → (t == u) ≡ true → points_to s u q ≡ false
    points_to_below u q h =
        points_to-missing u s (find_below (suc t) u s w.sorted.1 (ground arith)) q
