-- ===== src/PointsTo/OffsetsSet/Must.antt =====
-- mustPointTo on a set of offsets per node.
use llvmdg.Common.{◌≡◌, ◌↔◌, refl, true, false, [], ◌∷◌, some, arith}
use llvmdg.Offset.{Offset, is_unknown}
use llvmdg.Std.OrderedMap.{find}
use llvmdg.Bitvector.Elements.{some_bit}
use llvmdg.PointsTo.{Node, pointer}
use llvmdg.PointsTo.OffsetsSet.{OffsetsSet, points_to, must_point_to, is_singleton}
use llvmdg.PointsTo.OffsetsSet.Add.{IsOffsetsSet}

-- All pointers of the set have the target.
abbrev pub AllTo : OffsetsSet → Node → Type 0
AllTo m t = (u : Node) (q : Offset) → points_to m u q ≡ true → u ≡ t

AllTo-is_singleton :
    (m : OffsetsSet) (t : Node) (o : Offset)
    → IsOffsetsSet m
    → points_to m t o ≡ true
    → AllTo m t
    → is_singleton m ≡ true
unfolding is_singleton points_to find
AllTo-is_singleton [] t o v h all = cc
AllTo-is_singleton (e ∷ []) t o v h all = refl
AllTo-is_singleton ((k, a) ∷ (j, b) ∷ m) t o v h all =
    let (x, in_a) = some_bit a v.vectors.0.0 v.vectors.0.1 in
    let (y, in_b) = some_bit b v.vectors.1.0.0 v.vectors.1.0.1 in
    let k_is : k ≡ t = all k x (ground arith) in
    let j_is : j ≡ t = all j y (ground (arith, v.sorted.1.0)) in
    absurd (omega (arith, v.sorted.1.0, k_is, j_is))

is_singleton-AllTo :
    (m : OffsetsSet) (t : Node) (o : Offset)
    → is_singleton m ≡ true
    → points_to m t o ≡ true
    → AllTo m t
unfolding is_singleton points_to find
is_singleton-AllTo [] t o one h u q k = absurd (cc one)
is_singleton-AllTo ((k, a) ∷ []) t o one h u q f = ground arith
is_singleton-AllTo (e ∷ f ∷ m) t o one h u q k = absurd (ground arith)

-- On a sound set and for a known offset, mustPointTo answers yes exactly if the pointer is in the set
-- and all pointers of the set have its target, whatever their offsets.
pub must_point_to_exact :
    (m : OffsetsSet) (t : Node) (o : Offset)
    → IsOffsetsSet m
    → is_unknown o ≡ false
    → (must_point_to m (pointer t o) ≡ some true) ↔ (points_to m t o ≡ true) × AllTo m t
unfolding must_point_to
must_point_to_exact m t o v k = (
  λ h.
      let here : points_to m t o ≡ true = ground arith in
      (here, is_singleton-AllTo m t o (ground arith) here),
  λ (here, all). ground (arith, AllTo-is_singleton m t o v here all),
)
