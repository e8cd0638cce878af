-- ===== src/PointsTo/Sets/Instances.antt =====
-- Two implementations of the interface: the plain set, and the set of offsets per node.
use llvmdg.Common.{
  ℕ, ◌≡◌, refl, sym, Bool, true, false, ◌&&◌, ◌||◌, ◌==◌, List, [], ◌∷◌, ◌++◌, map, suc, is_empty,
  arith,
}
use llvmdg.Offset.{Offset}
use llvmdg.Std.OrderedSet.{mem}
use llvmdg.Std.OrderedMap.{Sorted-mono, find_below}
use llvmdg.Bitvector
use llvmdg.Bitvector.{Buckets}
use llvmdg.Bitvector.Elements.{mem-elements}
use llvmdg.PointsTo.{Node, Pointer, pointer}
use llvmdg.PointsTo.Sets.{some-IsAddedTo, PointsToSets}
use llvmdg.PointsTo.Ordered.{member, Ascending}
use llvmdg.PointsTo.SimpleSet
use llvmdg.PointsTo.SimpleSet.{SimpleSet}
use llvmdg.PointsTo.SimpleSet.Laws.{holds, add-Added}
use llvmdg.PointsTo.SimpleSet.Remove.{add_set_exact}
use llvmdg.PointsTo.OffsetsSet
use llvmdg.PointsTo.OffsetsSet.{OffsetsSet}
use llvmdg.PointsTo.OffsetsSet.Add.{IsOffsetsSet, add-IsAdded, points_to-missing}
use llvmdg.PointsTo.OffsetsSet.Union.{add_set-IsSetUnion, points_to-cons, points_to-nil}

pub member-nil : (u : Node) (q : Offset) → member [] (pointer u q) ≡ false
unfolding member
member-nil u q = refl

pub no_pointers :
    (s : SimpleSet) (u : Node) (q : Offset) → SimpleSet.empty s ≡ true → holds s u q ≡ false
no_pointers [] u q h = member-nil u q
no_pointers (x ∷ s) u q h = cc

abbrev pub simple_sets : PointsToSets
simple_sets = record {
  Set = SimpleSet;
  Valid = Ascending;
  points_to = holds;
  nothing = [];
  add = λ p s. SimpleSet.add p.target p.offset s;
  add_set = SimpleSet.add_set;
  elements = λ s. s;
  empty = SimpleSet.empty;
  nothing-Valid = tt;
  nothing-points_to = member-nil;
  add_law = λ p s v.
      some-IsAddedTo p s (SimpleSet.add p.target p.offset s) (add-Added p.target p.offset s v);
  add_set_law = λ rhs s w v.
      let (sorted, members, unchanged) = add_set_exact rhs s v in
      record {
        valid = sorted;
        pointers = λ u q. members (pointer u q);
        unchanged = λ h u q. unchanged h (pointer u q);
      };
  elements_law = λ s u q v. refl;
  empty_law = no_pointers;
}

member-append :
    (xs ys : List Pointer) (p : Pointer) → member (xs ++ ys) p ≡ (member xs p || member ys p)
unfolding member
member-append [] ys p = refl
member-append (x ∷ xs) ys p = ground (arith, member-append xs ys p)

member-map :
    (t : Node) (xs : List ℕ) (u : Node) (q : Offset)
    → member (map (pointer t) xs) (pointer u q) ≡ (t == u && mem xs q)
unfolding member mem
member-map t [] u q = ground arith
member-map t (x ∷ xs) u q = ground (arith, member-map t xs u q)

-- An iteration over the set of offsets per node visits exactly the pointers that it holds.
pub member-pointers :
    (m : OffsetsSet) (u : Node) (q : Offset)
    → IsOffsetsSet m
    → member (OffsetsSet.pointers m) (pointer u q) ≡ OffsetsSet.points_to m u q
unfolding OffsetsSet.pointers member
member-pointers [] u q v = sym (points_to-nil u q)
member-pointers ((t, bits) ∷ m) u q v =
    let rest : IsOffsetsSet m = record {
      sorted = Sorted-mono 0 (suc t) m (omega arith) v.sorted.1;
      vectors = v.vectors.1;
    } in
    ground (
      arith,
      member-append (map (pointer t) (Bitvector.elements bits)) (OffsetsSet.pointers m)
          (pointer u q),
      member-map t (Bitvector.elements bits) u q,
      mem-elements bits q v.vectors.0.0,
      member-pointers m u q rest,
      points_to-cons t bits m u q,
      below (t == u) refl,
    )
  where
    below : (b : Bool) → (t == u) ≡ b → b ≡ true → OffsetsSet.points_to m u q ≡ false
    below b e h = points_to-missing u m (find_below (suc t) u m v.sorted.1 (ground (arith, e, h))) q

pub no_offsets :
    (m : OffsetsSet) (u : Node) (q : Offset)
    → is_empty m ≡ true
    → OffsetsSet.points_to m u q ≡ false
no_offsets [] u q h = points_to-nil u q
no_offsets (e ∷ m) u q h = cc

abbrev pub offsets_sets : PointsToSets
offsets_sets = record {
  Set = OffsetsSet;
  Valid = IsOffsetsSet;
  points_to = OffsetsSet.points_to;
  nothing = [];
  add = λ p m. OffsetsSet.add p.target p.offset m;
  add_set = OffsetsSet.add_set;
  elements = OffsetsSet.pointers;
  empty = is_empty;
  nothing-Valid = record { sorted = tt; vectors = tt };
  nothing-points_to = points_to-nil;
  add_law = λ p m v.
      some-IsAddedTo p m (OffsetsSet.add p.target p.offset m) (add-IsAdded p.target p.offset m v);
  add_set_law = λ s m w v.
      let union = add_set-IsSetUnion s m w v in
      record {
        valid = union.valid;
        pointers = union.pointers;
        unchanged = λ h u q. union.unchanged u q h;
      };
  elements_law = λ m u q v. member-pointers m u q v;
  empty_law = no_offsets;
}
