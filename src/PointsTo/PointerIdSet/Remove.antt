-- ===== src/PointsTo/PointerIdSet/Remove.antt =====
-- Taking one pointer out of a set of pointer IDs, its unions, and its queries.
use llvmdg.Common.{
  ◌≡◌, sym, ◌∙◌, ap, Bool, true, false, ◌&&◌, ◌||◌, some, arith, Bool-cases, inl, inr,
}
use llvmdg.Offset.{Offset, unknown, is_unknown}
use llvmdg.Bitvector
use llvmdg.Bitvector.{Buckets}
use llvmdg.Bitvector.Unset.{unset-IsBitUnset}
use llvmdg.Bitvector.Union.{set_union-IsUnion}
use llvmdg.Bitvector.Size.{size-one}
use llvmdg.PointsTo.{Node, Pointer, pointer}
use llvmdg.PointsTo.Spec.{may, without_pointer}
use llvmdg.PointsTo.LookupTable.{get_id, get_or_create}
use llvmdg.PointsTo.LookupTable.Laws.{get_or_create-IsCreated, pointer_eq→≡}
use llvmdg.PointsTo.PointerIdSet.{
  PointerIdSet, with_table, points_to, add_set, remove, may_point_to, must_point_to, is_singleton,
}
use llvmdg.PointsTo.PointerIdSet.Order.{
  IsPointerIdSet, holds, get_or_create-IsGrown, points_to-IsAsked, same_id, zero_unset,
}

-- What remove makes of a set.
pub record IsTakenOut (p : Pointer) (s : PointerIdSet) (r : Bool × PointerIdSet) : Type 0 where
  pub valid : IsPointerIdSet r.1
  pub pointers :
      (u : Node) (q : Offset) → holds r.1 u q ≡ without_pointer p.target p.offset (holds s) u q

-- remove takes the pointer out, if it is there, and no other one.
pub remove-IsTakenOut :
    (p : Pointer) (s : PointerIdSet) → IsPointerIdSet s → IsTakenOut p s (remove p s)
unfolding remove
remove-IsTakenOut p s v =
    let id = get_or_create s.table p in
    let new = get_or_create-IsCreated s.table p v.table in
    let grown = get_or_create-IsGrown s p v in
    let unset = unset-IsBitUnset id.0 s.pointers v.vector in
    record {
      valid = record {
        table = new.valid;
        vector = unset.valid;
        named = λ i h. grown.valid.named i (ground (arith, unset.bits i));
      };
      pointers = λ u q. ground (
        arith,
        unset.bits (get_id id.1 (pointer u q)),
        grown.held (pointer u q),
        new.id,
        same_id id.1 p (pointer u q) new.valid (λ e. new.positive (sym new.id ∙ e)),
      );
    }

-- What the union makes of a set.
pub record IsUnion (rhs s : PointerIdSet) (r : Bool × PointerIdSet) : Type 0 where
  pub valid : IsPointerIdSet r.1
  pub pointers : (u : Node) (q : Offset) → holds r.1 u q ≡ (holds s u q || holds rhs u q)
  pub unchanged : (u : Node) (q : Offset) → r.0 ≡ false → holds r.1 u q ≡ holds s u q

-- The union of two sets over one table holds the pointers of both, and reports no change only if there
-- was none.
pub add_set-IsUnion :
    (b : Buckets) (s : PointerIdSet)
    → IsPointerIdSet s
    → IsPointerIdSet (with_table s.table b)
    → IsUnion (with_table s.table b) s (add_set b s)
unfolding add_set
add_set-IsUnion b s v w =
    let union = set_union-IsUnion b s.pointers w.vector v.vector in
    record {
      valid = record {
        table = v.table;
        vector = union.valid;
        named = λ i h. elim (Bool-cases (Bitvector.get s.pointers i)) [
          | inl here ↦ v.named i here
          | inr there ↦ w.named i (ground (arith, union.bits i))
        ];
      };
      pointers = λ u q. union.bits (get_id s.table (pointer u q));
      unchanged = λ u q h. union.unchanged (get_id s.table (pointer u q)) h;
    }

-- mayPointTo answers yes just when the set holds the pointer, or its target with the unknown offset;
-- it keeps the set.
pub may_point_to_exact :
    (p : Pointer) (s : PointerIdSet)
    → IsPointerIdSet s
    → IsPointerIdSet (may_point_to p s).1
      × ((may_point_to p s).0 ≡ may (holds s) p.target p.offset)
      × ((u : Node) (q : Offset) → holds (may_point_to p s).1 u q ≡ holds s u q)
unfolding may_point_to
may_point_to_exact p s v =
    let here = points_to-IsAsked p s v in
    elim (Bool-cases (points_to p s).0) [
      | inl known ↦
          rw (known, may_point_to) (here.valid, ground (arith, here.answer), here.unchanged)
      | inr other ↦
          let all = points_to-IsAsked (pointer p.target unknown) (points_to p s).1 here.valid in
          rw (other, may_point_to)
            (
              all.valid,
              ground (arith, here.answer, all.answer, here.unchanged p.target unknown),
              λ u q. all.unchanged u q ∙ here.unchanged u q,
            )
    ]

-- A pointer that mustPointTo answers yes for is in the set, and no other one is.
pub must_point_to_sound :
    (p : Pointer) (s r : PointerIdSet)
    → IsPointerIdSet s
    → must_point_to p s ≡ some (true, r)
    → (holds s p.target p.offset ≡ true)
      × ((u : Node) (q : Offset) → holds s u q ≡ true → pointer u q ≡ p)
unfolding must_point_to is_singleton
must_point_to_sound p s r v h =
    let asked = points_to-IsAsked p s v in
    elim (Bool-cases (is_unknown p.offset)) [
      | inl all ↦ ground arith
      | inr one ↦
          let yes : ((points_to p s).0 && is_singleton s) ≡ true = ground arith in
          let held : holds s p.target p.offset ≡ true = ground (arith, asked.answer) in
          (
            held,
            λ u q k.
                let same =
                  size-one s.pointers (get_id s.table p) (get_id s.table (pointer u q)) v.vector
                    (ground arith) held k in
                sym (
                  pointer_eq→≡ p (pointer u q) (
                    sym (
                      same_id s.table p (pointer u q) v.table
                        (λ e. ground (arith, zero_unset s v, ap (Bitvector.get s.pointers) e)))
                    ∙ ground arith)),
          )
    ]
