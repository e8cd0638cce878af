-- ===== src/PointsTo/PointerIdSet/Ids.antt =====
-- One more pointer in a set of pointer IDs, by its ID.
use llvmdg.Common.{
  ℕ, zero, suc, ◌≡◌, ◌≢◌, sym, ◌∙◌, ap, Bool, not, ◌&&◌, ◌||◌, ◌==◌, some, arith, Bool-cases, inl,
  inr,
}
use llvmdg.Offset.{Offset}
use llvmdg.Bitvector
use llvmdg.Bitvector.{Buckets}
use llvmdg.Bitvector.Order.{set-IsBitSet}
use llvmdg.PointsTo.{Node, Pointer, pointer}
use llvmdg.PointsTo.LookupTable.{get_id, get_or_create, get_pointer}
use llvmdg.PointsTo.LookupTable.Laws.{get_or_create-IsCreated}
use llvmdg.PointsTo.PointerIdSet.{PointerIdSet, with_table}
use llvmdg.PointsTo.PointerIdSet.Order.{IsPointerIdSet, holds, get_or_create-IsGrown, set_held}

-- A set with one more pointer, which has an ID
set_pointer :
    (p : Pointer) (s : PointerIdSet)
    → IsPointerIdSet s
    → get_id s.table p ≢ 0
    → IsPointerIdSet (with_table s.table (Bitvector.set (get_id s.table p) s.pointers).1)
set_pointer p s v positive =
    let set = set-IsBitSet (get_id s.table p) s.pointers v.vector in
    record {
      table = v.table;
      vector = set.valid;
      named = λ id h. elim (Bool-cases (Bitvector.get s.pointers id)) [
        | inl old ↦ v.named id old
        | inr new ↦ (p, stands id (ground (arith, set.bits id)))
      ];
    }
  where
    stands : (id : ℕ) → get_id s.table p ≡ id → get_pointer s.table id ≡ some p
    stands zero e = absurd (positive e)
    stands (suc i) e = v.table.stands p i e

-- A set with one more pointer
pub record IsOneMore (p : Pointer) (s : PointerIdSet) (r : Bool × PointerIdSet) : Type 0 where
  pub valid : IsPointerIdSet r.1
  pub pointers :
      (u : Node) (q : Offset) → holds r.1 u q ≡ ((p.target == u && p.offset == q) || holds s u q)
  pub reports : r.0 ≡ not (holds s p.target p.offset)

pub set_id :
    (p : Pointer) (s : PointerIdSet)
    → IsPointerIdSet s
    → get_id s.table p ≢ 0
    → IsOneMore p s (
      not (Bitvector.set (get_id s.table p) s.pointers).0,
      with_table s.table (Bitvector.set (get_id s.table p) s.pointers).1,
    )
set_id p s v positive = record {
  valid = set_pointer p s v positive;
  pointers = λ u q. set_held p s.table s.pointers u q v.table v.vector positive;
  reports = ap not (set-IsBitSet (get_id s.table p) s.pointers v.vector).previous;
}

pub create_id :
    (p : Pointer) (s : PointerIdSet)
    → IsPointerIdSet s
    → IsOneMore p s (
      not (Bitvector.set (get_or_create s.table p).0 s.pointers).0,
      with_table
          (get_or_create s.table p).1
          (Bitvector.set (get_or_create s.table p).0 s.pointers).1,
    )
create_id p s v =
    let new = get_or_create-IsCreated s.table p v.table in
    let grown = get_or_create-IsGrown s p v in
    let more =
      set_id p (with_table (get_or_create s.table p).1 s.pointers) grown.valid
        (λ e. new.positive (sym new.id ∙ e)) in
    rw (← new.id) (record {
      valid = more.valid;
      pointers = λ u q. ground (arith, more.pointers u q, grown.held (pointer u q));
      reports = more.reports ∙ ap not (grown.held p);
    })
