-- ===== src/PointsTo/PointerIdSet/Order.antt =====
-- What a set of pointer IDs keeps, and what it holds.
use llvmdg.Common.{
  ℕ, zero, suc, ◌≡◌, ◌≢◌, refl, sym, ◌∙◌, ap, Bool, true, false, ◌&&◌, ◌||◌, ◌==◌, some, arith,
  Bool-cases, inl, inr, ◌-◌, ==_refl,
}
use llvmdg.Offset.{Offset}
use llvmdg.Bitvector
use llvmdg.Bitvector.{Buckets}
use llvmdg.Bitvector.Order.{IsBitvector, set-IsBitSet}
use llvmdg.PointsTo.{Node, Pointer, pointer, pointer_eq}
use llvmdg.PointsTo.LookupTable.{Table, get_id, get_or_create, get_pointer}
use llvmdg.PointsTo.LookupTable.Laws.{
  IsTable, get_or_create-IsCreated, pointer_eq→≡, pointer_eq_refl,
}
use llvmdg.PointsTo.PointerIdSet.{PointerIdSet, points_to}

-- Some pointer has the ID.
abbrev pub Named : Table → ℕ → Type 0
Named t id = (p : Pointer) × (get_pointer t id ≡ some p)

-- The table is a bijection, the vector is sound, and every ID in it has a pointer.
pub record IsPointerIdSet (s : PointerIdSet) : Type 0 where
  pub table : IsTable s.table
  pub vector : IsBitvector s.pointers
  pub named : (id : ℕ) → Bitvector.get s.pointers id ≡ true → Named s.table id

-- The pointers that a set holds, read without a change of the table.
abbrev pub holds : PointerIdSet → Node → Offset → Bool
holds s u q = Bitvector.get s.pointers (get_id s.table (pointer u q))

-- A set whose table has grown holds what it held.
pub record IsGrown (s : PointerIdSet) (t : Table) : Type 0 where
  pub valid : IsPointerIdSet (record { table = t; pointers = s.pointers })
  pub held :
      (q : Pointer)
      → Bitvector.get s.pointers (get_id t q) ≡ Bitvector.get s.pointers (get_id s.table q)

-- No set holds the invalid ID.
pub zero_unset : (s : PointerIdSet) → IsPointerIdSet s → Bitvector.get s.pointers 0 ≡ false
zero_unset s v = elim (Bool-cases (Bitvector.get s.pointers 0)) [
  | inl set ↦ let (p, e) = v.named 0 set in cc e
  | inr clear ↦ clear
]

-- An ID in the set that some table gives to a pointer is its ID in the table of the set.
held_id :
    (s : PointerIdSet) (t : Table) (q : Pointer) (i : ℕ)
    → IsPointerIdSet s
    → IsTable t
    → ((j : ℕ) (p : Pointer) → get_pointer s.table j ≡ some p → get_pointer t j ≡ some p)
    → get_id t q ≡ suc i
    → Bitvector.get s.pointers (suc i) ≡ true
    → get_id s.table q ≡ suc i
held_id s t q i v w names id set =
    let (p, e) = v.named (suc i) set in
    let same : p ≡ q = cc (names (suc i) p e, w.stands q i id) in
    v.table.numbered q i (e ∙ ap some same)

pub get_or_create-IsGrown :
    (s : PointerIdSet) (p : Pointer) → IsPointerIdSet s → IsGrown s (get_or_create s.table p).1
get_or_create-IsGrown s p v =
    let new = get_or_create-IsCreated s.table p v.table in
    let t = (get_or_create s.table p).1 in
    record {
      valid = record {
        table = new.valid;
        vector = v.vector;
        named = λ id set. let (q, e) = v.named id set in (q, new.names id q e);
      };
      held = λ q. elim (Bool-cases (get_id s.table q == 0)) [
        | inl missing ↦
            let e : get_id s.table q ≡ 0 = ground arith in rw e (fresh q e ∙ sym (zero_unset s v))
        | inr present ↦ ap (Bitvector.get s.pointers) (new.stable q (ground arith))
      ];
    }
  where
    fresh_at :
        (q : Pointer) (id : ℕ)
        → get_id s.table q ≡ 0
        → get_id (get_or_create s.table p).1 q ≡ id
        → Bitvector.get s.pointers id ≡ false
    fresh_at q zero e f = zero_unset s v
    fresh_at q (suc i) e f = elim (Bool-cases (Bitvector.get s.pointers (suc i))) [
      | inl set ↦
          let new = get_or_create-IsCreated s.table p v.table in
          let old = held_id s (get_or_create s.table p).1 q i v new.valid new.names f set in
          absurd (omega arith)
      | inr clear ↦ clear
    ]

    fresh :
        (q : Pointer)
        → get_id s.table q ≡ 0
        → Bitvector.get s.pointers (get_id (get_or_create s.table p).1 q) ≡ false
    fresh q e = fresh_at q (get_id (get_or_create s.table p).1 q) e refl

-- What pointsTo makes of a set.
pub record IsAsked (p : Pointer) (s : PointerIdSet) (r : Bool × PointerIdSet) : Type 0 where
  pub valid : IsPointerIdSet r.1
  pub answer : r.0 ≡ holds s p.target p.offset
  pub unchanged : (u : Node) (q : Offset) → holds r.1 u q ≡ holds s u q

-- pointsTo answers whether the set holds the pointer. It may number the pointer, and the set holds the
-- same pointers afterwards.
pub points_to-IsAsked :
    (p : Pointer) (s : PointerIdSet) → IsPointerIdSet s → IsAsked p s (points_to p s)
unfolding points_to
points_to-IsAsked p s v =
    let grown = get_or_create-IsGrown s p v in
    let new = get_or_create-IsCreated s.table p v.table in
    record {
      valid = grown.valid;
      answer = ap (Bitvector.get s.pointers) (sym new.id) ∙ grown.held p;
      unchanged = λ u q. grown.held (pointer u q);
    }

-- Two pointers with one ID, which is not the invalid one, are equal.
pub same_id :
    (t : Table) (p q : Pointer)
    → IsTable t
    → get_id t p ≢ 0
    → (get_id t p == get_id t q) ≡ pointer_eq p q
same_id t p q v positive = elim (Bool-cases (pointer_eq p q)) [
  | inl same ↦ ground (arith, same, ap (get_id t) (pointer_eq→≡ p q same), ==_refl (get_id t p))
  | inr other ↦ elim (Bool-cases (get_id t p == get_id t q)) [
    | inl equal ↦
        let e : get_id t p ≡ suc (get_id t p - 1) = omega arith in
        let f : get_id t q ≡ suc (get_id t p - 1) = ground (arith, e) in
        let same : p ≡ q = cc (v.stands p (get_id t p - 1) e, v.stands q (get_id t p - 1) f) in
        ground (arith, ap (pointer_eq p) same, pointer_eq_refl p)
    | inr unequal ↦ unequal ∙ sym other
  ]
]

-- Setting the ID of a pointer adds that pointer.
pub set_held :
    (p : Pointer) (t : Table) (b : Buckets) (u : Node) (q : Offset)
    → IsTable t
    → IsBitvector b
    → get_id t p ≢ 0
    → Bitvector.get (Bitvector.set (get_id t p) b).1 (get_id t (pointer u q))
      ≡ ((p.target == u && p.offset == q) || Bitvector.get b (get_id t (pointer u q)))
set_held p t b u q v w positive = ground (
  arith,
  (set-IsBitSet (get_id t p) b w).bits (get_id t (pointer u q)),
  same_id t p (pointer u q) v positive,
)
