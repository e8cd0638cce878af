-- ===== src/PointsTo/PointerIdSet/Add.antt =====
-- The set of pointer IDs keeps the contract of a points-to set.
use llvmdg.Common.{
  ◌≡◌, refl, sym, subst, ◌∙◌, ap, Bool, true, false, not, ◌==◌, ==_refl, Option, some, arith,
  Bool-cases, inl, inr,
}
use llvmdg.Offset.{Offset, unknown, is_unknown}
use llvmdg.Bitvector
use llvmdg.Bitvector.{Buckets}
use llvmdg.PointsTo.{Node, pointer}
use llvmdg.PointsTo.Spec.{IsAdded, PointsToSet}
use llvmdg.PointsTo.LookupTable.{get_id, get_or_create}
use llvmdg.PointsTo.LookupTable.Laws.{get_or_create-IsCreated}
use llvmdg.PointsTo.PointerIdSet.{PointerIdSet, with_table, points_to, add_with_unknown_offset, add}
use llvmdg.PointsTo.PointerIdSet.Order.{
  IsPointerIdSet, holds, get_or_create-IsGrown, points_to-IsAsked,
}
use llvmdg.PointsTo.PointerIdSet.RemoveAny.{remove_any-IsRemovedAny}
use llvmdg.PointsTo.PointerIdSet.Ids.{IsOneMore, set_id, create_id}

module _ (t : Node) (o : Offset) (s : PointerIdSet) (v : IsPointerIdSet s) where
  abbrev Held : Option (Bool × PointerIdSet) → Type 0
  Held r = IsAdded IsPointerIdSet holds t o s r

  -- A set that holds the unknown offset of the target
  keep_all :
      (r : PointerIdSet)
      → IsPointerIdSet r
      → ((u : Node) (q : Offset) → holds r u q ≡ holds s u q)
      → holds s t unknown ≡ true
      → Held (some (false, r))
  keep_all r w same h = record {
    result = (false, r);
    returns = refl;
    valid = w;
    pointers = λ u q. elim (Bool-cases (t == u)) [
      | inl here ↦
          let e : t ≡ u = ground arith in ground (arith, same u q, ap (λ n. holds s n unknown) e)
      | inr there ↦ ground (arith, same u q)
    ];
    reports = ground arith;
  }

module _ (t : Node) (s : PointerIdSet) (v : IsPointerIdSet s)
    (new : holds s t unknown ≡ false) where
  add_unknown-Held : Held t unknown s v (add_with_unknown_offset t s)
  unfolding add_with_unknown_offset
  add_unknown-Held =
      let p = pointer t unknown in
      let id = get_or_create s.table p in
      let created = get_or_create-IsCreated s.table p v.table in
      let grown = get_or_create-IsGrown s p v in
      let s1 = with_table id.1 s.pointers in
      let removed = remove_any-IsRemovedAny t s1 grown.valid in
      let s2 = removed.result.1 in
      let id_left : get_id s2.table p ≡ id.0 = ap (λ d. get_id d p) removed.table ∙ created.id in
      let more : IsOneMore p s2 (
        not (Bitvector.set id.0 s2.pointers).0,
        with_table s2.table (Bitvector.set id.0 s2.pointers).1,
      ) =
        subst
          (λ i. IsOneMore p s2 (
            not (Bitvector.set i s2.pointers).0,
            with_table s2.table (Bitvector.set i s2.pointers).1,
          ))
          id_left (set_id p s2 removed.valid (λ e. created.positive (sym id_left ∙ e))) in
      let absent : Bitvector.get s.pointers id.0 ≡ false =
        ap (Bitvector.get s.pointers) (sym created.id) ∙ (grown.held p ∙ new) in
      record {
        result = (
          not (Bitvector.set id.0 s2.pointers).0,
          with_table s2.table (Bitvector.set id.0 s2.pointers).1,
        );
        returns = rw (absent, removed.returns) refl;
        valid = more.valid;
        pointers = λ u q.
            ground (arith, more.pointers u q, removed.pointers u q, grown.held (pointer u q));
        reports = ground (arith, more.reports, removed.pointers t unknown, ==_refl t);
      }

  add_known-Held :
      (o : Offset)
      → is_unknown o ≡ false
      → Held t o s v (
          some (
            not (Bitvector.set (get_or_create s.table (pointer t o)).0 s.pointers).0,
            with_table
                (get_or_create s.table (pointer t o)).1
                (Bitvector.set (get_or_create s.table (pointer t o)).0 s.pointers).1,
          ))
  add_known-Held o known =
      let more = create_id (pointer t o) s v in
      record {
        result = (
          not (Bitvector.set (get_or_create s.table (pointer t o)).0 s.pointers).0,
          with_table (get_or_create s.table (pointer t o)).1
              (Bitvector.set (get_or_create s.table (pointer t o)).0 s.pointers).1,
        );
        returns = refl;
        valid = more.valid;
        pointers = λ u q. elim (Bool-cases (t == u)) [
          | inl here ↦ let e : t ≡ u = ground arith in ground (arith, more.pointers u q)
          | inr there ↦ ground (arith, more.pointers u q)
        ];
        reports = ground (arith, more.reports);
      }

-- What add makes of a set whose table has grown, it makes of the set.
carry :
    (t : Node) (o : Offset) (s s1 : PointerIdSet) (v : IsPointerIdSet s) (w : IsPointerIdSet s1)
    (r : Option (Bool × PointerIdSet))
    → ((u : Node) (q : Offset) → holds s1 u q ≡ holds s u q)
    → Held t o s1 w r
    → Held t o s v r
carry t o s s1 v w r same h = record {
  result = h.result;
  returns = h.returns;
  valid = h.valid;
  pointers = λ u q. ground (arith, h.pointers u q, same u q, same t unknown);
  reports = ground (arith, h.reports, same t o, same t unknown);
}

-- add never reads an ID without a pointer. It adds the pointer, unless the target has the unknown
-- offset, which in turn replaces all other offsets of the target; it returns whether the set may point
-- there anew.
pub add-Held :
    (t : Node) (o : Offset) (s : PointerIdSet)
    → IsPointerIdSet s
    → IsAdded IsPointerIdSet holds t o s (add (pointer t o) s)
unfolding add
add-Held t o s v =
    let all = points_to (pointer t unknown) s in
    let asked = points_to-IsAsked (pointer t unknown) s v in
    elim (Bool-cases (points_to (pointer t unknown) s).0) [
      | inl known ↦
          rw (known, add)
            (keep_all t o s v all.1 asked.valid asked.unchanged (sym asked.answer ∙ known))
      | inr new ↦
          let absent : holds all.1 t unknown ≡ false =
            asked.unchanged t unknown ∙ (sym asked.answer ∙ new) in
          elim (Bool-cases (is_unknown o)) [
            | inl every ↦
                let e : o ≡ unknown = ground arith in
                rw (new, every, add)
                  (carry t o s all.1 v asked.valid (add_with_unknown_offset t all.1) asked.unchanged
                    (subst (λ i. Held t i all.1 asked.valid (add_with_unknown_offset t all.1))
                      (sym e) (add_unknown-Held t all.1 asked.valid absent)))
            | inr one ↦
                rw (new, one, add)
                  (carry t o s all.1 v asked.valid
                    (some (
                      not
                          (Bitvector.set (get_or_create all.1.table (pointer t o)).0
                            all.1.pointers).0,
                      with_table (get_or_create all.1.table (pointer t o)).1
                          (Bitvector.set (get_or_create all.1.table (pointer t o)).0
                            all.1.pointers).1,
                    ))
                    asked.unchanged (add_known-Held t all.1 asked.valid absent o one))
          ]
    ]

-- The set of pointer IDs is a points-to set.
abbrev pub pointer_id_set : PointsToSet
pointer_id_set = record {
  Set = PointerIdSet;
  Valid = IsPointerIdSet;
  points_to = holds;
  add = λ t o s. add (pointer t o) s;
  add-IsAdded = add-Held;
}
