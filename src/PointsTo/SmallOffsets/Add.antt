-- ===== src/PointsTo/SmallOffsets/Add.antt =====
-- The set of small offsets keeps the contract of a points-to set.
use llvmdg.Common.{
  ℕ, ◌≡◌, refl, sym, ◌∙◌, ap, subst, Bool, true, false, ◌==◌, ==_refl, some, arith, Bool-cases, inl,
  inr,
}
use llvmdg.Offset.{Offset, unknown, is_unknown}
use llvmdg.PointsTo.{Node, pointer}
use llvmdg.PointsTo.Spec.{IsAdded, PointsToSet}
use llvmdg.PointsTo.SmallOffsets.{
  SmallOffsets, remove_any, place, is_offset_valid, points_to, add_with_unknown_offset, add_known,
  add,
}
use llvmdg.PointsTo.SmallOffsets.Nodes.{place-one, place-four}
use llvmdg.PointsTo.SmallOffsets.Order.{IsSmallOffsets, HasPlaces, holds}
use llvmdg.PointsTo.SmallOffsets.Positions.{IsOneMore, create_position, add_known-IsOneMore}
use llvmdg.PointsTo.SmallOffsets.RemoveAny.{points_to-IsAsked, remove_any-IsCleared}

module _ (k : ℕ) (places : HasPlaces k) where
  abbrev Held : Node → Offset → SmallOffsets → Bool × SmallOffsets → Type 0
  Held t o s r = IsAdded IsSmallOffsets (holds k) t o s (some r)

  -- A pointer with a known offset, to a target without the unknown one
  one_more :
      (t : Node) (o : Offset) (s s1 : SmallOffsets) (r : Bool × SmallOffsets)
      → is_unknown o ≡ false
      → holds k s t unknown ≡ false
      → ((u : Node) (q : Offset) → holds k s1 u q ≡ holds k s u q)
      → IsOneMore k places t o s1 r
      → Held t o s r
  one_more t o s s1 r known absent same more = record {
    result = r;
    returns = refl;
    valid = more.valid;
    pointers = λ u q. elim (Bool-cases (t == u)) [
      | inl here ↦ ground (arith, more.pointers u q, same u q)
      | inr there ↦ ground (arith, more.pointers u q, same u q)
    ];
    reports = ground (arith, more.reports, same t o);
  }

  -- The unknown offset, on a target without it
  all_offsets :
      (t : Node) (s s1 : SmallOffsets)
      → IsSmallOffsets s1
      → holds k s t unknown ≡ false
      → ((u : Node) (q : Offset) → holds k s1 u q ≡ holds k s u q)
      → Held t unknown s (add_with_unknown_offset k t s1)
  unfolding add_with_unknown_offset
  all_offsets t s s1 w absent same =
      let left = remove_any-IsCleared k places t s1 w in
      let more = create_position k places t unknown (remove_any t s1).1 left.valid places.all in
      record {
        result = add_with_unknown_offset k t s1;
        returns = refl;
        valid = more.valid;
        pointers = λ u q. ground (arith, more.pointers u q, left.pointers u q, same u q);
        reports = ground (arith, more.reports, left.pointers t unknown, ==_refl t);
      }

  keep_all :
      (t : Node) (o : Offset) (s r : SmallOffsets)
      → IsSmallOffsets r
      → ((u : Node) (q : Offset) → holds k r u q ≡ holds k s u q)
      → holds k s t unknown ≡ true
      → Held t o s (false, r)
  keep_all t o s r w same h = record {
    result = (false, r);
    returns = refl;
    valid = w;
    pointers = λ u q. elim (Bool-cases (t == u)) [
      | inl here ↦
          let e : t ≡ u = ground arith in ground (arith, same u q, ap (λ n. holds k s n unknown) e)
      | inr there ↦ ground (arith, same u q)
    ];
    reports = ground arith;
  }

  -- add adds the pointer, unless the target has the unknown offset, which in turn replaces all other
  -- offsets of the target, small and large; it returns whether the set may point there anew.
  pub add-IsHeld :
      (t : Node) (o : Offset) (s : SmallOffsets)
      → IsSmallOffsets s
      → IsAdded IsSmallOffsets (holds k) t o s (some (add k (pointer t o) s))
  unfolding add
  add-IsHeld t o s v =
      let asked = points_to-IsAsked k places (pointer t unknown) s v in
      let s1 = (points_to k (pointer t unknown) s).1 in
      elim (Bool-cases (points_to k (pointer t unknown) s).0) [
        | inl known ↦
            rw (known, add)
              (keep_all t o s s1 asked.valid asked.unchanged (sym asked.answer ∙ known))
        | inr new ↦
            let absent : holds k s t unknown ≡ false = sym asked.answer ∙ new in
            elim (Bool-cases (is_unknown o)) [
              | inl every ↦
                  let e : o ≡ unknown = ground arith in
                  rw (new, every, add)
                    (subst (λ i. Held t i s (add_with_unknown_offset k t s1)) (sym e)
                      (all_offsets t s s1 asked.valid absent asked.unchanged))
              | inr one ↦
                  rw (new, one, add)
                    (one_more t o s s1 (add_known k (pointer t o) s1) one absent asked.unchanged
                      (add_known-IsOneMore k places t o s1 asked.valid))
            ]
      ]

  abbrev pub small_offsets_set : PointsToSet
  small_offsets_set = record {
    Set = SmallOffsets;
    Valid = IsSmallOffsets;
    points_to = holds k;
    add = λ t o s. some (add k (pointer t o) s);
    add-IsAdded = add-IsHeld;
  }

-- The multipliers of the two classes
pub one-HasPlaces : HasPlaces 1
unfolding place is_offset_valid
one-HasPlaces = record { below = λ o h. ground arith; own = place-one; all = refl }

pub four-HasPlaces : HasPlaces 4
unfolding place is_offset_valid
four-HasPlaces = record { below = λ o h. ground arith; own = place-four; all = refl }
