-- ===== src/PointsTo/SimpleSet/Laws.antt =====
-- The plain set of pointers keeps the contract of a points-to set.
use llvmdg.Common.{
  ◌≡◌, refl, ap, Bool, true, false, not, ◌&&◌, ◌||◌, ◌==◌, ==_refl, [], ◌∷◌, some, arith,
  Bool-cases, inl, inr,
}
use llvmdg.Offset.{Offset, unknown, is_unknown}
use llvmdg.PointsTo.{Node, Pointer, pointer}
use llvmdg.PointsTo.Spec.{Pointers, IsAdded, PointsToSet}
use llvmdg.PointsTo.Ordered.{
  member, insert_pointer, Ascending, member-insert, insert-reports, insert-Ascending,
}
use llvmdg.PointsTo.SimpleSet.{SimpleSet, copy_others, add_with_unknown_offset, add}

-- The pointers of a set
abbrev pub holds : SimpleSet → Pointers
holds s u q = member s (pointer u q)

member-copy :
    (t : Node) (s tmp : SimpleSet) (q : Pointer)
    → member (copy_others t s tmp) q ≡ (member tmp q || (member s q && not (t == q.target)))
unfolding copy_others member
member-copy t [] tmp q = ground arith
member-copy t (p ∷ s) tmp q = elim (Bool-cases (p.target == t)) [
  | inl here ↦ rw (here, copy_others) (ground (arith, member-copy t s tmp q))
  | inr there ↦
      rw (there, copy_others)
        (ground (arith, member-copy t s (insert_pointer p tmp).1 q, member-insert p tmp q))
]

copy-Ascending : (t : Node) (s tmp : SimpleSet) → Ascending tmp → Ascending (copy_others t s tmp)
unfolding copy_others
copy-Ascending t [] tmp a = a
copy-Ascending t (p ∷ s) tmp a = elim (Bool-cases (p.target == t)) [
  | inl here ↦ rw (here, copy_others) (copy-Ascending t s tmp a)
  | inr there ↦
      rw (there, copy_others)
        (copy-Ascending t s (insert_pointer p tmp).1 (insert-Ascending p tmp a))
]

member-nil : (q : Pointer) → member [] q ≡ false
unfolding member
member-nil q = refl

module _ (t : Node) (o : Offset) (s : SimpleSet) (v : Ascending s) where
  abbrev Added : Bool × SimpleSet → Type 0
  Added r = IsAdded Ascending holds t o s (some r)

  add_nothing : member s (pointer t unknown) ≡ true → Added (false, s)
  add_nothing h = record {
    result = (false, s);
    returns = refl;
    valid = v;
    pointers = λ u q. elim (Bool-cases (t == u)) [
      | inl here ↦
          let e : t ≡ u = ground arith in ground (arith, ap (λ n. member s (pointer n unknown)) e)
      | inr there ↦ ground arith
    ];
    reports = ground arith;
  }

  add_all : is_unknown o ≡ true → Added (add_with_unknown_offset t s)
  unfolding add_with_unknown_offset
  add_all all = elim (Bool-cases (member s (pointer t unknown))) [
    | inl known ↦ rw (known, add_with_unknown_offset) (add_nothing known)
    | inr new ↦
        let left = copy_others t s [] in
        let sorted = copy-Ascending t s [] tt in
        let e : o ≡ unknown = ground arith in
        rw (new, add_with_unknown_offset)
          (record {
            result = insert_pointer (pointer t unknown) left;
            returns = refl;
            valid = insert-Ascending (pointer t unknown) left sorted;
            pointers = λ u q. elim (Bool-cases (t == u)) [
              | inl here ↦ ground (
                arith,
                member-insert (pointer t unknown) left (pointer u q),
                member-copy t s [] (pointer u q),
                member-nil (pointer u q),
              )
              | inr there ↦ ground (
                arith,
                member-insert (pointer t unknown) left (pointer u q),
                member-copy t s [] (pointer u q),
                member-nil (pointer u q),
              )
            ];
            reports = ground (
              arith,
              insert-reports (pointer t unknown) left sorted,
              member-copy t s [] (pointer t unknown),
              member-nil (pointer t unknown),
              ==_refl t,
              ap (λ q. member s (pointer t q)) e,
            );
          })
  ]

  -- add adds the pointer, unless the target has the unknown offset, which in turn replaces all other
  -- offsets of the target; it returns whether the set may point there anew.
  pub add-Added : IsAdded Ascending holds t o s (some (add t o s))
  unfolding add
  add-Added = elim (Bool-cases (is_unknown o)) [
    | inl all ↦ rw (all, add) (add_all all)
    | inr one ↦ elim (Bool-cases (member s (pointer t unknown))) [
      | inl known ↦ rw (one, known, add) (add_nothing known)
      | inr new ↦
          rw (one, new, add)
            (record {
              result = insert_pointer (pointer t o) s;
              returns = refl;
              valid = insert-Ascending (pointer t o) s v;
              pointers = λ u q. elim (Bool-cases (t == u)) [
                | inl here ↦ ground (arith, member-insert (pointer t o) s (pointer u q))
                | inr there ↦ ground (arith, member-insert (pointer t o) s (pointer u q))
              ];
              reports = ground (arith, insert-reports (pointer t o) s v);
            })
    ]
  ]

-- The plain set is a points-to set.
abbrev pub simple_set : PointsToSet
simple_set = record {
  Set = SimpleSet;
  Valid = Ascending;
  points_to = holds;
  add = λ t o s. some (add t o s);
  add-IsAdded = add-Added;
}
