-- ===== src/PointsTo/SimpleSet/Remove.antt =====
-- Taking pointers out of the plain set, its union, and its queries.
use llvmdg.Common.{
  ◌≡◌, refl, ap, subst, false, not, ◌&&◌, ◌||◌, ◌==◌, [], ◌∷◌, arith, Bool-cases, inl, inr,
}
use llvmdg.Offset.{Offset, is_unknown}
use llvmdg.PointsTo.{Node, Pointer, pointer_eq}
use llvmdg.PointsTo.Spec.{may, without_target, added_may}
use llvmdg.PointsTo.LookupTable.Laws.{pointer_eq→≡}
use llvmdg.PointsTo.Ordered.{
  member, insert_pointer, Ascending, member-insert, insert-reports, insert-Ascending,
}
use llvmdg.PointsTo.SimpleSet.{SimpleSet, add, add_set, points_to_target, add_others, remove_any}
use llvmdg.PointsTo.SimpleSet.Laws.{holds, add-Added, simple_set}

may-cons :
    (p : Pointer) (s : SimpleSet) (u : Node) (q : Offset)
    → may (holds (p ∷ s)) u q
      ≡ (may (holds s) u q || (p.target == u && (p.offset == q || is_unknown p.offset)))
unfolding member
may-cons p s u q = ground arith

may-nil : (u : Node) (q : Offset) → may (holds []) u q ≡ false
unfolding member
may-nil u q = refl

-- Where the set may point after add
added :
    (p : Pointer) (s : SimpleSet)
    → Ascending s
    → Ascending (add p.target p.offset s).1
      × ((u : Node) (q : Offset)
          → may (holds (add p.target p.offset s).1) u q
            ≡ (may (holds s) u q || (p.target == u && (p.offset == q || is_unknown p.offset))))
added p s a =
    let law = add-Added p.target p.offset s a in
    let same : law.result ≡ add p.target p.offset s = cc law.returns in
    (
      subst (λ r. Ascending r.1) same law.valid,
      λ u q.
          subst
            (λ r.
              may (holds r.1) u q
              ≡ (may (holds s) u q || (p.target == u && (p.offset == q || is_unknown p.offset))))
            same (added_may simple_set p.target p.offset s u q law),
    )

-- The loop of removeAny
record IsOthers (t : Node) (s tmp r : SimpleSet) : Type 0 where
  sorted : Ascending r
  may_point :
      (u : Node) (q : Offset)
      → may (holds r) u q ≡ (may (holds tmp) u q || (not (t == u) && may (holds s) u q))

add_others-IsOthers :
    (t : Node) (s tmp : SimpleSet) → Ascending tmp → IsOthers t s tmp (add_others t s tmp)
unfolding add_others
add_others-IsOthers t [] tmp a = record {
  sorted = a;
  may_point = λ u q. ground (arith, may-nil u q);
}
add_others-IsOthers t (p ∷ s) tmp a = elim (Bool-cases (p.target == t)) [
  | inl here ↦
      let rest = add_others-IsOthers t s tmp a in
      rw (here, add_others)
        (record {
          sorted = rest.sorted;
          may_point = λ u q. ground (arith, rest.may_point u q, may-cons p s u q);
        })
  | inr there ↦
      let (sorted, may_add) = added p tmp a in
      let rest = add_others-IsOthers t s (add p.target p.offset tmp).1 sorted in
      rw (there, add_others)
        (record {
          sorted = rest.sorted;
          may_point = λ u q. ground (arith, rest.may_point u q, may_add u q, may-cons p s u q);
        })
]

-- A set without pointers to a target may not point to it.
none_there :
    (s : SimpleSet) (t : Node) (q : Offset)
    → points_to_target s t ≡ false
    → may (holds s) t q ≡ false
unfolding points_to_target member
none_there [] t q h = refl
none_there (p ∷ s) t q h = ground (arith, none_there s t q)

-- removeAny takes out all pointers to the target, and the set may point everywhere else as before; it
-- returns whether there was such a pointer.
pub remove_any-may :
    (t : Node) (s : SimpleSet)
    → Ascending s
    → Ascending (remove_any t s).1
      × ((u : Node) (q : Offset)
          → may (holds (remove_any t s).1) u q ≡ without_target t (may (holds s)) u q)
      × ((remove_any t s).0 ≡ points_to_target s t)
unfolding remove_any
remove_any-may t s a = elim (Bool-cases (points_to_target s t)) [
  | inl present ↦
      let others = add_others-IsOthers t s [] tt in
      rw (present, remove_any)
        (others.sorted, λ u q. ground (arith, others.may_point u q, may-nil u q), refl)
  | inr absent ↦
      rw (absent, remove_any)
        (
          a,
          λ u q. elim (Bool-cases (t == u)) [
            | inl here ↦
                let e : t ≡ u = ground arith in
                ground (arith, none_there s t q absent, ap (λ n. may (holds s) n q) e)
            | inr there ↦ ground arith
          ],
          refl,
        )
]

-- The union holds the pointers of both sets, and reports no change only if there was none.
pub add_set_exact :
    (rhs s : SimpleSet)
    → Ascending s
    → Ascending (add_set rhs s).1
      × ((p : Pointer) → member (add_set rhs s).1 p ≡ (member s p || member rhs p))
      × ((add_set rhs s).0 ≡ false → (p : Pointer) → member (add_set rhs s).1 p ≡ member s p)
unfolding add_set member
add_set_exact [] s a = (a, λ p. ground arith, λ h p. refl)
add_set_exact (x ∷ rhs) s a =
    let (sorted, members, unchanged) =
      add_set_exact rhs (insert_pointer x s).1 (insert-Ascending x s a) in
    (
      sorted,
      λ p. ground (arith, members p, member-insert x s p),
      λ h p. elim (Bool-cases (pointer_eq x p)) [
        | inl same ↦ ground (
          arith,
          unchanged (ground arith) p,
          member-insert x s p,
          insert-reports x s a,
          ap (member s) (pointer_eq→≡ x p same),
        )
        | inr other ↦ ground (arith, unchanged (ground arith) p, member-insert x s p)
      ],
    )
