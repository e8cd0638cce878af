-- ===== src/PointsTo/PointerIdSet/RemoveAny.antt =====
-- removeAny, and the queries that look at every ID of a set.
use llvmdg.Common.{
  ℕ, zero, suc, ◌≡◌, refl, sym, ◌∙◌, ap, Bool, true, false, not, ◌&&◌, ◌||◌, ◌==◌, ==_refl, List,
  [], ◌∷◌, Option, none, some, arith, any, Bool-cases, inl, inr,
}
use llvmdg.Offset.{Offset}
use llvmdg.Std.OrderedSet.{mem}
use llvmdg.Bitvector
use llvmdg.Bitvector.{Buckets}
use llvmdg.Bitvector.Order.{get-nil, nil-IsBitvector, IsBitvector, set-IsBitSet}
use llvmdg.Bitvector.Elements.{mem-elements}
use llvmdg.PointsTo.{Node, Pointer, pointer}
use llvmdg.PointsTo.Spec.{without_target}
use llvmdg.PointsTo.LookupTable.{Table, get_id, get_pointer}
use llvmdg.PointsTo.PointerIdSet.{
  PointerIdSet, with_table, keep_others, remove_any, some_pointer, points_to_target,
}
use llvmdg.PointsTo.PointerIdSet.Order.{Named, IsPointerIdSet, holds, zero_unset}

-- The pointer that has the ID passes the test.
abbrev pub passes : (Pointer → Bool) → Table → ℕ → Bool
passes test t id = elim (get_pointer t id) [ none ↦ false | some p ↦ test p ]

passes-some :
    (test : Pointer → Bool) (t : Table) (id : ℕ) (p : Pointer)
    → get_pointer t id ≡ some p
    → passes test t id ≡ test p
passes-some test t id p e = rw (e, passes) refl

abbrev targets : Node → Table → ℕ → Bool
targets n = passes (λ p. p.target == n)

record IsKept (ids : List ℕ) (n : Node) (t : Table) (tmp : Buckets) (r : Option (Bool × Buckets))
    : Type 0 where
  result : Bool × Buckets
  returns : r ≡ some result
  valid : IsBitvector result.1
  bits :
      (j : ℕ)
      → Bitvector.get result.1 j ≡ (Bitvector.get tmp j || (mem ids j && not (targets n t j)))
  reports : result.0 ≡ any (targets n t) ids

keep_others-IsKept :
    (ids : List ℕ) (n : Node) (t : Table) (tmp : Buckets)
    → ((id : ℕ) → mem ids id ≡ true → Named t id)
    → IsBitvector tmp
    → IsKept ids n t tmp (keep_others ids n t tmp)
unfolding keep_others mem
keep_others-IsKept [] n t tmp named v = record {
  result = (false, tmp);
  returns = refl;
  valid = v;
  bits = λ j. ground arith;
  reports = refl;
}
keep_others-IsKept (id ∷ ids) n t tmp named v =
    let (p, e) = named id (ground (arith, ==_refl id)) in
    let others : (i : ℕ) → mem ids i ≡ true → Named t i = λ i h. named i (ground arith) in
    let target : targets n t id ≡ (p.target == n) = passes-some (λ r. r.target == n) t id p e in
    elim (Bool-cases (p.target == n)) [
      | inl same ↦
          let rest = keep_others-IsKept ids n t tmp others v in
          record {
            result = (true, rest.result.1);
            returns = rw (e, keep_others, same, rest.returns) refl;
            valid = rest.valid;
            bits = λ j. elim (Bool-cases (id == j)) [
              | inl here ↦
                  let f : id ≡ j = ground arith in
                  ground (arith, rest.bits j, target, ap (targets n t) f)
              | inr there ↦ ground (arith, rest.bits j)
            ];
            reports = ground (arith, target);
          }
      | inr other ↦
          let set = set-IsBitSet id tmp v in
          let rest = keep_others-IsKept ids n t (Bitvector.set id tmp).1 others set.valid in
          record {
            result = (rest.result.0, rest.result.1);
            returns = rw (e, keep_others, other, rest.returns) refl;
            valid = rest.valid;
            bits = λ j. elim (Bool-cases (id == j)) [
              | inl here ↦
                  let f : id ≡ j = ground arith in
                  ground (arith, rest.bits j, set.bits j, target, ap (targets n t) f)
              | inr there ↦ ground (arith, rest.bits j, set.bits j)
            ];
            reports = ground (arith, target, rest.reports);
          }
    ]

passes-holds :
    (test : Pointer → Bool) (s : PointerIdSet) (p : Pointer)
    → IsPointerIdSet s
    → holds s p.target p.offset ≡ true
    → passes test s.table (get_id s.table p) ≡ test p
passes-holds test s p v h = at (get_id s.table p) refl
  where
    at : (id : ℕ) → get_id s.table p ≡ id → passes test s.table id ≡ test p
    at zero e = ground (arith, zero_unset s v, ap (Bitvector.get s.pointers) e)
    at (suc i) e = passes-some test s.table (suc i) p (v.table.stands p i e)

-- What removeAny makes of a set.
pub record IsRemovedAny (n : Node) (s : PointerIdSet) (r : Option (Bool × PointerIdSet))
    : Type 0 where
  pub result : Bool × PointerIdSet
  pub returns : r ≡ some result
  pub valid : IsPointerIdSet result.1
  pub table : result.1.table ≡ s.table
  pub pointers : (u : Node) (q : Offset) → holds result.1 u q ≡ without_target n (holds s) u q

-- removeAny reads no ID without a pointer, takes out all pointers to the node, and keeps all others.
pub remove_any-IsRemovedAny :
    (n : Node) (s : PointerIdSet) → IsPointerIdSet s → IsRemovedAny n s (remove_any n s)
unfolding remove_any
remove_any-IsRemovedAny n s v =
    let ids = Bitvector.elements s.pointers in
    let members : (id : ℕ) → mem ids id ≡ Bitvector.get s.pointers id =
      λ id. mem-elements s.pointers id v.vector in
    let kept =
      keep_others-IsKept ids n s.table [] (λ id h. v.named id (sym (members id) ∙ h))
        nil-IsBitvector in
    record {
      result = (kept.result.0, with_table s.table kept.result.1);
      returns = rw kept.returns refl;
      valid = record {
        table = v.table;
        vector = kept.valid;
        named = λ id h. v.named id (ground (arith, kept.bits id, members id, get-nil id));
      };
      table = refl;
      pointers = λ u q. elim (Bool-cases (holds s u q)) [
        | inl held ↦ ground (
          arith,
          kept.bits (get_id s.table (pointer u q)),
          members (get_id s.table (pointer u q)),
          get-nil (get_id s.table (pointer u q)),
          passes-holds (λ p. p.target == n) s (pointer u q) v held,
        )
        | inr absent ↦ ground (
          arith,
          kept.bits (get_id s.table (pointer u q)),
          members (get_id s.table (pointer u q)),
          get-nil (get_id s.table (pointer u q)),
        )
      ];
    }

-- The loop over the IDs reads no ID without a pointer, and asks whether one passes the test.
some_pointer-any :
    (test : Pointer → Bool) (ids : List ℕ) (t : Table)
    → ((id : ℕ) → mem ids id ≡ true → Named t id)
    → some_pointer test ids t ≡ some (any (passes test t) ids)
unfolding some_pointer mem
some_pointer-any test [] t named = refl
some_pointer-any test (id ∷ ids) t named =
    let (p, e) = named id (ground (arith, ==_refl id)) in
    let rest = some_pointer-any test ids t (λ i h. named i (ground arith)) in
    let tested = passes-some test t id p e in
    elim (Bool-cases (test p)) [
      | inl found ↦
          rw (e, some_pointer, found)
            (ap (λ b. some (b || any (passes test t) ids)) (sym (tested ∙ found)))
      | inr other ↦
          rw (e, some_pointer, other)
            (rest ∙ ap (λ b. some (b || any (passes test t) ids)) (sym (tested ∙ other)))
    ]

any-mem :
    (test : ℕ → Bool) (ids : List ℕ) (id : ℕ)
    → mem ids id ≡ true
    → test id ≡ true
    → any test ids ≡ true
unfolding mem
any-mem test [] id h k = cc h
any-mem test (i ∷ ids) id h k = elim (Bool-cases (i == id)) [
  | inl here ↦ let e : i ≡ id = ground arith in ground (arith, ap test e)
  | inr there ↦ ground (arith, any-mem test ids id (ground arith) k)
]

mem-any :
    (test : ℕ → Bool) (ids : List ℕ)
    → any test ids ≡ true
    → (id : ℕ) × (mem ids id ≡ true) × (test id ≡ true)
unfolding mem
mem-any test [] h = absurd (cc h)
mem-any test (i ∷ ids) h = elim (Bool-cases (test i)) [
  | inl here ↦ (i, ground (arith, ==_refl i), here)
  | inr there ↦ let (id, m, k) = mem-any test ids (ground arith) in (id, ground arith, k)
]

-- pointsToTarget answers, and it answers yes just when the set holds a pointer to the node.
pub points_to_target_exact :
    (n : Node) (s : PointerIdSet)
    → IsPointerIdSet s
    → (b : Bool) × (points_to_target n s ≡ some b)
      × ((q : Offset) → holds s n q ≡ true → b ≡ true)
      × (b ≡ true → (q : Offset) × (holds s n q ≡ true))
unfolding points_to_target
points_to_target_exact n s v =
    let ids = Bitvector.elements s.pointers in
    let members : (id : ℕ) → mem ids id ≡ Bitvector.get s.pointers id =
      λ id. mem-elements s.pointers id v.vector in
    (
      any (targets n s.table) ids,
      some_pointer-any (λ p. p.target == n) ids s.table (λ id h. v.named id (sym (members id) ∙ h)),
      λ q h.
          any-mem (targets n s.table) ids (get_id s.table (pointer n q))
            (members (get_id s.table (pointer n q)) ∙ h)
            (passes-holds (λ p. p.target == n) s (pointer n q) v h ∙ ==_refl n),
      λ h. let (id, m, k) = mem-any (targets n s.table) ids h in found id (sym (members id) ∙ m) k,
    )
  where
    found :
        (id : ℕ)
        → Bitvector.get s.pointers id ≡ true
        → targets n s.table id ≡ true
        → (q : Offset) × (holds s n q ≡ true)
    found zero h k = absurd (cc k)
    found (suc i) h k =
        let (p, e) = v.named (suc i) h in
        let same : n ≡ p.target =
          ground (arith, passes-some (λ r. r.target == n) s.table (suc i) p e, k) in
        (p.offset, rw (same, v.table.numbered p i e) h)
