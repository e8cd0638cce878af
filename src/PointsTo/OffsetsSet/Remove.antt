-- ===== src/PointsTo/OffsetsSet/Remove.antt =====
-- Removing pointers from a set of offsets per node.
use llvmdg.Common.{
  ℕ, ◌≡◌, ◌≢◌, refl, sym, ◌∙◌, ap, Bool, true, false, ◌&&◌, ◌==◌, if◌then◌else◌, [], ◌∷◌, some,
  is_empty, arith, Bool-cases, Option-cases, inl, inr,
}
use llvmdg.Offset.{Offset}
use llvmdg.Std.OrderedMap.{find, assign, erase, All-find}
use llvmdg.Bitvector
use llvmdg.Bitvector.{Buckets, shift}
use llvmdg.Bitvector.Order.{get-nil}
use llvmdg.Bitvector.Unset.{unset-IsBitUnset, unset_reports}
use llvmdg.PointsTo.{Node}
use llvmdg.PointsTo.Spec.{without_pointer, without_target}
use llvmdg.PointsTo.OffsetsSet.{OffsetsSet, remove, remove_any, points_to, points_to_target}
use llvmdg.PointsTo.OffsetsSet.Add.{
  IsVector, IsOffsetsSet, points_to-assign, points_to-erase, assign-IsOffsetsSet,
  erase-IsOffsetsSet, points_to-missing, points_to-found,
}

unset_found :
    (o : ℕ) (bits : Buckets) → Bitvector.get bits o ≡ true → (Bitvector.unset o bits).0 ≡ true
unfolding Bitvector.get Bitvector.unset
unset_found o bits h = elim (Option-cases (find (shift o) bits)) [
  | inl missing ↦ ground (arith, missing)
  | inr (word, e) ↦ rw (e, Bitvector.unset) refl
]

-- Where unset finds no bucket, the vector stays as it is.
unset_unchanged :
    (o : ℕ) (bits : Buckets)
    → (Bitvector.unset o bits).0 ≡ false
    → (Bitvector.unset o bits).1 ≡ bits
unfolding Bitvector.unset
unset_unchanged o bits h = elim (Option-cases (find (shift o) bits)) [
  | inl missing ↦ rw (missing, Bitvector.unset) refl
  | inr (word, e) ↦ ground (arith, e)
]

is_empty-nil : (bits : Buckets) → is_empty bits ≡ true → bits ≡ []
is_empty-nil [] h = refl
is_empty-nil (e ∷ bits) h = cc h

-- What remove makes of a set.
pub record IsRemoved (t : Node) (o : Offset) (m : OffsetsSet) (r : Bool × OffsetsSet) : Type 0 where
  pub valid : IsOffsetsSet r.1
  pub pointers : (u : Node) (q : Offset) → points_to r.1 u q ≡ without_pointer t o (points_to m) u q
  pub reports : points_to m t o ≡ true → r.0 ≡ true

module _ (t : Node) (o : Offset) (m : OffsetsSet) (v : IsOffsetsSet m) where
  -- A set whose pointers to other targets are those of m, and which has the offsets that are left
  left :
      (r : OffsetsSet) (bits after : Buckets)
      → find t m ≡ some bits
      → ((q : Offset) → Bitvector.get after q ≡ (if o == q then false else Bitvector.get bits q))
      → ((u : Node) (q : Offset)
          → points_to r u q ≡ (if t == u then Bitvector.get after q else points_to m u q))
      → (u : Node) (q : Offset) → points_to r u q ≡ without_pointer t o (points_to m) u q
  left r bits after e offsets written u q = elim (Bool-cases (t == u)) [
    | inl same ↦
        let f : t ≡ u = ground arith in
        ground
          (arith, written u q, offsets q, points_to-found t m bits e q, ap (λ n. points_to m n q) f)
    | inr other ↦ ground (arith, written u q)
  ]

  -- remove takes the pointer out, if it is there, and no other one. It returns true where it took one
  -- out.
  pub remove-IsRemoved : IsRemoved t o m (remove t o m)
  unfolding remove
  remove-IsRemoved = elim (Option-cases (find t m)) [
    | inl missing ↦
        rw (missing, remove)
          (record {
            valid = v;
            pointers = λ u q. elim (Bool-cases (t == u)) [
              | inl same ↦
                  let f : t ≡ u = ground arith in
                  ground (arith, points_to-missing t m missing q, ap (λ n. points_to m n q) f)
              | inr other ↦ ground arith
            ];
            reports = λ h. ground (arith, points_to-missing t m missing o);
          })
    | inr (bits, e) ↦
        let old = All-find IsVector t bits m v.vectors e in
        let unset = unset-IsBitUnset o bits old.0 in
        let after = (Bitvector.unset o bits).1 in
        let found : points_to m t o ≡ true → (Bitvector.unset o bits).0 ≡ true =
          λ h. unset_found o bits (sym (points_to-found t m bits e o) ∙ h) in
        elim (Bool-cases ((Bitvector.unset o bits).0 && is_empty after)) [
          | inl gone ↦
              let nil : after ≡ [] = is_empty-nil after (ground arith) in
              rw (e, gone, remove)
                (record {
                  valid = erase-IsOffsetsSet t m v;
                  pointers = left (erase t m) bits after e unset.bits (λ u q.
                      ground (
                        arith,
                        points_to-erase t m u q,
                        get-nil q,
                        ap (λ b. Bitvector.get b q) nil,
                      ));
                  reports = found;
                })
          | inr some_left ↦
              let nonempty : after ≢ [] = λ nil. elim (Bool-cases (Bitvector.unset o bits).0) [
                | inl cleared ↦ ground (arith, ap is_empty nil)
                | inr not_cleared ↦ old.1 (sym (unset_unchanged o bits not_cleared) ∙ nil)
              ] in
              rw (e, some_left, remove)
                (record {
                  valid = assign-IsOffsetsSet t after m v (unset.valid, nonempty);
                  pointers =
                      left (assign t after m) bits after e unset.bits (points_to-assign t after m);
                  reports = found;
                })
        ]
  ]

  -- remove returns true for a pointer that is not in the set, as soon as the set holds a pointer to
  -- the same target whose offset is in the same bucket.
  pub remove_reports :
      (p : Offset)
      → points_to m t o ≡ false
      → points_to m t p ≡ true
      → shift o ≡ shift p
      → (remove t o m).0 ≡ true
  unfolding remove
  remove_reports p absent present same = elim (Option-cases (find t m)) [
    | inl missing ↦ ground (arith, points_to-missing t m missing p)
    | inr (bits, e) ↦
        let old = All-find IsVector t bits m v.vectors e in
        rw (e, remove)
          (unset_reports o bits old.0 p (sym (points_to-found t m bits e o) ∙ absent)
            (sym (points_to-found t m bits e p) ∙ present) same)
  ]

module _ (t : Node) (m : OffsetsSet) (v : IsOffsetsSet m) where
  -- removeAny takes out all pointers to the target and no other ones, and returns whether the target
  -- was there.
  pub remove_any_target :
      IsOffsetsSet (remove_any t m).1
      × ((u : Node) (q : Offset)
          → points_to (remove_any t m).1 u q ≡ without_target t (points_to m) u q)
      × ((remove_any t m).0 ≡ points_to_target m t)
  unfolding remove_any points_to_target
  remove_any_target = elim (Option-cases (find t m)) [
    | inl missing ↦
        rw (missing, remove_any, points_to_target)
          (
            v,
            λ u q. elim (Bool-cases (t == u)) [
              | inl same ↦
                  let f : t ≡ u = ground arith in
                  ground (arith, points_to-missing t m missing q, ap (λ n. points_to m n q) f)
              | inr other ↦ ground arith
            ],
            refl,
          )
    | inr (bits, e) ↦
        rw (e, remove_any, points_to_target) (erase-IsOffsetsSet t m v, points_to-erase t m, refl)
  ]
