-- ===== src/PointsTo/OffsetsSet/Add.antt =====
-- Adding a pointer to a set of offsets per node.
use llvmdg.Common.{
  ℕ, ◌≡◌, ◌≢◌, refl, ◌∙◌, ap, subst, Bool, true, false, not, ◌==◌, if◌then◌else◌, [], none, some,
  All, arith, Bool-cases, Option-cases, inl, inr, ==_refl,
}
use llvmdg.Offset.{Offset, unknown, is_unknown}
use llvmdg.Std.OrderedMap.{
  find, assign, erase, Sorted, find-assign, find-erase, assign-Sorted, erase-Sorted, All-assign,
  All-erase, All-find,
}
use llvmdg.Bitvector
use llvmdg.Bitvector.{Buckets, singleton}
use llvmdg.Bitvector.Order.{nil-IsBitvector, IsBitvector, set-IsBitSet}
use llvmdg.Bitvector.Singleton.{singleton-get}
use llvmdg.PointsTo.{Node}
use llvmdg.PointsTo.Spec.{with_pointer, without_target, may, IsAdded, PointsToSet}
use llvmdg.PointsTo.OffsetsSet.{OffsetsSet, add_with_unknown_offset, add, points_to}

-- The map is ordered, and no node has an empty vector.
abbrev pub IsVector : Buckets → Type 0
IsVector bits = IsBitvector bits × (bits ≢ [])

pub record IsOffsetsSet (m : OffsetsSet) : Type 0 where
  pub sorted : Sorted 0 m
  pub vectors : All (λ e. IsVector e.1) m

pub not_nil : (bits : Buckets) (i : ℕ) → Bitvector.get bits i ≡ true → bits ≢ []
unfolding Bitvector.get find
not_nil bits i set e = cc (ap (λ b. Bitvector.get b i) e, set)

pub points_to-assign :
    (t : Node) (bits : Buckets) (m : OffsetsSet) (u : Node) (q : Offset)
    → points_to (assign t bits m) u q ≡ (if t == u then Bitvector.get bits q else points_to m u q)
unfolding points_to
points_to-assign t bits m u q = ground (arith, find-assign t u bits m)

pub points_to-erase :
    (t : Node) (m : OffsetsSet) (u : Node) (q : Offset)
    → points_to (erase t m) u q ≡ without_target t (points_to m) u q
unfolding points_to
points_to-erase t m u q = ground (arith, find-erase t u m)

pub assign-IsOffsetsSet :
    (t : Node) (bits : Buckets) (m : OffsetsSet)
    → IsOffsetsSet m
    → IsVector bits
    → IsOffsetsSet (assign t bits m)
assign-IsOffsetsSet t bits m v b = record {
  sorted = assign-Sorted 0 t bits m (omega arith) v.sorted;
  vectors = All-assign (λ e. IsVector e.1) t bits m b v.vectors;
}

pub erase-IsOffsetsSet : (t : Node) (m : OffsetsSet) → IsOffsetsSet m → IsOffsetsSet (erase t m)
erase-IsOffsetsSet t m v = record {
  sorted = erase-Sorted 0 t m v.sorted;
  vectors = All-erase (λ e. IsVector e.1) t m v.vectors;
}

-- The vector with the unknown offset alone
only_unknown :
    IsVector (Bitvector.set unknown []).1
    × ((q : Offset) → Bitvector.get (Bitvector.set unknown []).1 q ≡ (unknown == q))
    × ((Bitvector.set unknown []).0 ≡ false)
unfolding Bitvector.get find
only_unknown =
    let only = set-IsBitSet unknown [] nil-IsBitvector in
    (
      (
        only.valid,
        not_nil (Bitvector.set unknown []).1 unknown (ground (arith, only.bits unknown)),
      ),
      λ q. ground (arith, only.bits q),
      only.previous,
    )

abbrev pub AddedTo : Node → Offset → OffsetsSet → Bool × OffsetsSet → Type 0
AddedTo t o m r = IsAdded IsOffsetsSet points_to t o m (some r)

module _ (t : Node) (m : OffsetsSet) where
  pub points_to-missing : find t m ≡ none → (q : Offset) → points_to m t q ≡ false
  unfolding points_to
  points_to-missing h q = rw (h, points_to)

  pub points_to-found :
      (bits : Buckets)
      → find t m ≡ some bits
      → (q : Offset) → points_to m t q ≡ Bitvector.get bits q
  unfolding points_to
  points_to-found bits h q = rw (h, points_to)

module _ (t : Node) (o : Offset) (m : OffsetsSet) (v : IsOffsetsSet m) where
  -- A set that holds the unknown offset stays as it is.
  add_nothing : points_to m t unknown ≡ true → AddedTo t o m (false, m)
  add_nothing h = record {
    result = (false, m);
    returns = refl;
    valid = v;
    pointers = λ u q. elim (Bool-cases (t == u)) [
      | inl same ↦ let e : t ≡ u = ground arith in ground (arith, ap (λ n. points_to m n unknown) e)
      | inr other ↦ ground arith
    ];
    reports = ground arith;
  }

  -- A write of a vector with the offsets that the target is to have.
  add_vector :
      (bits : Buckets) (changed : Bool)
      → IsVector bits
      → ((q : Offset) → Bitvector.get bits q ≡ with_pointer t o (points_to m) t q)
      → changed ≡ not (may (points_to m) t o)
      → AddedTo t o m (changed, assign t bits m)
  add_vector bits changed b offsets h = record {
    result = (changed, assign t bits m);
    returns = refl;
    valid = assign-IsOffsetsSet t bits m v b;
    pointers = λ u q. elim (Bool-cases (t == u)) [
      | inl same ↦
          let e : t ≡ u = ground arith in
          subst (λ n. points_to (assign t bits m) n q ≡ with_pointer t o (points_to m) n q) e
            (ground (arith, points_to-assign t bits m t q, offsets q, ==_refl t))
      | inr other ↦ ground (arith, points_to-assign t bits m u q)
    ];
    reports = h;
  }

  add_unknown : is_unknown o ≡ true → AddedTo t o m (add_with_unknown_offset t m)
  unfolding add_with_unknown_offset
  add_unknown h =
      let (vector, offsets, previous) = only_unknown in
      let all : o ≡ unknown = ground arith in
      elim (Option-cases (find t m)) [
        | inl missing ↦
            rw (missing, add_with_unknown_offset)
              (add_vector (Bitvector.set unknown []).1 (not (Bitvector.set unknown []).0) vector
                (λ q. ground (arith, offsets q, points_to-missing t m missing unknown, ==_refl t))
                (ground (
                  arith,
                  previous,
                  points_to-missing t m missing unknown,
                  points_to-missing t m missing o,
                )))
        | inr (bits, e) ↦ elim (Bool-cases (Bitvector.get bits unknown)) [
          | inl known ↦
              rw (e, known, add_with_unknown_offset)
                (add_nothing (points_to-found t m bits e unknown ∙ known))
          | inr new ↦
              rw (e, new, add_with_unknown_offset)
                (add_vector (Bitvector.set unknown []).1 true vector
                  (λ q. ground (arith, offsets q, points_to-found t m bits e unknown, ==_refl t))
                  (ground (arith, points_to-found t m bits e unknown, ap (points_to m t) all)))
        ]
      ]

  -- add keeps the contract: it adds the pointer, unless the target has the unknown offset, which in
  -- turn replaces all other offsets of the target; it returns whether the set may point there anew.
  pub add-IsAdded : AddedTo t o m (add t o m)
  unfolding add
  add-IsAdded = elim (Bool-cases (is_unknown o)) [
    | inl all ↦ rw (all, add) (add_unknown all)
    | inr one ↦ elim (Option-cases (find t m)) [
      | inl missing ↦
          let (valid, bits) = singleton-get o in
          rw (one, missing, add)
            (add_vector (singleton o) true
              (valid, not_nil (singleton o) o (ground (arith, bits o, ==_refl o)))
              (λ q. ground (
                arith,
                bits q,
                points_to-missing t m missing unknown,
                points_to-missing t m missing q,
                ==_refl t,
              ))
              (ground
                (arith, points_to-missing t m missing unknown, points_to-missing t m missing o)))
      | inr (bits, e) ↦ elim (Bool-cases (Bitvector.get bits unknown)) [
        | inl known ↦
            rw (one, e, known, add) (add_nothing (points_to-found t m bits e unknown ∙ known))
        | inr new ↦
            let old = All-find IsVector t bits m v.vectors e in
            let set = set-IsBitSet o bits old.0 in
            rw (one, e, new, add)
              (add_vector (Bitvector.set o bits).1 (not (Bitvector.set o bits).0)
                (
                  set.valid,
                  not_nil (Bitvector.set o bits).1 o (ground (arith, set.bits o, ==_refl o)),
                )
                (λ q. ground (
                  arith,
                  set.bits q,
                  points_to-found t m bits e unknown,
                  points_to-found t m bits e q,
                  ==_refl t,
                ))
                (ground (
                  arith,
                  set.previous,
                  points_to-found t m bits e unknown,
                  points_to-found t m bits e o,
                )))
      ]
    ]
  ]

-- The set of offsets per node is a points-to set.
abbrev pub offsets_set : PointsToSet
offsets_set = record {
  Set = OffsetsSet;
  Valid = IsOffsetsSet;
  points_to = points_to;
  add = λ t o m. some (add t o m);
  add-IsAdded = add-IsAdded;
}
