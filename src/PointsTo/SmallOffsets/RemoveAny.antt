-- ===== src/PointsTo/SmallOffsets/RemoveAny.antt =====
-- Queries, and taking all pointers to a node out of a set of small offsets.
use llvmdg.Common.{
  ℕ, zero, suc, ◌+◌, ◌-◌, ◌*◌, ◌≡◌, refl, ◌∙◌, ap, Bool, false, ◌&&◌, ◌==◌, ==_refl, leb, ltb,
  if◌then◌else◌, some, arith, Bool-cases, Option-cases, inl, inr,
}
use llvmdg.Offset.{Offset}
use llvmdg.Std.OrderedMap.{find}
use llvmdg.Bitvector
use llvmdg.Bitvector.{Buckets}
use llvmdg.Bitvector.Order.{IsBitvector}
use llvmdg.Bitvector.Unset.{unset-IsBitUnset}
use llvmdg.PointsTo.{Node, Pointer, pointer}
use llvmdg.PointsTo.Ordered.{erase_target, member-erase_target, erase_target-Ascending}
use llvmdg.PointsTo.Spec.{without_target}
use llvmdg.PointsTo.SmallOffsets.{
  SmallOffsets, small_offsets, get_node_id, unset_range, remove_any, place, is_offset_valid,
  points_to,
}
use llvmdg.PointsTo.SmallOffsets.Order.{
  IsSmallOffsets, HasPlaces, bit_missing, bit_found, holds, get_node_id-IsGrown,
}

unset_range-bits :
    (rounds i : ℕ) (b : Buckets)
    → IsBitvector b
    → IsBitvector (unset_range rounds i b).1
      × ((j : ℕ)
          → Bitvector.get (unset_range rounds i b).1 j
            ≡ (if leb i j && ltb j (i + rounds) then false else Bitvector.get b j))
unfolding unset_range
unset_range-bits zero i b v = (v, λ j. ground arith)
unset_range-bits (suc rounds) i b v =
    let first = unset-IsBitUnset i b v in
    let (valid, bits) = unset_range-bits rounds (suc i) (Bitvector.unset i b).1 first.valid in
    (valid, λ j. ground (arith, bits j, first.bits j))

module _ (k : ℕ) (places : HasPlaces k) where
  -- What pointsTo makes of a set.
  pub record IsAsked (p : Pointer) (s : SmallOffsets) (r : Bool × SmallOffsets) : Type 0 where
    pub valid : IsSmallOffsets r.1
    pub answer : r.0 ≡ holds k s p.target p.offset
    pub unchanged : (u : Node) (q : Offset) → holds k r.1 u q ≡ holds k s u q

  -- pointsTo answers whether the set holds the pointer. It may number the node, and the set holds the
  -- same pointers afterwards.
  pub points_to-IsAsked :
      (p : Pointer) (s : SmallOffsets) → IsSmallOffsets s → IsAsked p s (points_to k p s)
  unfolding points_to
  points_to-IsAsked p s v = elim (Bool-cases (is_offset_valid k p.offset)) [
    | inl fits ↦
        let grown = get_node_id-IsGrown k places p.target s v in
        rw (fits, points_to)
          (record {
            valid = grown.valid;
            answer = ground (arith, grown.position p.offset fits);
            unchanged = grown.held;
          })
    | inr large ↦
        rw (large, points_to) (record { valid = v; answer = ground arith; unchanged = λ u q. refl })
  ]

  -- What removeAny makes of a set.
  pub record IsCleared (n : Node) (s : SmallOffsets) (r : SmallOffsets) : Type 0 where
    pub valid : IsSmallOffsets r
    pub number : (i : ℕ) × (find n r.nodes.ids ≡ some i)
    pub pointers : (u : Node) (q : Offset) → holds k r u q ≡ without_target n (holds k s) u q

  -- A set of which the positions of a node are cleared
  clear :
      (n : Node) (s : SmallOffsets) (i : ℕ)
      → IsSmallOffsets s
      → find n s.nodes.ids ≡ some i
      → IsCleared n s (
          small_offsets s.nodes
            (unset_range 64 ((i - 1) * 64) s.pointers).1
            (erase_target n s.large))
  clear n s i v e =
      let (valid, bits) = unset_range-bits 64 ((i - 1) * 64) s.pointers v.vector in
      let r =
        small_offsets s.nodes (unset_range 64 ((i - 1) * 64) s.pointers).1
          (erase_target n s.large) in
      record {
        valid = record {
          nodes = v.nodes;
          vector = valid;
          named = λ b h. v.named b (ground (arith, bits b));
          sorted = erase_target-Ascending n s.large v.sorted;
        };
        number = (i, e);
        pointers = λ u q. elim (Bool-cases (is_offset_valid k q)) [
          | inr large ↦ ground (arith, member-erase_target n s.large (pointer u q))
          | inl fits ↦
              let below = places.below q fits in
              elim (Option-cases (find u s.nodes.ids)) [
                | inl missing ↦
                    ground (
                      arith,
                      bit_missing k places s u q missing,
                      bit_missing k places r u q missing,
                    )
                | inr (j, f) ↦
                    let first = (v.nodes.range n i e).0 in
                    let second = (v.nodes.range u j f).0 in
                    elim (Bool-cases (n == u)) [
                      | inl same ↦
                          let x : n ≡ u = ground arith in
                          let y : i ≡ j = cc (e, f, ap (λ t. find t s.nodes.ids) x) in
                          ground (
                            arith,
                            bit_found k places r u q j f,
                            bits ((j - 1) * 64 + place k q),
                            below,
                          )
                      | inr other ↦ elim (Bool-cases (i == j)) [
                        | inl equal ↦
                            let y : i ≡ j = ground arith in
                            let x = v.nodes.distinct n u j (e ∙ ap some y) f in
                            ground (arith, x, ==_refl u)
                        | inr apart ↦ ground (
                          arith,
                          bit_found k places r u q j f,
                          bit_found k places s u q j f,
                          bits ((j - 1) * 64 + place k q),
                          below,
                          first,
                          second,
                        )
                      ]
                    ]
              ]
        ];
      }

  -- removeAny takes out all pointers to the node, in the vector and in the set of large pointers, and
  -- keeps all others.
  pub remove_any-IsCleared :
      (n : Node) (s : SmallOffsets) → IsSmallOffsets s → IsCleared n s (remove_any n s).1
  unfolding remove_any
  remove_any-IsCleared n s v =
      let grown = get_node_id-IsGrown k places n s v in
      let s1 = small_offsets (get_node_id s.nodes n).1 s.pointers s.large in
      let cleared = clear n s1 (get_node_id s.nodes n).0 grown.valid grown.number in
      record {
        valid = cleared.valid;
        number = cleared.number;
        pointers = λ u q. ground (arith, cleared.pointers u q, grown.held u q);
      }
