-- ===== src/PointsTo/SmallOffsets/Positions.antt =====
-- One more pointer in a set of small offsets: at its position in the vector, or in the set of large
-- pointers.
use llvmdg.Common.{
  ℕ, ◌+◌, ◌-◌, ◌*◌, ◌/◌, ◌<◌, ◌≡◌, ap, subst, Bool, true, false, not, ◌&&◌, ◌||◌, ◌==◌, some,
  length, arith, Bool-cases, Option-cases, inl, inr,
}
use llvmdg.Offset.{Offset}
use llvmdg.Std.OrderedMap.{find}
use llvmdg.Bitvector
use llvmdg.Bitvector.{Buckets}
use llvmdg.Bitvector.Order.{set-IsBitSet}
use llvmdg.PointsTo.{Node, pointer}
use llvmdg.PointsTo.Ordered.{insert_pointer, member-insert, insert-reports, insert-Ascending}
use llvmdg.PointsTo.SmallOffsets.{
  SmallOffsets, small_offsets, get_node_id, place, get_position, is_offset_valid, add_known,
}
use llvmdg.PointsTo.SmallOffsets.Order.{
  IsSmallOffsets, HasPlaces, bit_missing, bit_found, holds, get_node_id-IsGrown, same_position,
}

module _ (k : ℕ) (places : HasPlaces k) where
  -- A set with one more pointer
  pub record IsOneMore (n : Node) (o : Offset) (s : SmallOffsets) (r : Bool × SmallOffsets)
      : Type 0 where
    pub valid : IsSmallOffsets r.1
    pub pointers : (u : Node) (q : Offset) → holds k r.1 u q ≡ ((n == u && o == q) || holds k s u q)
    pub reports : r.0 ≡ not (holds k s n o)

  -- setting the position of a numbered node
  pub set_position :
      (n : Node) (o : Offset) (s : SmallOffsets) (i : ℕ)
      → IsSmallOffsets s
      → find n s.nodes.ids ≡ some i
      → is_offset_valid k o ≡ true
      → IsOneMore n o s (
        not (Bitvector.set ((i - 1) * 64 + place k o) s.pointers).0,
        small_offsets s.nodes (Bitvector.set ((i - 1) * 64 + place k o) s.pointers).1 s.large,
      )
  set_position n o s i v e fits =
      let b = (i - 1) * 64 + place k o in
      let set = set-IsBitSet b s.pointers v.vector in
      let r = small_offsets s.nodes (Bitvector.set b s.pointers).1 s.large in
      let within : b / 64 < length s.nodes.ids =
        omega (arith, places.below o fits, v.nodes.range n i e) in
      record {
        valid = record {
          nodes = v.nodes;
          vector = set.valid;
          named = λ j h. elim (Bool-cases (b == j)) [
            | inl same ↦
                let x : b ≡ j = ground arith in subst (λ t. t / 64 < length s.nodes.ids) x within
            | inr other ↦ v.named j (ground (arith, set.bits j))
          ];
          sorted = v.sorted;
        };
        pointers = λ u q. elim (Bool-cases (is_offset_valid k q)) [
          | inr large ↦ elim (Bool-cases (o == q)) [
            | inl same ↦ let x : o ≡ q = ground arith in ground (arith, ap (is_offset_valid k) x)
            | inr other ↦ ground arith
          ]
          | inl small ↦ elim (Option-cases (find u s.nodes.ids)) [
            | inl missing ↦ elim (Bool-cases (n == u)) [
              | inl same ↦
                  let x : n ≡ u = ground arith in
                  absurd (cc (e, missing, ap (λ t. find t s.nodes.ids) x))
              | inr other ↦
                  ground
                    (arith, bit_missing k places s u q missing, bit_missing k places r u q missing)
            ]
            | inr (j, f) ↦ ground (
              arith,
              bit_found k places r u q j f,
              bit_found k places s u q j f,
              set.bits ((j - 1) * 64 + place k q),
              same_position k places s.nodes n u o q i j v.nodes e f fits small,
            )
          ]
        ];
        reports = ground (arith, set.previous, bit_found k places s n o i e);
      }

  -- numbering a node and setting a position of it
  pub create_position :
      (n : Node) (o : Offset) (s : SmallOffsets)
      → IsSmallOffsets s
      → is_offset_valid k o ≡ true
      → IsOneMore n o s (
        not (Bitvector.set (get_position k s.nodes n o).0 s.pointers).0,
        small_offsets
            (get_position k s.nodes n o).1
            (Bitvector.set (get_position k s.nodes n o).0 s.pointers).1
            s.large,
      )
  unfolding get_position
  create_position n o s v fits =
      let grown = get_node_id-IsGrown k places n s v in
      let s1 = small_offsets (get_node_id s.nodes n).1 s.pointers s.large in
      let more = set_position n o s1 (get_node_id s.nodes n).0 grown.valid grown.number fits in
      record {
        valid = more.valid;
        pointers = λ u q. ground (arith, more.pointers u q, grown.held u q);
        reports = ground (arith, more.reports, grown.held n o);
      }

  -- adding to the set of large pointers
  pub insert_large :
      (n : Node) (o : Offset) (s : SmallOffsets)
      → IsSmallOffsets s
      → is_offset_valid k o ≡ false
      → IsOneMore n o s (
        (insert_pointer (pointer n o) s.large).0,
        small_offsets s.nodes s.pointers (insert_pointer (pointer n o) s.large).1,
      )
  insert_large n o s v large = record {
    valid = record {
      nodes = v.nodes;
      vector = v.vector;
      named = v.named;
      sorted = insert-Ascending (pointer n o) s.large v.sorted;
    };
    pointers = λ u q. elim (Bool-cases (is_offset_valid k q)) [
      | inr far ↦ ground (arith, member-insert (pointer n o) s.large (pointer u q))
      | inl small ↦ elim (Bool-cases (o == q)) [
        | inl same ↦ let x : o ≡ q = ground arith in ground (arith, ap (is_offset_valid k) x)
        | inr other ↦ ground arith
      ]
    ];
    reports = ground (arith, insert-reports (pointer n o) s.large v.sorted);
  }

  pub add_known-IsOneMore :
      (t : Node) (o : Offset) (s : SmallOffsets)
      → IsSmallOffsets s
      → IsOneMore t o s (add_known k (pointer t o) s)
  unfolding add_known
  add_known-IsOneMore t o s v = elim (Bool-cases (is_offset_valid k o)) [
    | inl fits ↦ rw (fits, add_known) (create_position t o s v fits)
    | inr large ↦ rw (large, add_known) (insert_large t o s v large)
  ]
