-- ===== src/PointsTo/SmallOffsets/Order.antt =====
-- What a set of small offsets keeps, what it holds, and its operations on one position.
use llvmdg.Common.{
  ℕ, ◌+◌, ◌-◌, ◌*◌, ◌/◌, ◌<◌, ◌≡◌, ◌↔◌, sym, ◌∙◌, ap, subst, Bool, true, false, ◌&&◌, ◌==◌,
  if◌then◌else◌, Option, none, some, length, arith, Bool-cases, Option-cases, inl, inr,
}
use llvmdg.Offset.{Offset, unknown}
use llvmdg.Std.OrderedMap.{find}
use llvmdg.Bitvector
use llvmdg.Bitvector.{Buckets}
use llvmdg.Bitvector.Order.{IsBitvector}
use llvmdg.PointsTo.{Node, pointer}
use llvmdg.PointsTo.Ordered.{member, Ascending}
use llvmdg.PointsTo.SmallOffsets.{
  NodeIds, SmallOffsets, small_offsets, get_node_id, place, is_offset_valid,
}
use llvmdg.PointsTo.SmallOffsets.Nodes.{IsNodeIds, get_node_id-IsNumbered}

-- The tables are sound, and every position in the vector belongs to a node.
pub record IsSmallOffsets (s : SmallOffsets) : Type 0 where
  pub nodes : IsNodeIds s.nodes
  pub vector : IsBitvector s.pointers
  pub named : (b : ℕ) → Bitvector.get s.pointers b ≡ true → b / 64 < length s.nodes.ids
  pub sorted : Ascending s.large

-- The multiplier gives every offset a place of its own below 64.
pub record HasPlaces (multiplier : ℕ) : Type 0 where
  pub below : (o : Offset) → is_offset_valid multiplier o ≡ true → place multiplier o < 64
  pub own :
      (o q : Offset)
      → is_offset_valid multiplier o ≡ true
      → is_offset_valid multiplier q ≡ true
      → (place multiplier o ≡ place multiplier q) ↔ (o ≡ q)
  pub all : is_offset_valid multiplier unknown ≡ true

abbrev pub bit_in : ℕ → Buckets → Offset → Option ℕ → Bool
bit_in k b q none = false
bit_in k b q (some i) = Bitvector.get b ((i - 1) * 64 + place k q)

abbrev pub bit : ℕ → SmallOffsets → Node → Offset → Bool
bit k s u q = bit_in k s.pointers q (find u s.nodes.ids)

-- The pointers that a set holds, read without a change of the tables.
abbrev pub holds : ℕ → SmallOffsets → Node → Offset → Bool
holds k s u q = if is_offset_valid k q then bit k s u q else member s.large (pointer u q)

module _ (k : ℕ) (places : HasPlaces k) where
  pub bit_missing :
      (s : SmallOffsets) (u : Node) (q : Offset) → find u s.nodes.ids ≡ none → bit k s u q ≡ false
  bit_missing s u q e = ap (bit_in k s.pointers q) e

  pub bit_found :
      (s : SmallOffsets) (u : Node) (q : Offset) (i : ℕ)
      → find u s.nodes.ids ≡ some i
      → bit k s u q ≡ Bitvector.get s.pointers ((i - 1) * 64 + place k q)
  bit_found s u q i e = ap (bit_in k s.pointers q) e

  -- A node that has no number yet has no position in the vector.
  fresh :
      (s : SmallOffsets) (q : Offset)
      → IsSmallOffsets s
      → is_offset_valid k q ≡ true
      → Bitvector.get s.pointers (length s.nodes.ids * 64 + place k q) ≡ false
  fresh s q v h =
      elim (Bool-cases (Bitvector.get s.pointers (length s.nodes.ids * 64 + place k q))) [
        | inl set ↦
            absurd
              (omega (arith, v.named (length s.nodes.ids * 64 + place k q) set, places.below q h))
        | inr clear ↦ clear
      ]

  -- A set whose tables have grown holds what it held.
  pub record IsGrown (n : Node) (s : SmallOffsets) (s1 : SmallOffsets) : Type 0 where
    pub valid : IsSmallOffsets s1
    pub number : find n s1.nodes.ids ≡ some (get_node_id s.nodes n).0
    pub held : (u : Node) (q : Offset) → holds k s1 u q ≡ holds k s u q
    pub position :
        (q : Offset)
        → is_offset_valid k q ≡ true
        → Bitvector.get s.pointers (((get_node_id s.nodes n).0 - 1) * 64 + place k q)
          ≡ holds k s n q

  pub get_node_id-IsGrown :
      (n : Node) (s : SmallOffsets)
      → IsSmallOffsets s
      → IsGrown n s (small_offsets (get_node_id s.nodes n).1 s.pointers s.large)
  get_node_id-IsGrown n s v =
      let new = get_node_id-IsNumbered s.nodes n v.nodes in
      let s1 = small_offsets (get_node_id s.nodes n).1 s.pointers s.large in
      let at : (q : Offset)
          → is_offset_valid k q ≡ true
          → Bitvector.get s.pointers (((get_node_id s.nodes n).0 - 1) * 64 + place k q)
            ≡ bit k s n q =
        λ q h. elim (Option-cases (find n s.nodes.ids)) [
          | inl missing ↦
              let last : (get_node_id s.nodes n).0 - 1 ≡ length s.nodes.ids =
                omega (arith, new.new missing) in
              rw last (fresh s q v h ∙ sym (bit_missing s n q missing))
          | inr (i, e) ↦ rw (new.old i e) (sym (bit_found s n q i e))
        ] in
      record {
        valid = record {
          nodes = new.valid;
          vector = v.vector;
          named = λ b h. omega (arith, v.named b h, new.grows);
          sorted = v.sorted;
        };
        number = new.id;
        held = λ u q. elim (Bool-cases (is_offset_valid k q)) [
          | inr large ↦ ground arith
          | inl fits ↦ elim (Bool-cases (n == u)) [
            | inl same ↦
                let e : n ≡ u = ground arith in
                subst (λ w. holds k s1 w q ≡ holds k s w q) e
                  (ground (arith, bit_found s1 n q (get_node_id s.nodes n).0 new.id, at q fits))
            | inr other ↦
                let e : find u s1.nodes.ids ≡ find u s.nodes.ids = new.others u (ground arith) in
                ground (arith, ap (bit_in k s.pointers q) e)
          ]
        ];
        position = λ q h. ground (arith, at q h);
      }

  -- Two pointers with places share a position only if they are equal.
  pub same_position :
      (d : NodeIds) (u w : Node) (o q : Offset) (i j : ℕ)
      → IsNodeIds d
      → find u d.ids ≡ some i
      → find w d.ids ≡ some j
      → is_offset_valid k o ≡ true
      → is_offset_valid k q ≡ true
      → ((i - 1) * 64 + place k o == (j - 1) * 64 + place k q) ≡ (u == w && o == q)
  same_position d u w o q i j v e f g h =
      let a = places.below o g in
      let b = places.below q h in
      let c = v.range u i e in
      let m = v.range w j f in
      let own = places.own o q g h in
      elim (Bool-cases (u == w && o == q)) [
        | inl same ↦
            let x : u ≡ w = ground arith in
            let y : o ≡ q = ground arith in
            let z : i ≡ j = cc (e, f, ap (λ t. find t d.ids) x) in ground (arith, own.1 y)
        | inr other ↦ elim (Bool-cases ((i - 1) * 64 + place k o == (j - 1) * 64 + place k q)) [
          | inr apart ↦ apart ∙ sym other
          | inl equal ↦
              let x : i ≡ j = ground (arith, a, b, c, m) in
              let y : place k o ≡ place k q = ground (arith, a, b, c, m) in
              let z : u ≡ w = v.distinct u w j (e ∙ ap some x) f in ground (arith, own.0 y)
        ]
      ]
