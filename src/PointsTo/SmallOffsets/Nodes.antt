-- ===== src/PointsTo/SmallOffsets/Nodes.antt =====
-- The numbers of the nodes, and the positions that they give to the pointers.
use llvmdg.Common.{
  ℕ, suc, ◌+◌, ◌≤◌, ◌<◌, ◌≡◌, ◌≢◌, ◌⊎◌, ◌↔◌, refl, sym, ◌∙◌, ap, true, ◌==◌, ==_refl, List, [], ◌∷◌,
  none, some, length, arith, Bool-cases, Option-cases, inl, inr,
}
use llvmdg.Offset.{Offset}
use llvmdg.Std.OrderedMap.{find, assign, find-assign}
use llvmdg.PointsTo.{Node}
use llvmdg.PointsTo.SmallOffsets.{NodeIds, get_node_id, place, is_offset_valid}

-- No two nodes have one number, and the numbers are 1, 2, ... up to the number of nodes.
pub record IsNodeIds (d : NodeIds) : Type 0 where
  pub distinct : (n k : Node) (i : ℕ) → find n d.ids ≡ some i → find k d.ids ≡ some i → n ≡ k
  pub range : (n : Node) (i : ℕ) → find n d.ids ≡ some i → (0 < i) × (i ≤ length d.ids)

length-assign :
    (k v : ℕ) (m : List (ℕ × ℕ)) → find k m ≡ none → length (assign k v m) ≡ suc (length m)
unfolding find assign
length-assign k v [] h = refl
length-assign k v ((j, w) ∷ m) h = ground (arith, length-assign k v m)

-- What getNodeID makes of the tables.
pub record IsNumbered (d : NodeIds) (n : Node) (r : ℕ × NodeIds) : Type 0 where
  pub valid : IsNodeIds r.1
  pub id : find n r.1.ids ≡ some r.0
  pub others : (k : Node) → n ≢ k → find k r.1.ids ≡ find k d.ids
  pub grows : length d.ids ≤ length r.1.ids
  pub old : (i : ℕ) → find n d.ids ≡ some i → (r.0 ≡ i)
  pub new : find n d.ids ≡ none → r.0 ≡ suc (length d.ids)

pub get_node_id-IsNumbered :
    (d : NodeIds) (n : Node) → IsNodeIds d → IsNumbered d n (get_node_id d n)
unfolding get_node_id
get_node_id-IsNumbered d n v = elim (Option-cases (find n d.ids)) [
  | inr (id, e) ↦
      rw (e, get_node_id)
        (record {
          valid = v;
          id = e;
          others = λ k h. refl;
          grows = omega arith;
          old = λ i h. cc (e, h);
          new = λ h. cc (e, h);
        })
  | inl missing ↦
      let size = length-assign n (length d.ids + 1) d.ids missing in
      rw (missing, get_node_id)
        (record {
          valid = record {
            distinct = λ k j i h g. elim (found k i h) [
              | inl (e, f) ↦ elim (found j i g) [
                | inl (e2, f2) ↦ sym e ∙ e2
                | inr before ↦ absurd (omega (arith, (v.range j i before).1))
              ]
              | inr earlier ↦ elim (found j i g) [
                | inl (e2, f2) ↦ absurd (omega (arith, (v.range k i earlier).1))
                | inr before ↦ v.distinct k j i earlier before
              ]
            ];
            range = λ k i h. elim (found k i h) [
              | inl (e, f) ↦ (omega arith, omega (arith, size))
              | inr earlier ↦
                  ((v.range k i earlier).0, omega (arith, size, (v.range k i earlier).1))
            ];
          };
          id = ground (arith, find-assign n n (length d.ids + 1) d.ids, ==_refl n);
          others = λ k h. ground (arith, find-assign n k (length d.ids + 1) d.ids);
          grows = omega (arith, size);
          old = λ i h. cc (missing, h);
          new = λ h. omega arith;
        })
]
  where
    found :
        (k : Node) (i : ℕ)
        → find k (assign n (length d.ids + 1) d.ids) ≡ some i
        → ((n ≡ k) × (i ≡ length d.ids + 1)) ⊎ (find k d.ids ≡ some i)
    found k i h = elim (Bool-cases (n == k)) [
      | inl same ↦ inl (ground arith, ground (arith, find-assign n k (length d.ids + 1) d.ids))
      | inr other ↦ inr (ground (arith, find-assign n k (length d.ids + 1) d.ids))
    ]

-- Two offsets that have a place of their own share it only if they are equal: without a multiplier
pub place-one :
    (o q : Offset)
    → is_offset_valid 1 o ≡ true
    → is_offset_valid 1 q ≡ true
    → (place 1 o ≡ place 1 q) ↔ (o ≡ q)
unfolding place is_offset_valid
place-one o q h k = (λ e. ground arith, λ e. ap (place 1) e)

-- and for the offsets that the multiplier 4 divides.
pub place-four :
    (o q : Offset)
    → is_offset_valid 4 o ≡ true
    → is_offset_valid 4 q ≡ true
    → (place 4 o ≡ place 4 q) ↔ (o ≡ q)
unfolding place is_offset_valid
place-four o q h k = (λ e. ground arith, λ e. ap (place 4) e)
