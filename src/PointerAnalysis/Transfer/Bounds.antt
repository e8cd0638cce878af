-- ===== src/PointerAnalysis/Transfer/Bounds.antt =====
-- lib/PointerAnalysis/PointerAnalysis.cpp: the offsets that GEPs and copies compute.
use llvmdg.Common.{◌+◌, ◌≡◌, ◌≢◌, ◌≤◌, ◌<◌, ◌⊎◌, inl, inr, true, ◌==◌, arith, Bool-cases}
use llvmdg.Offset.{Offset, unknown, is_unknown}
use llvmdg.PointsTo.{Node, Pointer}
use llvmdg.PointsTo.Sets.{PointsToSets}
use llvmdg.PointerAnalysis.{Setting}
use llvmdg.PointerAnalysis.Transfer.{gep_pointer, gep_offset}
use llvmdg.PointerAnalysis.Copy.{is_copied, copied_offset}

-- An offset that the analysis keeps track of in a node's memory
abbrev pub IsTracked : Setting → Node → Offset → Type 0
IsTracked c n o = (o < c.options.field_sensitivity) × (o ≡ 0 ⊎ (o < (c.nodes n).size))

module _ (I : PointsToSets) (c : Setting) where
  -- A GEP keeps the target. The offset that it computes is unknown or tracked: below the field
  -- sensitivity, and zero or below the target's size. It is the sum of the two offsets if these are
  -- known, and the sum does not overflow and is tracked.
  pub gep_pointer_bounds :
      (n : Node) (p : Pointer)
      → c.options.field_sensitivity ≤ unknown
      → ((gep_pointer I c n p).target ≡ p.target)
        × ((gep_pointer I c n p).offset ≢ unknown
            → IsTracked c p.target (gep_pointer I c n p).offset)
        × (p.offset + (c.nodes n).offset < unknown
            → IsTracked c p.target (p.offset + (c.nodes n).offset)
            → (gep_pointer I c n p).offset ≡ p.offset + (c.nodes n).offset)
  unfolding gep_pointer gep_offset
  gep_pointer_bounds n p h =
      (ground arith, λ k. (ground arith, zero_or_below k), λ small (tracked, inside). ground arith)
    where
      zero_or_below :
          (gep_pointer I c n p).offset ≢ unknown
          → ((gep_pointer I c n p).offset ≡ 0)
            ⊎ ((gep_pointer I c n p).offset < (c.nodes p.target).size)
      zero_or_below k = elim (Bool-cases ((gep_pointer I c n p).offset == 0)) [
        | inl start ↦ inl (ground arith)
        | inr further ↦ inr (ground arith)
      ]

-- A pointer that memcpy copies is stored at an unknown offset or inside the destination object and
-- below the field sensitivity. In that case it was copied from a known offset, and it stands as far
-- from the destination's offset as it did from the source's.
pub copied_offset_bounds :
    (c : Setting) (d : Node) (off src_offset dest_offset len : Offset)
    → dest_offset ≤ unknown
    → is_copied c off src_offset len ≡ true
    → copied_offset c d off src_offset dest_offset ≢ unknown
    → (copied_offset c d off src_offset dest_offset < (c.nodes d).size)
      × (copied_offset c d off src_offset dest_offset < c.options.field_sensitivity)
      × (copied_offset c d off src_offset dest_offset + src_offset ≡ off + dest_offset)
      × (off ≢ unknown)
      × (len ≡ unknown ⊎ (off < src_offset + len))
unfolding is_copied copied_offset
copied_offset_bounds c d off src_offset dest_offset len h k m =
    (ground arith, ground arith, ground arith, (λ e. ground arith), in_range)
  where
    in_range : (len ≡ unknown) ⊎ (off < src_offset + len)
    in_range = elim (Bool-cases (is_unknown len)) [
      | inl all ↦ inl (ground arith)
      | inr some_bytes ↦ inr (ground arith)
    ]
