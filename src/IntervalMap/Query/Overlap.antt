-- ===== src/IntervalMap/Query/Overlap.antt =====
-- overlaps and overlapsFull: a positive answer is right, and some negative answers are wrong.
use llvmdg.Common.{suc, ◌≤◌, ◌<◌, ◌≡◌, sym, ◌∙◌, ap, subst, true, false, [], ◌∷◌, arith}
use llvmdg.Offset.{Offset, unknown}
use llvmdg.Offset.Laws.{plus-one, minus-one}
use llvmdg.IntervalMap.{Interval, Entry, Mapping, Cursor, rewind, find_ge}
use llvmdg.IntervalMap.Order.{
  IsProper, Ordered, within, covered, any-rewind, IsCut, find_ge-IsCut, rewind-find_ge,
}
use llvmdg.IntervalMap.Query.{
  overlaps_at, overlaps, spans, adjoins, overlaps_full_at, overlaps_full,
}

-- Some offset of the interval is held by the mapping.
abbrev pub Overlaps : Interval → Mapping → Type 0
Overlaps i m = (x : Offset) × (within i x ≡ true) × (covered m x ≡ true)

overlaps_at_sound :
    (i : Interval) (c : Cursor)
    → i.start ≤ i.end
    → IsCut i c
    → overlaps_at i c ≡ true
    → Overlaps i (rewind c.0 c.1)
unfolding overlaps_at
overlaps_at_sound i ([], []) o c h = cc
overlaps_at_sound i (last ∷ before, []) o c h = (
  i.start,
  ground arith,
  ground (arith, any-rewind (λ e. within e.key i.start) before (last ∷ []), c.below),
)
overlaps_at_sound i ([], e ∷ ge) o c h =
    (e.key.start, ground (arith, c.above.0), ground (arith, c.above.1.proper.ordered))
overlaps_at_sound i (prev ∷ before, e ∷ ge) o c h = (
  e.key.start,
  ground (arith, c.above.0),
  ground (
    arith,
    any-rewind (λ d. within d.key e.key.start) before (prev ∷ e ∷ ge),
    c.above.1.proper.ordered,
  ),
)

-- Where overlaps says yes, some offset of the interval is held by the mapping.
pub overlaps_sound :
    (i : Interval) (m : Mapping)
    → i.start ≤ i.end
    → Ordered 0 m
    → overlaps i m ≡ true
    → Overlaps i m
unfolding overlaps
overlaps_sound i m o s h =
    subst (Overlaps i) (rewind-find_ge i [] m)
      (overlaps_at_sound i (find_ge i [] m) o (find_ge-IsCut i [] m tt tt s) h)

module _ (i : Interval) (m : Mapping) (prev e : Entry) (before ge : Mapping) (o : i.start ≤ i.end)
    (s : Ordered 0 m) (cut : find_ge i [] m ≡ (prev ∷ before, e ∷ ge)) where
  prev-starts : prev.key.start < i.start
  prev-starts = (subst (IsCut i) cut (find_ge-IsCut i [] m tt tt s)).below

  covered_by_prev : (x : Offset) → i.start ≤ x → x ≤ prev.key.end → covered m x ≡ true
  covered_by_prev x a b =
      let whole : rewind before (prev ∷ e ∷ ge) ≡ m =
        ap (λ c. rewind c.0 c.1) (sym cut) ∙ rewind-find_ge i [] m in
      subst (λ t. covered t x ≡ true) whole
        (ground (arith, any-rewind (λ d. within d.key x) before (prev ∷ e ∷ ge), prev-starts))

  -- overlaps says no wherever the entry before the lower bound reaches into the interval and the
  -- next entry starts behind it, though the first offset of the interval is held by the mapping.
  pub overlaps_misses :
      i.start ≤ prev.key.end
      → i.end < e.key.start
      → (overlaps i m ≡ false) × (covered m i.start ≡ true)
  unfolding overlaps overlaps_at
  overlaps_misses reach behind =
      (rw cut (ground arith), covered_by_prev i.start (omega arith) reach)

  -- overlapsFull says no wherever the entry before the lower bound holds the whole interval and the
  -- next entry leaves a gap behind it, though every offset of the interval is held by the mapping.
  pub overlaps_full_misses :
      i.end ≤ prev.key.end
      → suc prev.key.end < e.key.start
      → e.key.start < unknown
      → (overlaps_full i m ≡ false) × ((x : Offset) → within i x ≡ true → covered m x ≡ true)
  unfolding overlaps_full overlaps_full_at adjoins
  overlaps_full_misses whole gap known = (
    rw cut (ground (arith, minus-one e.key.start)),
    λ x h. covered_by_prev x (ground arith) (ground arith),
  )

spans_sound :
    (hi last_end : Offset) (m : Mapping) (x : Offset)
    → hi ≤ unknown
    → Ordered (suc last_end) m
    → spans hi last_end m ≡ true
    → last_end < x
    → x ≤ hi
    → covered m x ≡ true
unfolding spans
spans_sound hi last_end [] x u s h a b = absurd (ground arith)
spans_sound hi last_end (e ∷ m) x u s h a b =
    ground (arith, plus-one last_end, spans_sound hi e.key.end m x u s.2)

overlaps_full_at_sound :
    (i : Interval) (c : Cursor) (x : Offset)
    → IsProper i
    → IsCut i c
    → overlaps_full_at i c ≡ true
    → within i x ≡ true
    → covered (rewind c.0 c.1) x ≡ true
unfolding overlaps_full_at adjoins
overlaps_full_at_sound i ([], []) x p c h w = cc
overlaps_full_at_sound i (last ∷ before, []) x p c h w =
    ground (arith, any-rewind (λ e. within e.key x) before (last ∷ []), c.below)
overlaps_full_at_sound i ([], e ∷ ge) x p c h w =
    ground (arith, spans_sound i.end e.key.end ge x p.bounded c.above.2, c.above.0)
overlaps_full_at_sound i (prev ∷ before, e ∷ ge) x p c h w = ground (
  arith,
  any-rewind (λ d. within d.key x) before (prev ∷ e ∷ ge),
  spans_sound i.end e.key.end ge x p.bounded c.above.2,
  minus-one e.key.start,
  c.above.1.proper.known,
  c.above.0,
  c.below,
)

-- Where overlapsFull says yes, every offset of the interval is held by the mapping.
pub overlaps_full_sound :
    (i : Interval) (m : Mapping) (x : Offset)
    → IsProper i
    → Ordered 0 m
    → overlaps_full i m ≡ true
    → within i x ≡ true
    → covered m x ≡ true
unfolding overlaps_full
overlaps_full_sound i m x p s h w =
    subst (λ t. covered t x ≡ true) (rewind-find_ge i [] m)
      (overlaps_full_at_sound i (find_ge i [] m) x p (find_ge-IsCut i [] m tt tt s) h w)
