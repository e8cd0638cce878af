-- ===== src/IntervalMap/Split.antt =====
-- splitExtBorders and splitIntervalHint: after them no interval crosses a border of the new one, and
-- the mapping means what it meant.
use llvmdg.Common.{◌≡◌, inl, inr, refl, ap, subst, true, [], ◌∷◌, arith, ltb, leb, Bool-cases}
use llvmdg.Offset.{minus}
use llvmdg.IntervalMap.{
  Interval, Mapping, Cursor, Result, rewind, find_ge, lower_part, upper_part, split_last,
  split_right, split_prev, split_at, split_ext_borders,
}
use llvmdg.IntervalMap.Order.{
  IsProper, Ordered, entry_has, bound, Reversed, StartsBelow, Ordered-rewind, any-rewind,
  All-rewind, IsCut, find_ge-IsCut, rewind-find_ge,
}
use llvmdg.IntervalMap.Border.{Aligned, Aligned-before, entry-IsCutAt, left-IsCutAt}
use llvmdg.IntervalMap.SplitRight.{IsSplit, IsRightSplit, split_right-IsRightSplit}

split_prev-IsSplit :
    (i : Interval) (before g : Mapping) (r : Result)
    → IsProper i
    → Reversed before
    → StartsBelow i.start before
    → IsRightSplit i (bound before) g r
    → IsSplit i (rewind before g) (split_prev i before r)
unfolding split_prev
split_prev-IsSplit i [] g (changed, ge) p r b s = record {
  ordered = s.ordered;
  aligned = s.aligned;
  same = s.same;
  unchanged = s.unchanged;
}
split_prev-IsSplit i (prev ∷ before) g (changed, ge) p r b s =
    elim (Bool-cases (leb i.start prev.key.end)) [
      | inr apart ↦
          rw (apart, split_prev)
            (record {
              ordered = Ordered-rewind before (prev ∷ ge) r.2 (r.0, r.1, s.ordered);
              aligned =
                  All-rewind (Aligned i) before (prev ∷ ge)
                    (Aligned-before i before p.ordered r.2 (omega arith))
                    ((inl (ground arith), inr (ground (arith, p.ordered))), s.aligned);
              same = λ x w. ground (
                arith,
                any-rewind (entry_has x w) before (prev ∷ ge),
                any-rewind (entry_has x w) before (prev ∷ g),
                s.same x w,
              );
              unchanged = λ q. ap (λ t. rewind before (prev ∷ t)) (s.unchanged q);
            })
      | inl reaches ↦
          let (cut, c) = left-IsCutAt i prev p r.1 b (ground arith) in
          let upper = upper_part prev (minus i.start 1) in
          let left = Aligned-before i before p.ordered r.2 (omega arith) in
          elim (Bool-cases (ltb i.end prev.key.end)) [
            | inr inside ↦
                rw (reaches, inside, split_prev)
                  (record {
                    ordered =
                        Ordered-rewind before _ r.2
                          (r.0, c.lower, (omega (arith, c.next), c.upper, s.ordered));
                    aligned = All-rewind (Aligned i) before _ left (
                      (inl (omega (arith, cut)), inr (omega (arith, cut, p.ordered))),
                      ((inr (omega (arith, cut, c.next)), inr (ground arith)), s.aligned),
                    );
                    same = λ x w. ground (
                      arith,
                      any-rewind (entry_has x w) before
                          (lower_part prev (minus i.start 1) ∷ upper ∷ ge),
                      any-rewind (entry_has x w) before (prev ∷ g),
                      s.same x w,
                      c.same x w,
                    );
                    unchanged = λ q. cc;
                  })
            | inl over ↦
                let d =
                  entry-IsCutAt upper i.end c.upper (omega (arith, cut, c.next, p.ordered))
                    (ground arith) (ground (arith, p.not_last, r.1.bounded)) in
                rw (reaches, over, split_prev)
                  (record {
                    ordered = Ordered-rewind before _ r.2 (
                      r.0,
                      c.lower,
                      (omega (arith, c.next), d.lower, (omega (arith, d.next), d.upper, s.ordered)),
                    );
                    aligned = All-rewind (Aligned i) before _ left (
                      (inl (omega (arith, cut)), inr (omega (arith, cut, p.ordered))),
                      (
                        (inr (omega (arith, cut, c.next)), inr (omega arith)),
                        (
                          (inr (omega (arith, d.next, p.ordered)), inl (omega (arith, d.next))),
                          s.aligned,
                        ),
                      ),
                    );
                    same = λ x w. ground (
                      arith,
                      any-rewind (entry_has x w) before (
                          lower_part prev (minus i.start 1)
                          ∷ lower_part upper i.end
                          ∷ upper_part upper i.end
                          ∷ ge),
                      any-rewind (entry_has x w) before (prev ∷ g),
                      s.same x w,
                      c.same x w,
                      d.same x w,
                    );
                    unchanged = λ q. cc;
                  })
          ]
    ]

split_last-IsSplit :
    (i : Interval) (before : Mapping)
    → IsProper i
    → Reversed before
    → StartsBelow i.start before
    → IsSplit i (rewind before []) (split_last i before)
unfolding split_last
split_last-IsSplit i [] p r b = record {
  ordered = tt;
  aligned = tt;
  same = λ x w. refl;
  unchanged = λ q. refl;
}
split_last-IsSplit i (last ∷ before) p r b =
    let left = Aligned-before i before p.ordered r.2 (omega arith) in
    elim (Bool-cases (ltb i.end last.key.end)) [
      | inl outer ↦
          let d =
            entry-IsCutAt last i.end r.1 (omega (arith, p.ordered)) (ground arith)
              (ground (arith, p.not_last, r.1.bounded)) in
          let low = lower_part last i.end in
          let (cut, c) = left-IsCutAt i low p d.lower b p.ordered in
          let starts : leb i.start i.end ≡ true = ground (arith, p.ordered) in
          rw (outer, starts, split_last)
            (record {
              ordered = Ordered-rewind before _ r.2 (
                r.0,
                c.lower,
                (omega (arith, c.next), c.upper, (omega (arith, d.next), d.upper, tt)),
              );
              aligned = All-rewind (Aligned i) before _ left (
                (inl (omega (arith, cut)), inr (omega (arith, cut, p.ordered))),
                (
                  (inr (omega (arith, cut, c.next)), inr (omega arith)),
                  ((inr (omega (arith, d.next, p.ordered)), inl (omega (arith, d.next))), tt),
                ),
              );
              same = λ x w. ground (
                arith,
                any-rewind (entry_has x w) before (
                    lower_part low (minus i.start 1)
                    ∷ upper_part low (minus i.start 1)
                    ∷ upper_part last i.end
                    ∷ []),
                any-rewind (entry_has x w) before (last ∷ []),
                c.same x w,
                d.same x w,
              );
              unchanged = λ q. cc;
            })
      | inr inner ↦ elim (Bool-cases (leb i.start last.key.end)) [
        | inl reaches ↦
            let (cut, c) = left-IsCutAt i last p r.1 b (ground arith) in
            rw (inner, reaches, split_last)
              (record {
                ordered =
                    Ordered-rewind before _ r.2
                      (r.0, c.lower, (omega (arith, c.next), c.upper, tt));
                aligned = All-rewind (Aligned i) before _ left (
                  (inl (omega (arith, cut)), inr (omega (arith, cut, p.ordered))),
                  ((inr (omega (arith, cut, c.next)), inr (ground arith)), tt),
                );
                same = λ x w. ground (
                  arith,
                  any-rewind (entry_has x w) before
                      (lower_part last (minus i.start 1) ∷ upper_part last (minus i.start 1) ∷ []),
                  any-rewind (entry_has x w) before (last ∷ []),
                  c.same x w,
                );
                unchanged = λ q. cc;
              })
        | inr apart ↦
            rw (inner, apart, split_last)
              (record {
                ordered = Ordered-rewind before (last ∷ []) r.2 (r.0, r.1, tt);
                aligned =
                    All-rewind (Aligned i) before (last ∷ []) left
                      ((inl (ground arith), inr (ground (arith, p.ordered))), tt);
                same = λ x w. refl;
                unchanged = λ q. refl;
              })
      ]
    ]

split_at-IsSplit :
    (i : Interval) (c : Cursor) → IsProper i → IsCut i c → IsSplit i (rewind c.0 c.1) (split_at i c)
unfolding split_at
split_at-IsSplit i (before, []) p c = split_last-IsSplit i before p c.before c.below
split_at-IsSplit i (before, e ∷ ge) p c =
    split_prev-IsSplit i before (e ∷ ge) (split_right i (e ∷ ge)) p c.before c.below
      (split_right-IsRightSplit i (bound before) (e ∷ ge) p c.after c.above)

-- Splitting a mapping in order at the borders of a proper interval keeps the intervals ordered and disjoint, leaves none that
-- crosses a border, keeps every value at every offset, and reports no change only if it made none.
pub split_ext_borders-IsSplit :
    (i : Interval) (m : Mapping) → IsProper i → Ordered 0 m → IsSplit i m (split_ext_borders i m)
unfolding split_ext_borders
split_ext_borders-IsSplit i m p s =
    subst (λ t. IsSplit i t (split_at i (find_ge i [] m))) (rewind-find_ge i [] m)
      (split_at-IsSplit i (find_ge i [] m) p (find_ge-IsCut i [] m tt tt s))
