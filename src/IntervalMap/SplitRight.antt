-- ===== src/IntervalMap/SplitRight.antt =====
-- The loop of splitExtBorders that goes to the right border.
use llvmdg.Common.{
  ℕ, suc, ◌≡◌, inl, inr, refl, ap, false, [], ◌∷◌, arith, ltb, leb, All, Bool-cases,
}
use llvmdg.IntervalMap.{Interval, Mapping, Result, split_right}
use llvmdg.IntervalMap.Order.{IsProper, Ordered, has, Ordered-mono}
use llvmdg.IntervalMap.Border.{Aligned, Aligned-behind, entry-IsCutAt}

-- What a split of the borders of `i` makes of the mapping `m`.
pub record IsSplit (i : Interval) (m : Mapping) (r : Result) : Type 0 where
  pub ordered : Ordered 0 r.1
  pub aligned : All (Aligned i) r.1
  pub same : (x w : ℕ) → has r.1 x w ≡ has m x w
  pub unchanged : r.0 ≡ false → r.1 ≡ m

pub record IsRightSplit (i : Interval) (lo : ℕ) (m : Mapping) (r : Result) : Type 0 where
  pub ordered : Ordered lo r.1
  pub above : Ordered i.start r.1
  pub aligned : All (Aligned i) r.1
  pub same : (x w : ℕ) → has r.1 x w ≡ has m x w
  pub unchanged : r.0 ≡ false → r.1 ≡ m

pub split_right-IsRightSplit :
    (i : Interval) (lo : ℕ) (m : Mapping)
    → IsProper i
    → Ordered lo m
    → Ordered i.start m
    → IsRightSplit i lo m (split_right i m)
unfolding split_right
split_right-IsRightSplit i lo [] p s a = record {
  ordered = tt;
  above = tt;
  aligned = tt;
  same = λ x w. refl;
  unchanged = λ e. refl;
}
split_right-IsRightSplit i lo (e ∷ m) p s a = elim (Bool-cases (leb e.key.start i.end)) [
  | inr behind ↦
      rw (behind, split_right)
        (record {
          ordered = s;
          above = a;
          aligned = Aligned-behind i (e ∷ m) p.ordered (ground arith, s.1, s.2);
          same = λ x w. refl;
          unchanged = λ e. refl;
        })
  | inl starts ↦ elim (Bool-cases (ltb i.end e.key.end)) [
    | inl out ↦
        let c =
          entry-IsCutAt e i.end s.1 (ground arith) (ground arith)
            (ground (arith, p.not_last, s.1.bounded)) in
        rw (starts, out, split_right)
          (record {
            ordered = (s.0, c.lower, (omega (arith, c.next), c.upper, s.2));
            above = (a.0, c.lower, (omega (arith, c.next), c.upper, s.2));
            aligned = (
              (inr a.0, inr (omega arith)),
              (
                (inr (omega (arith, c.next, p.ordered)), inl (omega (arith, c.next))),
                Aligned-behind i m p.ordered
                    (Ordered-mono (suc i.end) (suc e.key.end) m (ground arith) s.2),
              ),
            );
            same = λ x w. ground (arith, c.same x w);
            unchanged = λ e. cc;
          })
    | inr inside ↦
        let ih =
          split_right-IsRightSplit i (suc e.key.end) m p s.2
            (Ordered-mono i.start (suc e.key.end) m (omega (arith, s.1.ordered)) s.2) in
        rw (starts, inside, split_right)
          (record {
            ordered = (s.0, s.1, ih.ordered);
            above = (a.0, s.1, ih.ordered);
            aligned = ((inr a.0, inr (ground arith)), ih.aligned);
            same = λ x w. ground (arith, ih.same x w);
            unchanged = λ q. ap (◌∷◌ e) (ih.unchanged q);
          })
  ]
]
