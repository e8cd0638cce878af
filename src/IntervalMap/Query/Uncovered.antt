-- ===== src/IntervalMap/Query/Uncovered.antt =====
-- uncovered: the gaps of the mapping on the interval, and how far the last of them may reach.
use llvmdg.Common.{
  ℕ, suc, ◌≤◌, ◌<◌, ◌≡◌, ◌≢◌, inl, inr, refl, sym, ◌∙◌, ap, subst, Bool, true, false, not, List, [],
  ◌∷◌, arith, ltb, some, any, Bool-cases,
}
use llvmdg.Offset.{Offset, unknown}
use llvmdg.Offset.Laws.{plus-one, minus-one}
use llvmdg.IntervalMap.{Interval, Entry, Mapping, find_ge}
use llvmdg.IntervalMap.Order.{IsProper, Ordered, within, covered}
use llvmdg.IntervalMap.Query.{shift_le, le, gaps, uncovered_from, uncovered}
use llvmdg.IntervalMap.Query.First.{Meets, IsFirst, any_below, le-IsFirst}

-- The offset lies in one of the intervals.
abbrev pub in_some : List Interval → Offset → Bool
in_some is x = any (λ j. within j x) is

covered_below : (lo : ℕ) (m : Mapping) (x : Offset) → Ordered lo m → x < lo → covered m x ≡ false
covered_below lo m x s h = any_below lo m x (λ e. within e.key x) (λ e q. q) s h

gaps_below :
    (hi start : Offset) (m : Mapping) (x : Offset)
    → hi ≤ unknown
    → Ordered start m
    → x < start
    → in_some (gaps hi start m) x ≡ false
unfolding gaps
gaps_below hi start [] x u s h = ground arith
gaps_below hi start (e ∷ m) x u s h =
    ground
      (arith, gaps_below hi (suc e.key.end) m x u s.2, plus-one e.key.end, s.0, s.1.proper.ordered)

gaps_exact :
    (hi start : Offset) (m : Mapping) (x : Offset)
    → hi ≤ unknown
    → Ordered start m
    → start ≤ x
    → x ≤ hi
    → in_some (gaps hi start m) x ≡ not (covered m x)
unfolding gaps
gaps_exact hi start [] x u s a b = ground arith
gaps_exact hi start (e ∷ m) x u s a b = ground (
  arith,
  gaps_exact hi (suc e.key.end) m x u s.2,
  gaps_below hi (suc e.key.end) m x u s.2,
  covered_below (suc e.key.end) m x s.2,
  plus-one e.key.end,
  minus-one e.key.start,
  s.0,
  s.1.proper.ordered,
  s.1.proper.known,
)

uncovered_from_exact :
    (i : Interval) (it : Mapping) (x : Offset)
    → IsProper i
    → Ordered 0 it
    → Meets i it
    → within i x ≡ true
    → in_some (uncovered_from i it) x ≡ not (covered it x)
unfolding uncovered_from
uncovered_from_exact i [] x p s meets w = ground arith
uncovered_from_exact i (e ∷ m) x p s meets w = elim (Bool-cases (ltb e.key.start i.start)) [
  | inl left ↦
      rw (left, uncovered_from)
        (ground (
          arith,
          gaps_exact i.end (suc e.key.end) m x p.bounded s.2,
          gaps_below i.end (suc e.key.end) m x p.bounded s.2,
          covered_below (suc e.key.end) m x s.2,
          plus-one e.key.end,
          p.bounded,
        ))
  | inr right ↦
      rw (right, uncovered_from)
        (gaps_exact i.end i.start (e ∷ m) x p.bounded (ground arith, s.1, s.2) (ground arith)
          (ground arith))
]

uncovered-le :
    (i : Interval) (m it : Mapping)
    → m ≢ []
    → le i m ≡ some it
    → uncovered i m ≡ uncovered_from i it
unfolding uncovered
uncovered-le i [] it n e = absurd (n refl)
uncovered-le i (f ∷ m) it n e = rw (e, uncovered)

-- On the interval, the offsets of the intervals that uncovered returns are exactly those that the
-- mapping does not hold.
pub uncovered_exact :
    (i : Interval) (m : Mapping) (x : Offset)
    → IsProper i
    → Ordered 0 m
    → within i x ≡ true
    → in_some (uncovered i m) x ≡ not (covered m x)
unfolding uncovered
uncovered_exact i [] x p s w = ground arith
uncovered_exact i (e ∷ m) x p s w =
    let (it, found, first) = le-IsFirst i (e ∷ m) p.ordered s (λ q. cc) in
    rw (uncovered-le i (e ∷ m) it (λ q. cc) found) (
      uncovered_from_exact i it x p first.ordered first.meets w
      ∙ ap not (sym (first.same x (λ e. within e.key x) (λ e q. q) w)))

le-ne-nil : (i : Interval) (m it : Mapping) → le i m ≡ some it → m ≢ []
unfolding le find_ge shift_le
le-ne-nil i [] it h q = cc
le-ne-nil i (e ∷ m) it h q = cc

-- Where the first entry that overlaps the interval ends inside it and the next one starts more than
-- one offset behind it, the gap that uncovered returns reaches beyond the end of the interval.
pub uncovered_overshoots :
    (i : Interval) (m : Mapping) (e f : Entry) (rest : Mapping)
    → IsProper i
    → Ordered 0 m
    → le i m ≡ some (e ∷ f ∷ rest)
    → e.key.end < i.end
    → suc i.end < f.key.start
    → in_some (uncovered i m) (suc i.end) ≡ true
unfolding uncovered_from gaps
uncovered_overshoots i m e f rest p s found inside behind =
    let n = le-ne-nil i m (e ∷ f ∷ rest) found in
    let (it, found', first) = le-IsFirst i m p.ordered s n in
    let same : it ≡ e ∷ f ∷ rest = cc (found', found) in
    let first' = subst (IsFirst i m) same first in
    let known : f.key.start < unknown = first'.ordered.2.1.proper.known in
    rw (uncovered-le i m (e ∷ f ∷ rest) n found) (
      ground (
        arith,
        plus-one e.key.end,
        minus-one f.key.start,
        p.bounded,
        first'.meets.1,
        first'.meets.0,
        first'.ordered.2.0,
      ))
