-- ===== src/IntervalMap/Query.antt =====
-- The queries of DisjunctiveIntervalMap: _shift_le and le, overlaps, overlapsFull, gather, uncovered.
pub mod First
pub mod Gather
pub mod Overlap
pub mod Uncovered
use llvmdg.Common.{
  Bool, true, false, ◌&&◌, List, [], ◌∷◌, Option, none, some, ltb, leb, ◌==◌, if◌then◌else◌, ℕ,
  ◌++◌,
}
use llvmdg.Std.OrderedSet.{insert_all}
use llvmdg.Offset.{Offset, plus, minus}
use llvmdg.IntervalMap.{Interval, interval, Mapping, Cursor, find_ge, overlaps_with}

-- _shift_le. `some []` is the iterator end(); `none` stands for the step back from the begin of an
-- empty mapping, which is undefined.
unfoldable pub shift_le : Interval → Cursor → Option Mapping
shift_le i ([], []) = none
shift_le i (last ∷ before, []) = if leb i.start last.key.end then some (last ∷ []) else some []
shift_le i ([], e ∷ ge) = if ltb i.end e.key.start then some [] else some (e ∷ ge)
shift_le i (prev ∷ before, e ∷ ge) =
    if leb i.start prev.key.end
    then some (prev ∷ e ∷ ge)
    else (if ltb i.end e.key.start then some [] else some (e ∷ ge))

unfoldable pub le : Interval → Mapping → Option Mapping
unfolding shift_le find_ge
le i m = shift_le i (find_ge i [] m)

unfoldable pub overlaps_at : Interval → Cursor → Bool
overlaps_at i ([], []) = false
overlaps_at i (last ∷ before, []) = leb i.start last.key.end
overlaps_at i (before, e ∷ ge) = leb e.key.start i.end

unfoldable pub overlaps : Interval → Mapping → Bool
unfolding overlaps_at find_ge
overlaps i m = overlaps_at i (find_ge i [] m)

-- The loop of overlapsFull: the entries go on without a gap up to `hi`.
unfoldable pub spans : Offset → Offset → Mapping → Bool
spans hi last_end [] = leb hi last_end
spans hi last_end (e ∷ m) =
    let rest = spans hi e.key.end m in
    if ltb last_end hi then e.key.start == plus last_end 1 && rest else true

-- The entry before the iterator leaves no gap.
unfoldable pub adjoins : Mapping → Offset → Bool
adjoins [] start = false
adjoins (prev ∷ before) start = prev.key.end == minus start 1

unfoldable pub overlaps_full_at : Interval → Cursor → Bool
unfolding spans adjoins
overlaps_full_at i ([], []) = false
overlaps_full_at i (last ∷ before, []) = leb i.end last.key.end
overlaps_full_at i (before, e ∷ ge) =
    if ltb i.start e.key.start
    then adjoins before e.key.start && spans i.end e.key.end ge
    else spans i.end e.key.end ge

unfoldable pub overlaps_full : Interval → Mapping → Bool
unfolding overlaps_full_at find_ge
overlaps_full i m = overlaps_full_at i (find_ge i [] m)

-- The loop of gather
unfoldable pub collect : Interval → Mapping → List ℕ → List ℕ
unfolding overlaps_with insert_all
collect i [] ret = ret
collect i (e ∷ m) ret =
    let rest = collect i m (insert_all e.values ret) in if overlaps_with e.key i then rest else ret

unfoldable pub gather : Interval → Mapping → Option (List ℕ)
unfolding le collect
gather i m = elim (le i m) [ none ↦ none | some it ↦ some (collect i it []) ]

-- The loop of uncovered, where `start` is `cur.start`
unfoldable pub gaps : Offset → Offset → Mapping → List Interval
gaps hi start [] = if leb start hi then interval start hi ∷ [] else []
gaps hi start (e ∷ m) =
    let rest = gaps hi (plus e.key.end 1) m in
    let after = if leb hi e.key.end then [] else rest in
    if ltb start e.key.start then interval start (minus e.key.start 1) ∷ after else after

unfoldable pub uncovered_from : Interval → Mapping → List Interval
unfolding gaps
uncovered_from i [] = i ∷ []
uncovered_from i (e ∷ m) =
    if ltb e.key.start i.start
    then (if leb i.end e.key.end then [] else gaps i.end (plus e.key.end 1) m)
    else gaps i.end i.start (e ∷ m)

unfoldable pub uncovered : Interval → Mapping → List Interval
unfolding le uncovered_from
uncovered i [] = i ∷ []
uncovered i (e ∷ m) = elim (le i (e ∷ m)) [ none ↦ i ∷ [] | some it ↦ uncovered_from i it ]
