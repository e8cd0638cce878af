-- ===== src/MemorySsa/IntervalsList.antt =====
-- include/dg/ADT/IntervalsList.h: a list of intervals, in order. Of its assertions only the one
-- of the constructor of intervals is modelled: the list is read as it is built without assertions. With
-- them the check of the whole list at the end of add does not end on a list of two intervals.
pub mod Add
use llvmdg.Common.{
  Bool, true, false, ◌&&◌, List, [], ◌∷◌, Option, none, some, ltb, leb, if◌then◌else◌, min, max,
}
use llvmdg.Offset.{Offset, plus, minus}
use llvmdg.IntervalMap.{Interval, interval}

-- IntervalsList
abbrev pub IntervalsList : Type 0
IntervalsList = List Interval

-- Interval::overlaps and length
unfoldable pub meets : Interval → Interval → Bool
meets a b = leb a.start b.end && leb b.start a.end

unfoldable pub interval_length : Interval → Offset
interval_length a = plus (minus a.end a.start) 1

-- The run of `to`, which starts at the interval f in front of a list: the end of the interval where it
-- stops, and the intervals behind that one. It stops at the first interval that does not overlap, or
-- else at the last one.
unfoldable pub run_to : Interval → Interval → IntervalsList → Offset × IntervalsList
unfolding meets
run_to i f [] = (f.end, [])
run_to i f (g ∷ l) = let rest = run_to i g l in if meets i f then rest else (f.end, g ∷ l)

-- _replace_overlapping, called where the run ends, for a run that starts in front of a list; none is
-- the use of the iterator end().
unfoldable pub replace_overlapping : Interval → IntervalsList → Option IntervalsList
unfolding run_to
replace_overlapping i [] = none
replace_overlapping i (f ∷ l) =
    let to = run_to i f l in some (interval (min f.start i.start) (max to.0 i.end) ∷ to.1)

abbrev pub behind : Interval → Option IntervalsList → Option IntervalsList
behind e none = none
behind e (some l) = some (e ∷ l)

-- The loop of add
unfoldable pub add_from : Interval → IntervalsList → Option IntervalsList
unfolding replace_overlapping meets
add_from i [] = some (i ∷ [])
add_from i (e ∷ l) =
    let rest = add_from i l in
    if meets i e
    then behind e (replace_overlapping i l)
    else if ltb i.end e.start
    then some (i ∷ e ∷ l)
    else behind e rest

-- add; none is also an interval that the constructor of intervals refuses.
unfoldable pub add : Interval → IntervalsList → Option IntervalsList
unfolding add_from
add i [] = if leb i.start i.end then add_from i (i ∷ []) else none
add i (e ∷ l) = if leb i.start i.end then add_from i (e ∷ l) else none

-- The loops of intersectWith
unfoldable pub erase_below : Interval → IntervalsList → IntervalsList
erase_below r [] = []
erase_below r (e ∷ l) = let rest = erase_below r l in if ltb e.end r.start then rest else e ∷ l

unfoldable pub trim : Interval → IntervalsList → IntervalsList
trim r [] = []
trim r (e ∷ l) = if meets e r then interval (max e.start r.start) (min e.end r.end) ∷ l else e ∷ l

-- intersectWith
unfoldable pub intersect_with : IntervalsList → IntervalsList → IntervalsList
intersect_with l [] = l
intersect_with l (r ∷ rs) = intersect_with (trim r (erase_below r l)) rs
