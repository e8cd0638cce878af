-- ===== src/IntervalMap/Asserts.antt =====
-- include/dg/ADT/DisjunctiveIntervalMap.h: the assertions of _add and of what it calls, as tests that
-- take the path that the code takes. The operations themselves are those of a build without assertions.
pub mod Changed
pub mod Hold
use llvmdg.Common.{
  ℕ, Bool, true, false, not, ◌&&◌, ◌||◌, [], ◌∷◌, ltb, leb, ◌==◌, if◌then◌else◌, is_empty,
}
use llvmdg.Offset.{Offset, plus, minus}
use llvmdg.IntervalMap.{
  Interval, interval, interval_eq, Entry, Mapping, Cursor, find_ge, lower_part, upper_part,
  split_ext_borders, starts_behind, add_or_update,
}
use llvmdg.IntervalMap.Query.{overlaps}

-- splitIntervalHint: the cut lies in the interval, and the interval behind it is not empty.
unfoldable pub can_split : Entry → Offset → Bool
can_split e cut =
    not (e.key.start == e.key.end)
    && ((leb e.key.start cut && leb cut e.key.end) && ltb cut e.key.end)

-- splitExtBorders where no entry starts in the new interval or behind it
unfoldable pub split_last_asserts : Interval → Mapping → Bool
unfolding can_split
split_last_asserts i [] = false
split_last_asserts i (last ∷ before) =
    let outer = ltb i.end last.key.end in
    let low = if outer then lower_part last i.end else last in
    ltb last.key.start i.start
    && ((if outer then can_split last i.end else true)
        && (if leb i.start low.key.end then can_split low (minus i.start 1) else true))

-- The loop of splitExtBorders
unfoldable pub split_right_asserts : Interval → Mapping → Bool
unfolding can_split
split_right_asserts i [] = true
split_right_asserts i (e ∷ m) =
    let rest = split_right_asserts i m in
    if leb e.key.start i.end
    then (if ltb i.end e.key.end then can_split e i.end else rest)
    else true

-- The rest of it
unfoldable pub split_prev_asserts : Interval → Mapping → Bool
unfolding can_split
split_prev_asserts i [] = true
split_prev_asserts i (prev ∷ before) =
    let cut = minus i.start 1 in
    let upper = upper_part prev cut in
    if leb i.start prev.key.end
    then can_split prev cut
      && (if ltb i.end prev.key.end
          then can_split upper i.end && interval_eq (lower_part upper i.end).key i
          else true)
    else true

unfoldable pub split_asserts : Interval → Cursor → Bool
unfolding split_last_asserts split_right_asserts split_prev_asserts
split_asserts i (before, []) = split_last_asserts i before
split_asserts i (before, e ∷ ge) =
    leb i.start e.key.start && (split_right_asserts i (e ∷ ge) && split_prev_asserts i before)

-- _check
unfoldable pub check_from : Interval → Mapping → Bool
check_from last [] = true
check_from last (e ∷ m) =
    let rest = check_from e.key m in
    leb last.start last.end && (ltb last.end e.key.start && (leb e.key.start e.key.end && rest))

unfoldable pub check : Mapping → Bool
unfolding check_from
check [] = true
check (e ∷ m) = check_from e.key m

-- The loop of _add
unfoldable pub fill_asserts : Interval → Mapping → Bool
fill_asserts rest [] = true
fill_asserts rest (e ∷ m) =
    let later = fill_asserts (interval (plus e.key.end 1) rest.end) m in
    (if ltb rest.start e.key.start
      then leb rest.start (minus e.key.start 1)
      else rest.start == e.key.start)
    && (if e.key.end == rest.end || starts_behind rest.end m then true else later)

-- _add behind its call of splitExtBorders, on the parts that this leaves
unfoldable pub add_from_asserts : Interval → Bool → Mapping → Cursor → Bool
unfolding fill_asserts
add_from_asserts i changed parts (before, ge) =
    (not changed || not (is_empty ge))
    && (if starts_behind i.end ge then not (overlaps i parts) else fill_asserts i ge)

-- _add
unfoldable pub add_asserts : Bool → Interval → ℕ → Mapping → Bool
unfolding split_asserts check add_from_asserts
add_asserts update i v [] = leb i.start i.end
add_asserts update i v (e ∷ m) =
    let parts = split_ext_borders i (e ∷ m) in
    let ge = find_ge i [] parts.1 in
    leb i.start i.end
    && (split_asserts i (find_ge i [] (e ∷ m))
        && (check parts.1
            && (add_from_asserts i parts.0 parts.1 ge
                && check (add_or_update update i v (e ∷ m)).1)))
