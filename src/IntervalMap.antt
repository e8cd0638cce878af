-- ===== src/IntervalMap.antt =====
-- include/dg/ADT/DisjunctiveIntervalMap.h: a map from disjunctive intervals of offsets to sets of
-- values, kept by splitting intervals at the borders of the one that is added.
-- The std::map of the class is the list of its entries by ascending start. An iterator is the list
-- of the entries from it on; where the code steps back, the entries before it are kept reversed.
-- Emplacing with a hint puts the entry at the iterator, which is its place by the order of starts.
pub mod Order
pub mod Border
pub mod SplitRight
pub mod Split
pub mod Store
pub mod Add
pub mod Container
pub mod Query
pub mod Asserts
pub mod Unknown
pub mod Tests
use llvmdg.Common.{
  ℕ, ◌+◌, ◌-◌, ◌≤◌, ◌<◌, ◌≡◌, ◌≢◌, Bool, true, false, ◌&&◌, ◌||◌, List, [], ◌∷◌, ltb, leb, ◌==◌,
  if◌then◌else◌, length, min, max, any,
}
use llvmdg.Std.OrderedSet.{mem, insert, inserts}
use llvmdg.Offset.{Offset, unknown, plus, minus}

-- DiscreteInterval: both ends belong to it.
pub record Interval : Type 0 where
  pub start : Offset
  pub end : Offset

unfoldable pub interval_length : Interval → Offset
interval_length i = plus (minus i.end i.start) 1

-- overlaps, as it is written
unfoldable pub overlaps_with : Interval → Interval → Bool
overlaps_with i j = leb i.start j.start && leb j.start i.end || leb i.start j.end

unfoldable pub covers : Interval → Interval → Bool
covers i j = leb i.start j.start && leb j.end i.end

abbrev pub interval_eq : Interval → Interval → Bool
interval_eq i j = i.start == j.start && i.end == j.end

pub record Entry : Type 0 where
  pub key : Interval
  pub values : List ℕ

abbrev pub Mapping : Type 0
Mapping = List Entry

abbrev pub single : Interval → List ℕ → Entry
single i vs = record { key = i; values = vs }

abbrev pub interval : Offset → Offset → Interval
interval s e = record { start = s; end = e }

-- The entries before an iterator, the nearest first, and those from it on.
abbrev pub Cursor : Type 0
Cursor = Mapping × Mapping

abbrev pub rewind : Mapping → Mapping → Mapping
rewind [] ge = ge
rewind (e ∷ before) ge = rewind before (e ∷ ge)

-- _find_ge: the iterator at the first entry that starts at `i.start` or later
unfoldable pub find_ge : Interval → Mapping → Mapping → Cursor
find_ge i before [] = (before, [])
find_ge i before (e ∷ m) =
    let rest = find_ge i (e ∷ before) m in if ltb e.key.start i.start then rest else (before, e ∷ m)

-- splitIntervalHint: the two entries that replace an entry split behind `where`
abbrev pub lower_part : Entry → Offset → Entry
lower_part e cut = single (interval e.key.start cut) e.values

abbrev pub upper_part : Entry → Offset → Entry
upper_part e cut = single (interval (plus cut 1) e.key.end) e.values

-- What splitExtBorders leaves: whether it split an entry, and the mapping.
abbrev pub Result : Type 0
Result = Bool × Mapping

-- The end of splitExtBorders where no entry starts in the new interval or behind it.
unfoldable pub split_last : Interval → Mapping → Result
split_last i [] = (false, [])
split_last i (last ∷ before) =
    let outer = ltb i.end last.key.end in
    let low = if outer then lower_part last i.end else last in
    let high = if outer then upper_part last i.end ∷ [] else [] in
    if leb i.start low.key.end
    then (
      true,
      rewind before (lower_part low (minus i.start 1) ∷ upper_part low (minus i.start 1) ∷ high),
    )
    else (outer, rewind before (low ∷ high))

-- The loop of splitExtBorders: split the entry that sticks out at the right border.
unfoldable pub split_right : Interval → Mapping → Result
split_right i [] = (false, [])
split_right i (e ∷ m) =
    let rest = split_right i m in
    if leb e.key.start i.end
    then (if ltb i.end e.key.end
        then (true, lower_part e i.end ∷ upper_part e i.end ∷ m)
        else (rest.0, e ∷ rest.1))
    else (false, e ∷ m)

-- The rest of it: the entry before the iterator may reach into the interval, or over all of it.
unfoldable pub split_prev : Interval → Mapping → Result → Result
split_prev i [] (changed, ge) = (changed, ge)
split_prev i (prev ∷ before) (changed, ge) =
    if leb i.start prev.key.end
    then (let cut = minus i.start 1 in
        let upper = upper_part prev cut in
        if ltb i.end prev.key.end
        then (
          true,
          rewind before
              (lower_part prev cut ∷ lower_part upper i.end ∷ upper_part upper i.end ∷ ge),
        )
        else (true, rewind before (lower_part prev cut ∷ upper ∷ ge)))
    else (changed, rewind (prev ∷ before) ge)

unfoldable pub split_at : Interval → Cursor → Result
unfolding split_last split_right split_prev
split_at i (before, []) = split_last i before
split_at i (before, e ∷ ge) = split_prev i before (split_right i (e ∷ ge))

unfoldable pub split_ext_borders : Interval → Mapping → Result
unfolding find_ge split_at
split_ext_borders i m = split_at i (find_ge i [] m)

-- _addValue
unfoldable pub add_value : Bool → ℕ → List ℕ → Bool × List ℕ
add_value true v vs = if length vs == 1 && mem vs v then (false, vs) else (true, v ∷ [])
add_value false v vs = (inserts v vs, insert v vs)

-- The loop ends behind an entry where no entry, or one behind the new interval, follows.
abbrev pub starts_behind : Offset → Mapping → Bool
starts_behind hi [] = true
starts_behind hi (e ∷ m) = ltb hi e.key.start

-- The loop of _add over the entries from `it` on; `rest` is what is left of the new interval.
unfoldable pub fill : Bool → ℕ → Interval → Mapping → Result
unfolding add_value
fill update v rest [] = (false, [])
fill update v rest (e ∷ m) =
    let here = add_value update v e.values in
    let gap = ltb rest.start e.key.start in
    let tail = interval (plus e.key.end 1) rest.end in
    let later = fill update v tail m in
    let after : Result =
      if e.key.end == rest.end
      then (false, m)
      else (if starts_behind rest.end m then (true, single tail (v ∷ []) ∷ m) else later) in
    let entries = single e.key here.1 ∷ after.1 in
    (
      gap || (here.0 || after.0),
      if gap
          then single (interval rest.start (minus e.key.start 1)) (v ∷ []) ∷ entries
          else entries,
    )

-- _add behind its call of splitExtBorders
unfoldable pub add_from : Bool → ℕ → Interval → Bool → Cursor → Result
unfolding fill
add_from update v i changed (before, ge) =
    if starts_behind i.end ge
    then (true, rewind before (single i (v ∷ []) ∷ ge))
    else (let filled = fill update v i ge in (changed || filled.0, rewind before filled.1))

-- _add
unfoldable pub add_or_update : Bool → Interval → ℕ → Mapping → Result
unfolding split_ext_borders add_from
add_or_update update i v [] = (true, single i (v ∷ []) ∷ [])
add_or_update update i v (e ∷ m) =
    let parts = split_ext_borders i (e ∷ m) in add_from update v i parts.0 (find_ge i [] parts.1)

unfoldable pub add : Interval → ℕ → Mapping → Result
unfolding add_or_update
add = add_or_update false

unfoldable pub update : Interval → ℕ → Mapping → Result
unfolding add_or_update
update = add_or_update true

-- add and update with a container of values
unfoldable pub add_values : Bool → Interval → List ℕ → Mapping → Result
unfolding add_or_update
add_values update i [] m = (false, m)
add_values update i (v ∷ vs) m =
    let first = add_or_update update i v m in
    let rest = add_values update i vs first.1 in (first.0 || rest.0, rest.1)

-- addAll
unfoldable pub add_all : ℕ → Mapping → Result
add_all v [] = (false, [])
add_all v (e ∷ m) =
    let rest = add_all v m in
    (inserts v e.values || rest.0, single e.key (insert v e.values) ∷ rest.1)
