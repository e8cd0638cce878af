-- ===== src/IntervalMap/Tests.antt =====
-- The map at concrete inputs: two intervals, and operations on each side of their borders.
use llvmdg.Common.{
  ℕ, ◌≡◌, ◌↔◌, refl, true, false, not, ◌&&◌, ◌||◌, List, [], ◌∷◌, arith, ◌==◌, some, none,
  if◌then◌else◌,
}
use llvmdg.Offset.{Offset, unknown, plus, minus}
use llvmdg.Std.OrderedSet.{mem, insert, insert_all}
use llvmdg.IntervalMap.{
  interval, single, Mapping, find_ge, split_ext_borders, add_or_update, add, update, add_values,
  add_all,
}
use llvmdg.IntervalMap.Order.{IsProper, Ordered, within, has, covered}
use llvmdg.IntervalMap.SplitRight.{IsSplit}
use llvmdg.IntervalMap.Split.{split_ext_borders-IsSplit}
use llvmdg.IntervalMap.Add.{IsAdded, add_or_update-IsAdded}
use llvmdg.IntervalMap.Container.{add_values-has, update_values-has, IsAddedAll, add_all-IsAddedAll}
use llvmdg.IntervalMap.Asserts.{add_asserts}
use llvmdg.IntervalMap.Asserts.Hold.{add_asserts-hold}
use llvmdg.IntervalMap.Query.{le, overlaps, overlaps_full, gather, uncovered}
use llvmdg.IntervalMap.Query.First.{IsFirst, le-IsFirst}
use llvmdg.IntervalMap.Query.Gather.{StoredOn, gather-mem, gather_undefined}
use llvmdg.IntervalMap.Query.Overlap.{overlaps_misses, overlaps_full_sound, overlaps_full_misses}
use llvmdg.IntervalMap.Query.Uncovered.{in_some, uncovered_exact, uncovered_overshoots}

-- [0, 10] holds 1, and [20, 30] holds 2.
abbrev two : Mapping
two = single (interval 0 10) (1 ∷ []) ∷ single (interval 20 30) (2 ∷ []) ∷ []

two-Ordered : Ordered 0 two
two-Ordered = omega arith

IsProper-wide : IsProper (interval 5 25)
IsProper-wide = omega arith

add_across : add (interval 5 25) 3 two ≡ (
  true,
  single (interval 0 4) (1 ∷ [])
      ∷ single (interval 5 10) (1 ∷ 3 ∷ [])
      ∷ single (interval 11 19) (3 ∷ [])
      ∷ single (interval 20 25) (2 ∷ 3 ∷ [])
      ∷ single (interval 26 30) (2 ∷ [])
      ∷ [],
)
unfolding add plus minus mem insert insert_all
add_across = refl

update_inside : update (interval 3 4) 3 two ≡ (
  true,
  single (interval 0 2) (1 ∷ [])
      ∷ single (interval 3 4) (3 ∷ [])
      ∷ single (interval 5 10) (1 ∷ [])
      ∷ single (interval 20 30) (2 ∷ [])
      ∷ [],
)
unfolding update plus minus mem insert insert_all
update_inside = refl

add_again : add (interval 20 30) 2 two ≡ (false, two)
unfolding add plus minus mem insert insert_all
add_again = refl

-- The arithmetic on offsets breaks the map at the unknown offset: the two parts overlap.
add_at_unknown :
    (add (interval unknown unknown) 2 (single (interval 7 unknown) (1 ∷ []) ∷ [])).1
    ≡ single (interval 7 unknown) (1 ∷ []) ∷ single (interval unknown unknown) (1 ∷ 2 ∷ []) ∷ []
unfolding add plus minus mem insert insert_all
add_at_unknown = refl

overlaps_inside : overlaps (interval 5 6) two ≡ false
unfolding overlaps plus minus mem insert insert_all
overlaps_inside = refl

gather_across : gather (interval 5 25) two ≡ some (1 ∷ 2 ∷ [])
unfolding gather plus minus mem insert insert_all
gather_across = refl

uncovered_across : uncovered (interval 5 40) two ≡ interval 11 19 ∷ interval 31 40 ∷ []
unfolding uncovered plus minus mem insert insert_all
uncovered_across = refl

uncovered_beyond : uncovered (interval 5 12) two ≡ interval 11 19 ∷ []
unfolding uncovered plus minus mem insert insert_all
uncovered_beyond = refl

split_ext_borders-IsSplit_example :
    IsSplit (interval 5 25) two (split_ext_borders (interval 5 25) two)
split_ext_borders-IsSplit_example =
    split_ext_borders-IsSplit (interval 5 25) two IsProper-wide two-Ordered

add_or_update-IsAdded_example :
    IsAdded true (interval 5 25) 3 two (add_or_update true (interval 5 25) 3 two)
add_or_update-IsAdded_example =
    add_or_update-IsAdded true (interval 5 25) 3 two IsProper-wide two-Ordered

add_values-has_example :
    has (add_values false (interval 5 25) (3 ∷ 4 ∷ []) two).1 8 4
    ≡ (has two 8 4 || within (interval 5 25) 8 && mem (3 ∷ 4 ∷ []) 4)
add_values-has_example =
    add_values-has (interval 5 25) (3 ∷ 4 ∷ []) two 8 4 IsProper-wide two-Ordered

update_values-has_example :
    has (add_values true (interval 5 25) (3 ∷ 4 ∷ []) two).1 8 3
    ≡ (if within (interval 5 25) 8 then 4 == 3 else has two 8 3)
update_values-has_example =
    update_values-has (interval 5 25) 3 (4 ∷ []) two 8 3 IsProper-wide two-Ordered

add_all-IsAddedAll_example : IsAddedAll 3 0 two (add_all 3 two)
add_all-IsAddedAll_example = add_all-IsAddedAll 3 0 two two-Ordered

le-IsFirst_example :
    (it : Mapping) × (le (interval 5 25) two ≡ some it) × IsFirst (interval 5 25) two it
le-IsFirst_example = le-IsFirst (interval 5 25) two (omega arith) two-Ordered (λ q. cc)

gather-mem_example :
    (vs : List ℕ) × (gather (interval 5 25) two ≡ some vs)
    × ((w : ℕ) → (mem vs w ≡ true) ↔ StoredOn (interval 5 25) two w)
gather-mem_example = gather-mem (interval 5 25) two (omega arith) two-Ordered (λ q. cc)

gather_undefined_example : (gather (interval 5 25) two ≡ none) ↔ (two ≡ [])
gather_undefined_example = gather_undefined (interval 5 25) two (omega arith) two-Ordered

overlaps_misses_example : (overlaps (interval 5 6) two ≡ false) × (covered two 5 ≡ true)
unfolding find_ge
overlaps_misses_example =
    overlaps_misses (interval 5 6) two (single (interval 0 10) (1 ∷ []))
      (single (interval 20 30) (2 ∷ [])) [] [] (omega arith) two-Ordered refl (omega arith)
      (omega arith)

overlaps_full_sound_example : covered two 25 ≡ true
unfolding overlaps_full plus minus mem insert insert_all
overlaps_full_sound_example =
    overlaps_full_sound (interval 20 30) two 25 (omega arith) two-Ordered refl refl

overlaps_full_misses_example :
    (overlaps_full (interval 5 6) two ≡ false)
    × ((x : Offset) → within (interval 5 6) x ≡ true → covered two x ≡ true)
unfolding find_ge
overlaps_full_misses_example =
    overlaps_full_misses (interval 5 6) two (single (interval 0 10) (1 ∷ []))
      (single (interval 20 30) (2 ∷ [])) [] [] (omega arith) two-Ordered refl (omega arith)
      (omega arith) (omega arith)

uncovered_exact_example : in_some (uncovered (interval 5 25) two) 15 ≡ not (covered two 15)
uncovered_exact_example = uncovered_exact (interval 5 25) two 15 IsProper-wide two-Ordered refl

uncovered_overshoots_example : in_some (uncovered (interval 5 12) two) 13 ≡ true
unfolding le plus minus mem insert insert_all
uncovered_overshoots_example =
    uncovered_overshoots (interval 5 12) two (single (interval 0 10) (1 ∷ []))
      (single (interval 20 30) (2 ∷ [])) [] (omega arith) two-Ordered refl (omega arith)
      (omega arith)

add_asserts-hold_example : add_asserts false (interval 5 25) 3 two ≡ true
add_asserts-hold_example = add_asserts-hold false (interval 5 25) 3 two IsProper-wide two-Ordered
