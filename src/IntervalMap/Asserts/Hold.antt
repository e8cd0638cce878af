-- ===== src/IntervalMap/Asserts/Hold.antt =====
-- include/dg/ADT/DisjunctiveIntervalMap.h: no assertion of _add fails on a proper interval.
use llvmdg.Common.{
  ℕ, suc, ◌-◌, ◌≤◌, ◌<◌, ◌≡◌, inl, inr, refl, sym, subst, Bool, true, false, ◌||◌, ◌==◌, [], ◌∷◌,
  arith, any, All, Bool-cases, is_empty,
}
use llvmdg.Offset.{plus, minus, unknown}
use llvmdg.Offset.Laws.{plus-one, minus-one}
use llvmdg.IntervalMap.{
  Interval, interval, Entry, Mapping, Cursor, rewind, find_ge, split_ext_borders, starts_behind,
}
use llvmdg.IntervalMap.Order.{
  IsProper, Ordered, bound, Reversed, StartsBelow, All-unrewind, IsCut, find_ge-IsCut,
  rewind-find_ge,
}
use llvmdg.IntervalMap.Border.{Aligned}
use llvmdg.IntervalMap.Split.{split_ext_borders-IsSplit}
use llvmdg.IntervalMap.Store.{RightAligned}
use llvmdg.IntervalMap.Add.{All-right, bound-le, add_or_update-IsAdded}
use llvmdg.IntervalMap.Query.{overlaps, overlaps_at}
use llvmdg.IntervalMap.Asserts.Changed.{starts_from, find_ge-any, split_at-any}
use llvmdg.IntervalMap.Asserts.{
  can_split, split_last_asserts, split_right_asserts, split_prev_asserts, split_asserts, check_from,
  check, fill_asserts, add_from_asserts, add_asserts,
}

split_last_hold :
    (i : Interval) (last : Entry) (before : Mapping)
    → IsProper i
    → Reversed (last ∷ before)
    → StartsBelow i.start (last ∷ before)
    → split_last_asserts i (last ∷ before) ≡ true
unfolding split_last_asserts can_split
split_last_hold i last before p r b =
    let cut : minus i.start 1 ≡ i.start - 1 = minus-one i.start (omega (arith, b)) p.known in
    ground (arith, cut, p.ordered, r.1.ordered)

split_right_hold :
    (i : Interval) (lo : ℕ) (m : Mapping) → Ordered lo m → split_right_asserts i m ≡ true
unfolding split_right_asserts can_split
split_right_hold i lo [] s = refl
split_right_hold i lo (e ∷ m) s =
    ground (arith, split_right_hold i (suc e.key.end) m s.2, s.1.ordered)

split_prev_hold :
    (i : Interval) (before : Mapping)
    → IsProper i
    → Reversed before
    → StartsBelow i.start before
    → split_prev_asserts i before ≡ true
unfolding split_prev_asserts can_split
split_prev_hold i [] p r b = refl
split_prev_hold i (prev ∷ before) p r b =
    let cut : minus i.start 1 ≡ i.start - 1 = minus-one i.start (omega (arith, b)) p.known in
    let next : plus (minus i.start 1) 1 ≡ i.start =
      omega (arith, cut, b, p.known, plus-one (minus i.start 1)) in
    ground (arith, cut, next, p.ordered, r.1.ordered)

split_hold :
    (i : Interval) (e : Entry) (m : Mapping) (c : Cursor)
    → IsProper i
    → IsCut i c
    → rewind c.0 c.1 ≡ e ∷ m
    → split_asserts i c ≡ true
unfolding split_asserts
split_hold i e m ([], []) p c h = cc
split_hold i e m (last ∷ before, []) p c h = split_last_hold i last before p c.before c.below
split_hold i e m (before, f ∷ ge) p c h = ground (
  arith,
  split_right_hold i _ (f ∷ ge) c.above,
  split_prev_hold i before p c.before c.below,
  c.above.0,
)

check_from_hold :
    (last : Interval) (m : Mapping)
    → last.start ≤ last.end
    → Ordered (suc last.end) m
    → check_from last m ≡ true
unfolding check_from
check_from_hold last [] h s = refl
check_from_hold last (e ∷ m) h s =
    ground (arith, check_from_hold e.key m s.1.ordered s.2, s.1.ordered)

check_hold : (m : Mapping) → Ordered 0 m → check m ≡ true
unfolding check
check_hold [] s = refl
check_hold (e ∷ m) s = check_from_hold e.key m s.1.ordered s.2

fill_hold :
    (rest : Interval) (m : Mapping)
    → rest.end ≤ unknown
    → Ordered rest.start m
    → All (RightAligned rest) m
    → starts_behind rest.end m ≡ false
    → fill_asserts rest m ≡ true
unfolding fill_asserts
fill_hold rest [] p s a b = refl
fill_hold rest (e ∷ m) p s a b =
    let cut : rest.start < e.key.start → minus e.key.start 1 ≡ e.key.start - 1 =
      λ h. minus-one e.key.start (omega (arith, h)) s.1.known in
    elim (Bool-cases (e.key.end == rest.end || starts_behind rest.end m)) [
      | inl done ↦ ground (arith, cut, s.0)
      | inr more ↦
          let next : plus e.key.end 1 ≡ suc e.key.end =
            omega (arith, plus-one e.key.end (ground arith)) in
          let later =
            fill_hold (interval (suc e.key.end) rest.end) m p s.2 a.1 (ground (arith, more)) in
          rw next (ground (arith, cut, s.0, later))
    ]

-- Where the parts do not reach the new interval, overlaps says no.
overlaps_at-apart :
    (i : Interval) (c : Cursor)
    → bound c.0 ≤ i.start
    → starts_behind i.end c.1 ≡ true
    → overlaps_at i c ≡ false
unfolding overlaps_at
overlaps_at-apart i ([], []) h b = refl
overlaps_at-apart i (last ∷ before, []) h b = ground arith
overlaps_at-apart i (before, e ∷ ge) h b = ground arith

add_from_hold :
    (i : Interval) (changed : Bool) (parts : Mapping)
    → IsProper i
    → Ordered 0 parts
    → All (Aligned i) parts
    → (changed ≡ true → any (starts_from i) parts ≡ true)
    → add_from_asserts i changed parts (find_ge i [] parts) ≡ true
unfolding add_from_asserts overlaps
add_from_hold i changed parts p s a f =
    let c = find_ge-IsCut i [] parts tt tt s in
    let (left, right) =
      All-unrewind (Aligned i) (find_ge i [] parts).0 (find_ge i [] parts).1
        (subst (All (Aligned i)) (sym (rewind-find_ge i [] parts)) a) in
    let low = bound-le i (find_ge i [] parts).0 c.before c.below left in
    let there : changed ≡ true → is_empty (find_ge i [] parts).1 ≡ false =
      λ h. find_ge-any i [] parts (f h) in
    elim (Bool-cases (starts_behind i.end (find_ge i [] parts).1)) [
      | inl b ↦ ground (arith, there, overlaps_at-apart i (find_ge i [] parts) low b)
      | inr b ↦ ground (
        arith,
        there,
        fill_hold i (find_ge i [] parts).1 p.bounded c.above
            (All-right i (find_ge i [] parts).1 right) b,
      )
    ]

-- On a proper interval and a mapping in order, no assertion of add or update fails.
pub add_asserts-hold :
    (update : Bool) (i : Interval) (v : ℕ) (m : Mapping)
    → IsProper i
    → Ordered 0 m
    → add_asserts update i v m ≡ true
unfolding add_asserts split_ext_borders
add_asserts-hold update i v [] p s = ground (arith, p.ordered)
add_asserts-hold update i v (e ∷ m) p s =
    let cut = find_ge-IsCut i [] (e ∷ m) tt tt s in
    let split = split_ext_borders-IsSplit i (e ∷ m) p s in
    let parts = split_ext_borders i (e ∷ m) in
    ground (
      arith,
      p.ordered,
      split_hold i e m (find_ge i [] (e ∷ m)) p cut (rewind-find_ge i [] (e ∷ m)),
      check_hold parts.1 split.ordered,
      add_from_hold i parts.0 parts.1 p split.ordered split.aligned
          (split_at-any i (find_ge i [] (e ∷ m)) p cut),
      check_hold _ (add_or_update-IsAdded update i v (e ∷ m) p s).ordered,
    )
