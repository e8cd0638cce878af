-- ===== src/IntervalMap/Asserts/Changed.antt =====
-- include/dg/ADT/DisjunctiveIntervalMap.h: where splitExtBorders splits, some interval starts at the new
-- one or behind it.
use llvmdg.Common.{
  ◌-◌, ◌≤◌, ◌<◌, ◌≡◌, inl, inr, refl, Bool, true, false, [], ◌∷◌, arith, ltb, leb, any, Bool-cases,
  is_empty,
}
use llvmdg.Offset.{plus, minus}
use llvmdg.Offset.Laws.{plus-one, minus-one}
use llvmdg.IntervalMap.{
  Interval, Entry, Mapping, Cursor, Result, rewind, find_ge, split_last, split_right, split_prev,
  split_at,
}
use llvmdg.IntervalMap.Order.{IsProper, IsCut}

-- The entry starts at the new interval or behind it.
abbrev pub starts_from : Interval → Entry → Bool
starts_from i e = leb i.start e.key.start

pub find_ge-any :
    (i : Interval) (before m : Mapping)
    → any (starts_from i) m ≡ true
    → is_empty (find_ge i before m).1 ≡ false
unfolding find_ge
find_ge-any i before [] h = cc
find_ge-any i before (e ∷ m) h = elim (Bool-cases (ltb e.key.start i.start)) [
  | inl left ↦ rw (left, find_ge) (find_ge-any i (e ∷ before) m (ground arith))
  | inr right ↦ rw (right, find_ge) refl
]

any-behind :
    (i : Interval) (before ge : Mapping)
    → any (starts_from i) ge ≡ true
    → any (starts_from i) (rewind before ge) ≡ true
any-behind i [] ge h = h
any-behind i (e ∷ before) ge h = any-behind i before (e ∷ ge) (ground (arith, h))

split_last-any :
    (i : Interval) (last : Entry) (before : Mapping)
    → IsProper i
    → last.key.start < i.start
    → (split_last i (last ∷ before)).0 ≡ true
    → any (starts_from i) (split_last i (last ∷ before)).1 ≡ true
unfolding split_last
split_last-any i last before p b h =
    let cut : minus i.start 1 ≡ i.start - 1 = minus-one i.start (omega (arith, b)) p.known in
    let next : plus (minus i.start 1) 1 ≡ i.start =
      omega (arith, cut, b, p.known, plus-one (minus i.start 1)) in
    elim (Bool-cases (ltb i.end last.key.end)) [
      | inl outer ↦
          let starts : leb i.start i.end ≡ true = ground (arith, p.ordered) in
          rw (outer, starts, split_last) (any-behind i before _ (ground (arith, next)))
      | inr inner ↦ elim (Bool-cases (leb i.start last.key.end)) [
        | inl reaches ↦
            rw (inner, reaches, split_last) (any-behind i before _ (ground (arith, next)))
        | inr apart ↦ absurd (ground (arith, inner, apart, h))
      ]
    ]

split_right-any :
    (i : Interval) (e : Entry) (m : Mapping)
    → i.start ≤ e.key.start
    → any (starts_from i) (split_right i (e ∷ m)).1 ≡ true
unfolding split_right
split_right-any i e m h = ground arith

split_prev-any :
    (i : Interval) (before : Mapping) (r : Result)
    → any (starts_from i) r.1 ≡ true
    → any (starts_from i) (split_prev i before r).1 ≡ true
unfolding split_prev
split_prev-any i [] (changed, ge) h = h
split_prev-any i (prev ∷ before) (changed, ge) h = elim (Bool-cases (leb i.start prev.key.end)) [
  | inr apart ↦ rw (apart, split_prev) (any-behind i (prev ∷ before) ge h)
  | inl reaches ↦ elim (Bool-cases (ltb i.end prev.key.end)) [
    | inl over ↦ rw (reaches, over, split_prev) (any-behind i before _ (ground (arith, h)))
    | inr inside ↦ rw (reaches, inside, split_prev) (any-behind i before _ (ground (arith, h)))
  ]
]

pub split_at-any :
    (i : Interval) (c : Cursor)
    → IsProper i
    → IsCut i c
    → (split_at i c).0 ≡ true
    → any (starts_from i) (split_at i c).1 ≡ true
unfolding split_at split_last
split_at-any i ([], []) p c h = cc h
split_at-any i (last ∷ before, []) p c h = split_last-any i last before p c.below h
split_at-any i (before, e ∷ ge) p c h =
    split_prev-any i before (split_right i (e ∷ ge)) (split_right-any i e ge c.above.0)
