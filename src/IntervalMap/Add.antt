-- ===== src/IntervalMap/Add.antt =====
-- add and update: where the new value is stored, and what is left as it was.
use llvmdg.Common.{
  ℕ, ◌≤◌, ◌≡◌, inl, inr, refl, ap, sym, ◌∙◌, subst, Bool, true, false, ◌||◌, [], ◌∷◌, arith, any,
  All, Bool-cases,
}
use llvmdg.Std.OrderedSet.{mem}
use llvmdg.IntervalMap.{
  Interval, Mapping, Cursor, Result, rewind, find_ge, split_ext_borders, starts_behind, fill,
  add_from, add_or_update,
}
use llvmdg.IntervalMap.Order.{
  IsProper, Ordered, entry_has, has, bound, Reversed, StartsBelow, Ordered-mono, Ordered-rewind,
  any-rewind, All-unrewind, IsCut, find_ge-IsCut, rewind-find_ge,
}
use llvmdg.IntervalMap.Border.{Aligned}
use llvmdg.IntervalMap.Split.{split_ext_borders-IsSplit}
use llvmdg.IntervalMap.Store.{after_add, IsStored, RightAligned, single-IsStored, fill-IsStored}

-- What adding `v` on `i` makes of a mapping.
pub record IsAdded (update : Bool) (i : Interval) (v : ℕ) (m : Mapping) (r : Result) : Type 0 where
  pub ordered : Ordered 0 r.1
  pub stored : (x w : ℕ) → has r.1 x w ≡ after_add update i v x w (has m x w)
  pub unchanged : r.0 ≡ false → r.1 ≡ m

pub All-right : (i : Interval) (m : Mapping) → All (Aligned i) m → All (RightAligned i) m
All-right i [] a = tt
All-right i (e ∷ m) a = (a.0.1, All-right i m a.1)

-- The entries before the lower bound end before the new interval, once they are aligned with it.
pub bound-le :
    (i : Interval) (before : Mapping)
    → Reversed before
    → StartsBelow i.start before
    → All (Aligned i) before
    → bound before ≤ i.start
bound-le i [] r b a = omega arith
bound-le i (e ∷ before) r b a = ground (arith, a.0.0)

has_before :
    (before : Mapping) (x w : ℕ)
    → Reversed before
    → bound before ≤ x
    → any (entry_has x w) before ≡ false
has_before [] x w r b = refl
has_before (e ∷ before) x w r b = ground (arith, has_before before x w r.2, r.0, r.1.proper.ordered)

add_from-IsAdded :
    (update : Bool) (i : Interval) (v : ℕ) (changed : Bool) (c : Cursor)
    → IsProper i
    → IsCut i c
    → All (Aligned i) (rewind c.0 c.1)
    → IsAdded update i v (rewind c.0 c.1) (add_from update v i changed c)
unfolding add_from
add_from-IsAdded update i v changed (before, ge) p c a =
    let (left, right) = All-unrewind (Aligned i) before ge a in
    let low = bound-le i before c.before c.below left in
    elim (Bool-cases (starts_behind i.end ge)) [
      | inl b ↦
          rw (b, add_from)
            (place low true _ (single-IsStored update v i i.start ge p b c.above) (λ q. cc))
      | inr b ↦
          let filled = fill-IsStored update v i ge p c.above (All-right i ge right) b in
          rw (b, add_from)
            (place low (changed || (fill update v i ge).0) _ filled
              (λ q. filled.unchanged (ground arith)))
    ]
  where
    place :
        bound before ≤ i.start
        → (flag : Bool) (r : Result) → IsStored update v i ge r
        → (flag ≡ false → r.1 ≡ ge)
        → IsAdded update i v (rewind before ge) (flag, rewind before r.1)
    place low flag r s same = record {
      ordered = Ordered-rewind before r.1 c.before (Ordered-mono _ i.start r.1 low s.ordered);
      stored = λ x w. ground (
        arith,
        any-rewind (entry_has x w) before r.1,
        any-rewind (entry_has x w) before ge,
        s.stored x w,
        has_before before x w c.before,
      );
      unchanged = λ q. ap (rewind before) (same q);
    }

unchanged-add_from :
    (update : Bool) (v : ℕ) (i : Interval) (changed : Bool) (c : Cursor)
    → (add_from update v i changed c).0 ≡ false
    → changed ≡ false
unfolding add_from
unchanged-add_from update v i changed (before, ge) h = ground arith

-- On a proper interval and a mapping in order, add_or_update keeps the intervals ordered and disjoint.
-- It stores `v` at every offset of the new
-- interval, beside the values that are there or, for an update, in their place, and keeps what is
-- stored at every other offset. It reports no change only if the mapping is what it was.
pub add_or_update-IsAdded :
    (update : Bool) (i : Interval) (v : ℕ) (m : Mapping)
    → IsProper i
    → Ordered 0 m
    → IsAdded update i v m (add_or_update update i v m)
unfolding add_or_update mem
add_or_update-IsAdded update i v [] p s = record {
  ordered = (omega arith, record { proper = p; set = (omega arith, tt) }, tt);
  stored = λ x w. ground arith;
  unchanged = λ q. cc;
}
add_or_update-IsAdded update i v (e ∷ m) p s =
    let split = split_ext_borders-IsSplit i (e ∷ m) p s in
    let parts = split_ext_borders i (e ∷ m) in
    let same = rewind-find_ge i [] parts.1 in
    let added =
      add_from-IsAdded update i v parts.0 (find_ge i [] parts.1) p
        (find_ge-IsCut i [] parts.1 tt tt split.ordered)
        (subst (All (Aligned i)) (sym same) split.aligned) in
    record {
      ordered = added.ordered;
      stored = λ x w. ground (arith, added.stored x w, ap (λ t. has t x w) same, split.same x w);
      unchanged = λ q.
          added.unchanged q
          ∙ (same
              ∙ split.unchanged (unchanged-add_from update v i parts.0 (find_ge i [] parts.1) q));
    }
