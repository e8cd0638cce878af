-- ===== src/IntervalMap/Store.antt =====
-- _addValue and the loop of _add, which fills the gaps and the entries that are there.
use llvmdg.Common.{
  ℕ, suc, ◌-◌, ◌≤◌, ◌<◌, ◌≡◌, ◌⊎◌, inl, inr, refl, Bool, true, false, not, ◌&&◌, ◌||◌, List, [],
  ◌∷◌, arith, ltb, ◌==◌, All, Bool-cases, if◌then◌else◌,
}
use llvmdg.Std.OrderedSet.{mem, Ascending, mem-insert, insert-Ascending, insert_present}
use llvmdg.Offset.{Offset, plus, minus}
use llvmdg.Offset.Laws.{plus-one, minus-one}
use llvmdg.IntervalMap.{
  Interval, interval, Entry, single, Mapping, Result, add_value, starts_behind, fill,
}
use llvmdg.IntervalMap.Order.{IsProper, IsEntry, Ordered, within, has}

-- Whether `w` is stored at `x` once `v` was added on `i`, where `old` says whether it was before.
abbrev pub after_add : Bool → Interval → ℕ → Offset → ℕ → Bool → Bool
after_add update i v x w old = if within i x then (v == w || (not update && old)) else old

-- What _addValue makes of a set.
pub record IsValueAdded (update : Bool) (v : ℕ) (vs : List ℕ) (r : Bool × List ℕ) : Type 0 where
  set : Ascending 0 r.1
  members : (w : ℕ) → mem r.1 w ≡ (v == w || (not update && mem vs w))
  unchanged : r.0 ≡ false → r.1 ≡ vs

add_value-IsValueAdded :
    (update : Bool) (v : ℕ) (vs : List ℕ)
    → Ascending 0 vs
    → IsValueAdded update v vs (add_value update v vs)
unfolding add_value mem
add_value-IsValueAdded false v vs s = record {
  set = insert-Ascending 0 v vs (omega arith) s;
  members = λ w. mem-insert v vs w;
  unchanged = λ q. insert_present 0 v vs s (ground arith);
}
add_value-IsValueAdded true v [] s = record {
  set = (omega arith, tt);
  members = λ w. ground arith;
  unchanged = λ q. cc;
}
add_value-IsValueAdded true v (a ∷ []) s = record {
  set = ground arith;
  members = λ w. ground arith;
  unchanged = λ q. ground arith;
}
add_value-IsValueAdded true v (a ∷ b ∷ vs) s = record {
  set = ground arith;
  members = λ w. ground arith;
  unchanged = λ q. ground arith;
}

pub has_below : (lo : ℕ) (m : Mapping) (x w : ℕ) → Ordered lo m → x < lo → has m x w ≡ false
has_below lo [] x w s h = refl
has_below lo (e ∷ m) x w s h = ground (arith, has_below (suc e.key.end) m x w s.2, s.1.ordered)

-- What storing `v` on `rest` makes of the entries from the start of `rest` on.
pub record IsStored (update : Bool) (v : ℕ) (rest : Interval) (m : Mapping) (r : Result)
    : Type 0 where
  pub ordered : Ordered rest.start r.1
  pub stored : (x w : ℕ) → has r.1 x w ≡ after_add update rest v x w (has m x w)
  pub unchanged : r.0 ≡ false → r.1 ≡ m

-- No entry crosses the right border.
abbrev pub RightAligned : Interval → Entry → Type 0
RightAligned i e = (i.end < e.key.start) ⊎ (e.key.end ≤ i.end)

Ordered-behind :
    (lo hi : ℕ) (m : Mapping) → starts_behind hi m ≡ true → Ordered lo m → Ordered (suc hi) m
Ordered-behind lo hi [] b s = tt
Ordered-behind lo hi (e ∷ m) b s = (ground arith, s.1, s.2)

-- The new interval in front of entries that start behind it.
pub single-IsStored :
    (update : Bool) (v : ℕ) (i : Interval) (lo : ℕ) (m : Mapping)
    → IsProper i
    → starts_behind i.end m ≡ true
    → Ordered lo m
    → IsStored update v i m (true, single i (v ∷ []) ∷ m)
unfolding mem
single-IsStored update v i lo m p b s =
    let behind = Ordered-behind lo i.end m b s in
    record {
      ordered = (omega arith, record { proper = p; set = (omega arith, tt) }, behind);
      stored = λ x w. ground (arith, has_below (suc i.end) m x w behind);
      unchanged = λ q. cc;
    }

-- Put an entry with its new values, and the gap before it, in front of what is stored behind it.
module _ (update : Bool) (v : ℕ) (rest : Interval) (e : Entry) (m : Mapping) (here : Bool × List ℕ)
    (after : Result) (p : IsProper rest) (q : IsEntry e) (low : rest.start ≤ e.key.start)
    (inside : e.key.end ≤ rest.end) (s : Ordered (suc e.key.end) m)
    (value : IsValueAdded update v e.values here)
    (behind : IsStored update v (interval (suc e.key.end) rest.end) m after) where
  abbrev kept : Mapping
  kept = single e.key here.1 ∷ after.1

  abbrev gap : Entry
  gap = single (interval rest.start (minus e.key.start 1)) (v ∷ [])

  kept-Ordered : Ordered e.key.start kept
  kept-Ordered = (omega arith, record { proper = q.proper; set = value.set }, behind.ordered)

  kept_unchanged : (here.0 || after.0) ≡ false → kept ≡ e ∷ m
  kept_unchanged h = ground (arith, value.unchanged, behind.unchanged)

  kept-IsStored :
      e.key.start ≤ rest.start → IsStored update v rest (e ∷ m) ((here.0 || after.0), kept)
  kept-IsStored h = record {
    ordered = (low, record { proper = q.proper; set = value.set }, behind.ordered);
    stored = λ x w.
        ground (arith, value.members w, behind.stored x w, has_below (suc e.key.end) m x w s);
    unchanged = kept_unchanged;
  }

  gap-IsStored : rest.start < e.key.start → IsStored update v rest (e ∷ m) (true, gap ∷ kept)
  unfolding mem
  gap-IsStored h =
      let cut : minus e.key.start 1 ≡ e.key.start - 1 =
        minus-one e.key.start (omega arith) (omega (arith, q.proper.known)) in
      record {
        ordered = (
          omega arith,
          record { proper = ground (arith, cut, p.known, q.proper.known); set = (omega arith, tt) },
          (omega (arith, cut), record { proper = q.proper; set = value.set }, behind.ordered),
        );
        stored = λ x w.
            ground
              (arith, cut, value.members w, behind.stored x w, has_below (suc e.key.end) m x w s);
        unchanged = λ q. cc;
      }

-- Nothing is left behind an entry that ends where the new interval ends.
done-IsStored :
    (update : Bool) (v lo hi : ℕ) (m : Mapping)
    → hi < lo
    → Ordered lo m
    → IsStored update v (interval lo hi) m (false, m)
done-IsStored update v lo hi m h s = record {
  ordered = s;
  stored = λ x w. ground arith;
  unchanged = λ q. refl;
}

-- What follows an entry in the loop: the end, the rest of the interval, or the next round.
after-IsStored :
    (update : Bool) (v : ℕ) (rest : Interval) (e : Entry) (m : Mapping)
    → IsProper rest
    → IsEntry e
    → e.key.end ≤ rest.end
    → Ordered (suc e.key.end) m
    → (IsProper (interval (suc e.key.end) rest.end)
        → starts_behind rest.end m ≡ false
        → IsStored update v
            (interval (suc e.key.end) rest.end)
            m
            (fill update v (interval (suc e.key.end) rest.end) m))
    → IsStored update v (interval (suc e.key.end) rest.end) m (
        if e.key.end == rest.end
        then (false, m)
        else (if starts_behind rest.end m
            then (true, single (interval (plus e.key.end 1) rest.end) (v ∷ []) ∷ m)
            else fill update v (interval (plus e.key.end 1) rest.end) m))
after-IsStored update v rest e m p q inside s loop = elim (Bool-cases (e.key.end == rest.end)) [
  | inl last ↦ rw last (done-IsStored update v (suc e.key.end) rest.end m (ground arith) s)
  | inr more ↦
      let h : e.key.end < rest.end = ground arith in
      let next : plus e.key.end 1 ≡ suc e.key.end =
        omega (arith, plus-one e.key.end (omega (arith, p.bounded))) in
      let tail : IsProper (interval (suc e.key.end) rest.end) =
        ground (arith, p.bounded, p.not_last, q.proper.not_last) in
      elim (Bool-cases (starts_behind rest.end m)) [
        | inl b ↦
            rw (more, b, next)
              (single-IsStored update v (interval (suc e.key.end) rest.end) (suc e.key.end) m tail b
                s)
        | inr b ↦ rw (more, b, next) (loop tail b)
      ]
]

pub fill-IsStored :
    (update : Bool) (v : ℕ) (rest : Interval) (m : Mapping)
    → IsProper rest
    → Ordered rest.start m
    → All (RightAligned rest) m
    → starts_behind rest.end m ≡ false
    → IsStored update v rest m (fill update v rest m)
unfolding fill
fill-IsStored update v rest [] p s a b = cc
fill-IsStored update v rest (e ∷ m) p s a b =
    let value = add_value-IsValueAdded update v e.values s.1.set in
    let inside : e.key.end ≤ rest.end = ground arith in
    let after =
      after-IsStored update v rest e m p s.1 inside s.2
        (λ t b'. fill-IsStored update v (interval (suc e.key.end) rest.end) m t s.2 a.1 b') in
    elim (Bool-cases (ltb rest.start e.key.start)) [
      | inl gap ↦
          rw (gap, fill)
            (gap-IsStored update v rest e m _ _ p s.1 s.0 inside s.2 value after (ground arith))
      | inr flush ↦
          rw (flush, fill)
            (kept-IsStored update v rest e m _ _ p s.1 s.0 inside s.2 value after (ground arith))
    ]
