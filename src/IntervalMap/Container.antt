-- ===== src/IntervalMap/Container.antt =====
-- add, update and addAll with more than one value or interval.
use llvmdg.Common.{
  ℕ, suc, ◌≡◌, refl, Bool, true, false, ◌&&◌, ◌||◌, List, [], ◌∷◌, arith, ◌==◌, if◌then◌else◌,
}
use llvmdg.Offset.{Offset}
use llvmdg.Std.OrderedSet.{mem, mem-insert, insert-Ascending, insert_present}
use llvmdg.IntervalMap.{Interval, Mapping, Result, add_or_update, add_values, add_all}
use llvmdg.IntervalMap.Order.{IsProper, Ordered, within, has, covered}
use llvmdg.IntervalMap.Add.{add_or_update-IsAdded}

pub add_values-Ordered :
    (update : Bool) (i : Interval) (vs : List ℕ) (m : Mapping)
    → IsProper i
    → Ordered 0 m
    → Ordered 0 (add_values update i vs m).1
unfolding add_values
add_values-Ordered update i [] m p s = s
add_values-Ordered update i (v ∷ vs) m p s =
    add_values-Ordered update i vs (add_or_update update i v m).1 p
      (add_or_update-IsAdded update i v m p s).ordered

-- Adding a container stores each of its values at every offset of the interval, keeps all that was
-- stored, and stores nothing else.
pub add_values-has :
    (i : Interval) (vs : List ℕ) (m : Mapping) (x : Offset) (w : ℕ)
    → IsProper i
    → Ordered 0 m
    → has (add_values false i vs m).1 x w ≡ (has m x w || within i x && mem vs w)
unfolding add_values mem
add_values-has i [] m x w p s = ground arith
add_values-has i (v ∷ vs) m x w p s =
    let first = add_or_update-IsAdded false i v m p s in
    ground (
      arith,
      add_values-has i vs (add_or_update false i v m).1 x w p first.ordered,
      first.stored x w,
    )

abbrev pub last_of : ℕ → List ℕ → ℕ
last_of v [] = v
last_of v (u ∷ us) = last_of u us

-- Updating with a container that is not empty leaves only its last value on the interval: each
-- value is written over the one before.
pub update_values-has :
    (i : Interval) (v : ℕ) (vs : List ℕ) (m : Mapping) (x : Offset) (w : ℕ)
    → IsProper i
    → Ordered 0 m
    → has (add_values true i (v ∷ vs) m).1 x w
      ≡ (if within i x then last_of v vs == w else has m x w)
unfolding add_values
update_values-has i v [] m x w p s =
    ground (arith, (add_or_update-IsAdded true i v m p s).stored x w)
update_values-has i v (u ∷ us) m x w p s =
    let first = add_or_update-IsAdded true i v m p s in
    ground (
      arith,
      update_values-has i u us (add_or_update true i v m).1 x w p first.ordered,
      first.stored x w,
    )

-- What addAll makes of a mapping.
pub record IsAddedAll (v lo : ℕ) (m : Mapping) (r : Result) : Type 0 where
  pub ordered : Ordered lo r.1
  pub stored : (x w : ℕ) → has r.1 x w ≡ (has m x w || covered m x && v == w)
  pub same_keys : (x : ℕ) → covered r.1 x ≡ covered m x
  pub unchanged : r.0 ≡ false → r.1 ≡ m

-- addAll adds the value to every interval of the mapping and to no other offset, moves no border,
-- and reports no change only if it made none.
pub add_all-IsAddedAll : (v lo : ℕ) (m : Mapping) → Ordered lo m → IsAddedAll v lo m (add_all v m)
unfolding add_all
add_all-IsAddedAll v lo [] s = record {
  ordered = tt;
  stored = λ x w. refl;
  same_keys = λ x. refl;
  unchanged = λ q. refl;
}
add_all-IsAddedAll v lo (e ∷ m) s =
    let ih = add_all-IsAddedAll v (suc e.key.end) m s.2 in
    record {
      ordered = (
        s.0,
        record { proper = s.1.proper; set = insert-Ascending 0 v e.values (omega arith) s.1.set },
        ih.ordered,
      );
      stored = λ x w. ground (arith, ih.stored x w, mem-insert v e.values w);
      same_keys = λ x. ground (arith, ih.same_keys x);
      unchanged = λ q. ground (arith, ih.unchanged, insert_present 0 v e.values s.1.set);
    }
