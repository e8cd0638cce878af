-- ===== src/IntervalMap/Query/Gather.antt =====
-- gather: exactly the values that are stored somewhere on the interval.
use llvmdg.Common.{
  ℕ, suc, ◌≤◌, ◌≡◌, ◌≢◌, ◌⊎◌, ◌↔◌, ⊎_elim, inl, inr, refl, sym, ◌∙◌, true, List, [], ◌∷◌, arith,
  leb, none, some, Bool-cases, max,
}
use llvmdg.Offset.{Offset}
use llvmdg.Std.OrderedSet.{mem, insert_all, mem-insert_all}
use llvmdg.IntervalMap.{Interval, Entry, Mapping, find_ge, overlaps_with}
use llvmdg.IntervalMap.Order.{IsEntry, Ordered, within, entry_has, has}
use llvmdg.IntervalMap.Store.{has_below}
use llvmdg.IntervalMap.Query.{collect, shift_le, le, gather}
use llvmdg.IntervalMap.Query.First.{Meets, IsFirst, le-IsFirst}

-- The value is stored at some offset of the interval.
abbrev pub StoredOn : Interval → Mapping → ℕ → Type 0
StoredOn i m w = (x : Offset) × (within i x ≡ true) × (has m x w ≡ true)

abbrev EndsAbove : Interval → Mapping → Type 0
EndsAbove i [] = Unit {0}
EndsAbove i (e ∷ m) = i.start ≤ e.key.end

EndsAbove-tail : (i : Interval) (lo : ℕ) (m : Mapping) → i.start ≤ lo → Ordered lo m → EndsAbove i m
EndsAbove-tail i lo [] h s = tt
EndsAbove-tail i lo (e ∷ m) h s = omega (arith, s.1.proper.ordered)

StoredOn-head :
    (i : Interval) (e : Entry) (m : Mapping) (w : ℕ)
    → i.start ≤ i.end
    → i.start ≤ e.key.end
    → e.key.start ≤ i.end
    → IsEntry e
    → mem e.values w ≡ true
    → StoredOn i (e ∷ m) w
StoredOn-head i e m w o a b q h =
    (max e.key.start i.start, ground (arith, q.proper.ordered), ground (arith, q.proper.ordered))

StoredOn-tail :
    (i : Interval) (e : Entry) (m : Mapping) (w : ℕ) → StoredOn i m w → StoredOn i (e ∷ m) w
StoredOn-tail i e m w (x, inside, h) = (x, inside, ground arith)

StoredOn-cases :
    (i : Interval) (e : Entry) (m : Mapping) (w : ℕ)
    → StoredOn i (e ∷ m) w
    → (mem e.values w ≡ true) ⊎ StoredOn i m w
StoredOn-cases i e m w (x, inside, h) = elim (Bool-cases (has m x w)) [
  | inl t ↦ inr (x, inside, t)
  | inr f ↦ inl (ground arith)
]

not-StoredOn_behind :
    (i : Interval) (m : Mapping) (w : ℕ) → Ordered (suc i.end) m → ¬ StoredOn i m w
not-StoredOn_behind i m w s (x, inside, h) = ground (arith, has_below (suc i.end) m x w s)

collect-mem :
    (i : Interval) (lo : ℕ) (m : Mapping) (ret : List ℕ) (w : ℕ)
    → i.start ≤ i.end
    → Ordered lo m
    → EndsAbove i m
    → (mem (collect i m ret) w ≡ true) ↔ ((mem ret w ≡ true) ⊎ StoredOn i m w)
unfolding collect overlaps_with
collect-mem i lo [] ret w o s a = (inl, λ h. ground arith)
collect-mem i lo (e ∷ m) ret w o s a = elim (Bool-cases (leb e.key.start i.end)) [
  | inl meets ↦
      let ih =
        collect-mem i (suc e.key.end) m (insert_all e.values ret) w o s.2
          (EndsAbove-tail i (suc e.key.end) m (omega arith) s.2) in
      let all = mem-insert_all e.values ret w in
      let head = StoredOn-head i e m w o a (ground arith) s.1 in
      let same : (overlaps_with e.key i) ≡ true = ground arith in
      (
        λ h. ground (arith, ih, all, head, StoredOn-tail i e m w),
        λ h. ground (arith, ih, all, StoredOn-cases i e m w),
      )
  | inr behind ↦
      let none_there = not-StoredOn_behind i (e ∷ m) w (ground arith, s.1, s.2) in
      (λ h. ground arith, λ h. ground (arith, none_there))
]

EndsAbove-Meets : (i : Interval) (m : Mapping) → Meets i m → EndsAbove i m
EndsAbove-Meets i [] h = tt
EndsAbove-Meets i (e ∷ m) h = h.1

StoredOn-IsFirst :
    (i : Interval) (m it : Mapping) (w : ℕ) → IsFirst i m it → StoredOn i it w ↔ StoredOn i m w
StoredOn-IsFirst i m it w first = (
  λ (x, inside, h). (x, inside, first.same x (entry_has x w) (λ e q. ground arith) inside ∙ h),
  λ (x, inside, h).
      (x, inside, sym (first.same x (entry_has x w) (λ e q. ground arith) inside) ∙ h),
)

-- On a mapping that is not empty, gather returns exactly the values that are stored at some offset
-- of the interval.
pub gather-mem :
    (i : Interval) (m : Mapping)
    → i.start ≤ i.end
    → Ordered 0 m
    → m ≢ []
    → (vs : List ℕ) × (gather i m ≡ some vs) × ((w : ℕ) → (mem vs w ≡ true) ↔ StoredOn i m w)
unfolding gather mem
gather-mem i m o s n =
    let (it, e, first) = le-IsFirst i m o s n in
    (
      collect i it [],
      rw (e, gather),
      λ w.
          let gathered =
            collect-mem i 0 it [] w o first.ordered (EndsAbove-Meets i it first.meets) in
          let stored = StoredOn-IsFirst i m it w first in
          (
            λ h. ⊎_elim (λ none_yet. cc) stored.0 (gathered.0 h),
            λ h. gathered.1 (inr (stored.1 h)),
          ),
    )

-- gather steps back from the begin of the mapping, which is undefined, on the empty mapping and on
-- no other.
pub gather_undefined :
    (i : Interval) (m : Mapping) → i.start ≤ i.end → Ordered 0 m → (gather i m ≡ none) ↔ (m ≡ [])
unfolding gather le find_ge shift_le
gather_undefined i [] o s = (λ h. refl, λ h. refl)
gather_undefined i (e ∷ m) o s =
    let (vs, found, all) = gather-mem i (e ∷ m) o s (λ q. cc) in (λ h. cc (found), λ h. cc)
