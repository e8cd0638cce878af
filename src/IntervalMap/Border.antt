-- ===== src/IntervalMap/Border.antt =====
-- One cut of splitIntervalHint, and entries that do not cross the borders of an interval.
use llvmdg.Common.{ℕ, suc, ◌-◌, ◌≤◌, ◌<◌, ◌≡◌, ◌⊎◌, inl, inr, ◌||◌, [], ◌∷◌, arith, All}
use llvmdg.Offset.{Offset, unknown, plus, minus}
use llvmdg.Offset.Laws.{plus-one, minus-one}
use llvmdg.IntervalMap.{Interval, Entry, Mapping, lower_part, upper_part}
use llvmdg.IntervalMap.Order.{IsProper, IsEntry, Ordered, entry_has, bound, Reversed, Ordered-mono}

-- The entry lies on one side of each border of the interval.
abbrev pub Aligned : Interval → Entry → Type 0
Aligned i e =
    ((e.key.end < i.start) ⊎ (i.start ≤ e.key.start))
    × ((i.end < e.key.start) ⊎ (e.key.end ≤ i.end))

pub Aligned-behind :
    (i : Interval) (m : Mapping) → i.start ≤ i.end → Ordered (suc i.end) m → All (Aligned i) m
Aligned-behind i [] h s = tt
Aligned-behind i (e ∷ m) h s = (
  (inr (omega arith), inl (omega arith)),
  Aligned-behind i m h
      (Ordered-mono (suc i.end) (suc e.key.end) m (omega (arith, s.1.ordered)) s.2),
)

pub Aligned-before :
    (i : Interval) (before : Mapping)
    → i.start ≤ i.end
    → Reversed before
    → bound before ≤ i.start
    → All (Aligned i) before
Aligned-before i [] h r b = tt
Aligned-before i (e ∷ before) h r b = (
  (inl (omega arith), inr (omega arith)),
  Aligned-before i before h r.2 (omega (arith, r.1.ordered)),
)

-- A cut inside an entry leaves two proper ones that share its meaning.
pub record IsCutAt (e : Entry) (cut : Offset) : Type 0 where
  pub next : plus cut 1 ≡ suc cut
  pub lower : IsEntry (lower_part e cut)
  pub upper : IsEntry (upper_part e cut)
  pub same :
      (x w : ℕ)
      → (entry_has x w (lower_part e cut) || entry_has x w (upper_part e cut)) ≡ entry_has x w e

pub entry-IsCutAt :
    (e : Entry) (cut : Offset)
    → IsEntry e
    → e.key.start ≤ cut
    → cut < e.key.end
    → cut < unknown - 1
    → IsCutAt e cut
entry-IsCutAt e cut p a b c =
    let s : plus cut 1 ≡ suc cut = omega (arith, plus-one cut (omega arith)) in
    record {
      next = s;
      lower = record { proper = ground (arith, p.ordered, p.known, p.bounded); set = p.set };
      upper = record {
        proper = ground (arith, s, p.ordered, p.known, p.bounded, p.not_last);
        set = p.set;
      };
      same = λ x w. ground (arith, s);
    }

-- The cut at the left border of `i`, in an entry that starts before it and reaches it.
pub left-IsCutAt :
    (i : Interval) (e : Entry)
    → IsProper i
    → IsEntry e
    → e.key.start < i.start
    → i.start ≤ e.key.end
    → (suc (minus i.start 1) ≡ i.start) × IsCutAt e (minus i.start 1)
left-IsCutAt i e p q a b =
    let cut : minus i.start 1 ≡ i.start - 1 = minus-one i.start (omega arith) p.known in
    (
      omega (arith, cut),
      entry-IsCutAt e (minus i.start 1) q (omega (arith, cut)) (omega (arith, cut))
          (omega (arith, cut, p.known)),
    )
