-- ===== src/MemorySsa/IntervalsList/Add.antt =====
-- include/dg/ADT/IntervalsList.h: add, apart from the intervals of the list and on them.
use llvmdg.Common.{
  ℕ, suc, ◌≤◌, ◌<◌, ◌≡◌, ◌≢◌, ◌↔◌, refl, sym, ap, subst, Bool, true, false, ◌||◌, [], ◌∷◌, Option,
  none, some, arith, ltb, Bool-cases, inl, inr, any,
}
use llvmdg.Offset.{Offset}
use llvmdg.IntervalMap.{Interval}
use llvmdg.IntervalMap.Order.{within}
use llvmdg.IntervalMap.Query.Uncovered.{in_some}
use llvmdg.MemorySsa.IntervalsList.{
  IntervalsList, meets, replace_overlapping, behind, add_from, add,
}

-- The intervals ascend and are disjoint.
abbrev pub Apart : ℕ → IntervalsList → Type 0
Apart lo [] = Unit {0}
Apart lo (e ∷ l) = (lo ≤ e.start) × (e.start ≤ e.end) × Apart (suc e.end) l

-- What adding makes of a list.
pub record IsListed (lo : ℕ) (i : Interval) (l : IntervalsList) (o : Option IntervalsList)
    : Type 0 where
  pub list : IntervalsList
  pub returned : o ≡ some list
  pub apart : Apart lo list
  pub offsets : (x : Offset) → in_some list x ≡ (within i x || in_some l x)

add_from-IsListed :
    (lo : ℕ) (i : Interval) (l : IntervalsList)
    → lo ≤ i.start
    → i.start ≤ i.end
    → Apart lo l
    → any (meets i) l ≡ false
    → IsListed lo i l (add_from i l)
unfolding add_from meets
add_from-IsListed lo i [] h p s n = record {
  list = i ∷ [];
  returned = refl;
  apart = (h, p, tt);
  offsets = λ x. refl;
}
add_from-IsListed lo i (e ∷ l) h p s n = elim (Bool-cases (ltb i.end e.start)) [
  | inl before ↦ record {
    list = i ∷ e ∷ l;
    returned = ground arith;
    apart = (h, p, (ground arith, s.1, s.2));
    offsets = λ x. refl;
  }
  | inr after ↦
      let r = add_from-IsListed (suc e.end) i l (ground arith) p s.2 (ground arith) in
      record {
        list = e ∷ r.list;
        returned = ground (arith, ap (behind e) r.returned);
        apart = (s.0, s.1, r.apart);
        offsets = λ x. ground (arith, r.offsets x);
      }
]

-- Adding an interval that overlaps no interval of a list, which is in order and not empty, returns,
-- and the list stays in order and holds the offsets of the interval beside those that it held.
pub add-IsListed :
    (i : Interval) (l : IntervalsList)
    → i.start ≤ i.end
    → Apart 0 l
    → l ≢ []
    → any (meets i) l ≡ false
    → IsListed 0 i l (add i l)
unfolding add
add-IsListed i [] p s m n = absurd (m refl)
add-IsListed i (e ∷ l) p s m n =
    let r = add_from-IsListed 0 i (e ∷ l) (omega arith) p s n in
    record {
      list = r.list;
      returned = ground (arith, r.returned);
      apart = r.apart;
      offsets = r.offsets;
    }

-- A list in order was returned.
abbrev pub InOrder : ℕ → Option IntervalsList → Type 0
InOrder lo none = ⊥
InOrder lo (some l) = Apart lo l

replaced-meets :
    (lo : ℕ) (i e : Interval) (l : IntervalsList)
    → meets i e ≡ true
    → ¬ InOrder lo (behind e (replace_overlapping i l))
unfolding replace_overlapping meets
replaced-meets lo i e [] m a = a
replaced-meets lo i e (f ∷ l) m a = ground (arith, a.2.0)

meets-Apart :
    (lo : ℕ) (i : Interval) (l : IntervalsList) → i.end < lo → Apart lo l → any (meets i) l ≡ false
unfolding meets
meets-Apart lo i [] h s = refl
meets-Apart lo i (e ∷ l) h s = ground (arith, meets-Apart (suc e.end) i l)

InOrder-behind :
    (lo : ℕ) (e : Interval) (o : Option IntervalsList)
    → InOrder lo (behind e o)
    → InOrder (suc e.end) o
InOrder-behind lo e none a = a
InOrder-behind lo e (some l) a = a.2

add_from-meets :
    (lo : ℕ) (i : Interval) (l : IntervalsList)
    → Apart lo l
    → any (meets i) l ≡ true
    → ¬ InOrder lo (add_from i l)
unfolding add_from
add_from-meets lo i [] s n a = cc
add_from-meets lo i (e ∷ l) s n a = elim (Bool-cases (meets i e)) [
  | inl here ↦ replaced-meets lo i e l here (subst (InOrder lo) (ground (arith, here)) a)
  | inr not_here ↦ elim (Bool-cases (ltb i.end e.start)) [
    | inl before ↦ cc (meets-Apart e.start i (e ∷ l) (ground arith) (omega arith, s.1, s.2), n)
    | inr after ↦
        add_from-meets (suc e.end) i l s.2 (ground (arith, not_here, n))
          (InOrder-behind lo e (add_from i l) (subst (InOrder lo) (ground arith) a))
  ]
]

-- On the empty list, add uses the iterator end().
pub add_nil : (i : Interval) → add i [] ≡ none
unfolding add add_from replace_overlapping meets
add_nil i = ground arith

-- In a build without assertions, adding an interval to a list in order returns a list in order
-- exactly if the list is not empty and no interval of it overlaps: on the empty list add uses the
-- iterator end(), and on a list that has an interval that overlaps it does so or leaves an overlap.
pub add-InOrder :
    (i : Interval) (l : IntervalsList)
    → i.start ≤ i.end
    → Apart 0 l
    → InOrder 0 (add i l) ↔ (l ≢ []) × (any (meets i) l ≡ false)
unfolding add
add-InOrder i [] p s = (λ a. absurd (subst (InOrder 0) (add_nil i) a), λ h. absurd (h.0 refl))
add-InOrder i (e ∷ l) p s = (
  λ a. ((λ q. cc), apart a (any (meets i) (e ∷ l)) refl),
  λ h. let r = add-IsListed i (e ∷ l) p s h.0 h.1 in subst (InOrder 0) (sym r.returned) r.apart,
)
  where
    apart : InOrder 0 (add i (e ∷ l)) → (b : Bool) → any (meets i) (e ∷ l) ≡ b → b ≡ false
    apart a true h = absurd (add_from-meets 0 i (e ∷ l) s h (subst (InOrder 0) (ground arith) a))
    apart a false h = refl
