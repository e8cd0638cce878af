-- ===== src/IntervalMap/Query/First.antt =====
-- The iterator that le returns stands at the first entry that overlaps the interval.
use llvmdg.Common.{
  ℕ, suc, ◌≤◌, ◌<◌, ◌≡◌, ◌≢◌, inl, inr, refl, sym, ◌∙◌, subst, Bool, true, false, [], ◌∷◌, arith,
  ltb, leb, some, any, Bool-cases,
}
use llvmdg.Offset.{Offset}
use llvmdg.IntervalMap.{Interval, Entry, Mapping, Cursor, rewind, find_ge}
use llvmdg.IntervalMap.Order.{
  Ordered, within, bound, Reversed, Ordered-mono, any-rewind, IsCut, find_ge-IsCut, rewind-find_ge,
}
use llvmdg.IntervalMap.Query.{shift_le, le}

-- A test of entries that looks at the offset `x` of an entry.
abbrev pub Local : Offset → (Entry → Bool) → Type 0
Local x p = (e : Entry) → p e ≡ true → within e.key x ≡ true

abbrev pub Meets : Interval → Mapping → Type 0
Meets i [] = Unit {0}
Meets i (e ∷ m) = (e.key.start ≤ i.end) × (i.start ≤ e.key.end)

-- `it` holds all that `m` has on `i`, and begins with an entry that overlaps `i`, or is the end.
pub record IsFirst (i : Interval) (m : Mapping) (it : Mapping) : Type 0 where
  pub ordered : Ordered 0 it
  pub meets : Meets i it
  pub same : (x : Offset) (p : Entry → Bool) → Local x p → within i x ≡ true → any p m ≡ any p it

pub any_below :
    (lo : ℕ) (m : Mapping) (x : Offset) (p : Entry → Bool)
    → Local x p
    → Ordered lo m
    → x < lo
    → any p m ≡ false
any_below lo [] x p l s h = refl
any_below lo (e ∷ m) x p l s h =
    ground (arith, l e, any_below (suc e.key.end) m x p l s.2, s.1.proper.ordered, s.0)

pub any_before :
    (before : Mapping) (x : Offset) (p : Entry → Bool)
    → Local x p
    → Reversed before
    → bound before ≤ x
    → any p before ≡ false
any_before [] x p l r b = refl
any_before (e ∷ before) x p l r b =
    ground (arith, l e, any_before before x p l r.2, r.0, r.1.proper.ordered)

any_behind :
    (before m : Mapping) (x : Offset) (p : Entry → Bool)
    → Local x p
    → Reversed before
    → bound before ≤ x
    → any p (rewind before m) ≡ any p m
any_behind before m x p l r b = ground (arith, any-rewind p before m, any_before before x p l r b)

-- Where the iterator is placed at `it` behind the entries `before`.
placed :
    (i : Interval) (before it : Mapping)
    → Reversed before
    → bound before ≤ i.start
    → Ordered (bound before) it
    → Meets i it
    → IsFirst i (rewind before it) it
placed i before it r b s meets = record {
  ordered = Ordered-mono 0 (bound before) it (omega arith) s;
  meets = meets;
  same = λ x p l h. any_behind before it x p l r (ground arith);
}

-- Where no entry overlaps the interval.
nowhere :
    (i : Interval) (before ge : Mapping)
    → Reversed before
    → bound before ≤ i.start
    → Ordered (suc i.end) ge
    → IsFirst i (rewind before ge) []
nowhere i before ge r b s = record {
  ordered = tt;
  meets = tt;
  same = λ x p l h.
      any_behind before ge x p l r (ground arith) ∙ any_below (suc i.end) ge x p l s (ground arith);
}

shift_le-IsFirst :
    (i : Interval) (c : Cursor)
    → i.start ≤ i.end
    → IsCut i c
    → rewind c.0 c.1 ≢ []
    → (it : Mapping) × (shift_le i c ≡ some it) × IsFirst i (rewind c.0 c.1) it
unfolding shift_le
shift_le-IsFirst i ([], []) o c n = absurd (n refl)
shift_le-IsFirst i (last ∷ before, []) o c n = elim (Bool-cases (leb i.start last.key.end)) [
  | inl reach ↦ (
    last ∷ [],
    rw reach,
    placed i before (last ∷ []) c.before.2 (omega (arith, c.before.0, c.below))
        (c.before.0, c.before.1, tt) (omega (arith, c.below), ground arith),
  )
  | inr short ↦ ([], rw short, nowhere i (last ∷ before) [] c.before (ground arith) tt)
]
shift_le-IsFirst i ([], e ∷ ge) o c n = elim (Bool-cases (ltb i.end e.key.start)) [
  | inl behind ↦
      ([], rw behind, nowhere i [] (e ∷ ge) tt (omega arith) (ground arith, c.after.1, c.after.2))
  | inr meets ↦ (
    e ∷ ge,
    rw meets,
    placed i [] (e ∷ ge) tt (omega arith) c.after
        (ground arith, omega (arith, c.above.0, c.above.1.proper.ordered)),
  )
]
shift_le-IsFirst i (prev ∷ before, e ∷ ge) o c n = elim (Bool-cases (leb i.start prev.key.end)) [
  | inl reach ↦ (
    prev ∷ e ∷ ge,
    rw reach,
    placed i before (prev ∷ e ∷ ge) c.before.2 (omega (arith, c.before.0, c.below))
        (c.before.0, c.before.1, c.after) (omega (arith, c.below), ground arith),
  )
  | inr short ↦ elim (Bool-cases (ltb i.end e.key.start)) [
    | inl behind ↦ (
      [],
      rw (short, behind),
      nowhere i (prev ∷ before) (e ∷ ge) c.before (ground arith)
          (ground arith, c.after.1, c.after.2),
    )
    | inr meets ↦ (
      e ∷ ge,
      rw (short, meets),
      placed i (prev ∷ before) (e ∷ ge) c.before (ground arith) c.after
          (ground arith, omega (arith, c.above.0, c.above.1.proper.ordered)),
    )
  ]
]

-- In a mapping that is not empty le finds an iterator: the first entry that overlaps the interval,
-- with nothing on the interval stored in front of it, or the end, with nothing there at all.
pub le-IsFirst :
    (i : Interval) (m : Mapping)
    → i.start ≤ i.end
    → Ordered 0 m
    → m ≢ []
    → (it : Mapping) × (le i m ≡ some it) × IsFirst i m it
unfolding le
le-IsFirst i m o s n =
    let same = rewind-find_ge i [] m in
    let (it, e, first) =
      shift_le-IsFirst i (find_ge i [] m) o (find_ge-IsCut i [] m tt tt s)
        (subst (λ t. t ≢ []) (sym same) n) in
    (it, e, subst (λ t. IsFirst i t it) same first)
