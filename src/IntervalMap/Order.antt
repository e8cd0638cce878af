-- ===== src/IntervalMap/Order.antt =====
-- What the class keeps of its mapping, and what the mapping means, entry by entry.
use llvmdg.Common.{
  ℕ, suc, ◌-◌, ◌≤◌, ◌<◌, ◌≡◌, ◌≢◌, refl, Bool, ◌&&◌, ◌||◌, [], ◌∷◌, arith, ltb, leb, any, All,
  Bool-cases, inl, inr,
}
use llvmdg.Std.OrderedSet.{mem, Ascending}
use llvmdg.Offset.{Offset, unknown}
use llvmdg.IntervalMap.{Interval, Entry, Mapping, Cursor, rewind, find_ge}

-- An interval whose borders the arithmetic on offsets moves without loss: it starts at a known
-- offset, and it ends at one that has a known successor, or at the unknown one.
pub record IsProper (i : Interval) : Type 0 where
  pub ordered : i.start ≤ i.end
  pub known : i.start < unknown
  pub bounded : i.end ≤ unknown
  pub not_last : i.end ≢ unknown - 1

-- An entry of the mapping: its values are a std::set.
pub record IsEntry (e : Entry) : Type 0 where
  pub proper : IsProper e.key
  pub open proper use *
  pub set : Ascending 0 e.values

-- The intervals ascend and are disjoint: the check of _check.
abbrev pub Ordered : ℕ → Mapping → Type 0
Ordered lo [] = Unit {0}
Ordered lo (e ∷ m) = (lo ≤ e.key.start) × IsEntry e × Ordered (suc e.key.end) m

abbrev pub within : Interval → Offset → Bool
within i x = leb i.start x && leb x i.end

abbrev pub entry_has : Offset → ℕ → Entry → Bool
entry_has x w e = within e.key x && mem e.values w

-- The value `w` is stored at the offset `x`.
abbrev pub has : Mapping → Offset → ℕ → Bool
has m x w = any (entry_has x w) m

-- Some interval holds the offset `x`.
abbrev pub covered : Mapping → Offset → Bool
covered m x = any (λ e. within e.key x) m

-- The first offset behind the entries before a cursor.
abbrev pub bound : Mapping → ℕ
bound [] = 0
bound (e ∷ before) = suc e.key.end

abbrev pub Reversed : Mapping → Type 0
Reversed [] = Unit {0}
Reversed (e ∷ before) = (bound before ≤ e.key.start) × IsEntry e × Reversed before

abbrev pub StartsBelow : ℕ → Mapping → Type 0
StartsBelow hi [] = Unit {0}
StartsBelow hi (e ∷ before) = e.key.start < hi

pub Ordered-mono : (a b : ℕ) (m : Mapping) → a ≤ b → Ordered b m → Ordered a m
Ordered-mono a b [] h s = tt
Ordered-mono a b (e ∷ m) h s = (omega arith, s.1, s.2)

pub Ordered-rewind :
    (before ge : Mapping)
    → Reversed before
    → Ordered (bound before) ge
    → Ordered 0 (rewind before ge)
Ordered-rewind [] ge r s = s
Ordered-rewind (e ∷ before) ge r s = Ordered-rewind before (e ∷ ge) r.2 (r.0, r.1, s)

pub any-rewind :
    (p : Entry → Bool) (before ge : Mapping) → any p (rewind before ge) ≡ (any p before || any p ge)
any-rewind p [] ge = refl
any-rewind p (e ∷ before) ge = ground (arith, any-rewind p before (e ∷ ge))

pub All-rewind {κ} :
    (P : Entry → Type κ) (before ge : Mapping) → All P before → All P ge → All P (rewind before ge)
All-rewind P [] ge b g = g
All-rewind P (e ∷ before) ge b g = All-rewind P before (e ∷ ge) b.1 (b.0, g)

pub All-unrewind {κ} :
    (P : Entry → Type κ) (before ge : Mapping) → All P (rewind before ge) → All P before × All P ge
All-unrewind P [] ge a = (tt, a)
All-unrewind P (e ∷ before) ge a = let r = All-unrewind P before (e ∷ ge) a in ((r.1.0, r.0), r.1.1)

-- What the lower bound splits a mapping into.
pub record IsCut (i : Interval) (c : Cursor) : Type 0 where
  pub before : Reversed c.0
  pub below : StartsBelow i.start c.0
  pub after : Ordered (bound c.0) c.1
  pub above : Ordered i.start c.1

pub find_ge-IsCut :
    (i : Interval) (before m : Mapping)
    → Reversed before
    → StartsBelow i.start before
    → Ordered (bound before) m
    → IsCut i (find_ge i before m)
unfolding find_ge
find_ge-IsCut i before [] r b s = record { before = r; below = b; after = tt; above = tt }
find_ge-IsCut i before (e ∷ m) r b s = elim (Bool-cases (ltb e.key.start i.start)) [
  | inl left ↦ rw (left, find_ge) (find_ge-IsCut i (e ∷ before) m (s.0, s.1, r) (ground arith) s.2)
  | inr right ↦
      rw (right, find_ge)
        (record { before = r; below = b; after = s; above = (ground arith, s.1, s.2) })
]

pub rewind-find_ge :
    (i : Interval) (before m : Mapping)
    → rewind (find_ge i before m).0 (find_ge i before m).1 ≡ rewind before m
unfolding find_ge
rewind-find_ge i before [] = refl
rewind-find_ge i before (e ∷ m) = ground (arith, rewind-find_ge i (e ∷ before) m)
