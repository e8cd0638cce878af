-- ===== src/Relations/Meaning.antt =====
-- What the relation types say of two values, and that inverted, negated and conflicting agree.
use llvmdg.Common.{
  ℕ, suc, ◌+◌, ◌%◌, ◌^◌, ◌≤◌, ◌<◌, ◌≡◌, ◌≢◌, ◌↔◌, refl, sym, ap, subst, true, arith, Option, none,
  some, List, [], ◌∷◌, ℕ_discrete, get_elem?, ◌==◌, ==_iff, Bool-cases, inl, inr, All,
}
use llvmdg.Relations.{
  RelationType, eq, ne, sle, slt, ule, ult, sge, sgt, uge, ugt, pt, pf, Relations, has, inverted,
  negated, conflicting, all, index, set, set_all, imply,
}

-- The values are bit patterns of a width `suc b`. A signed comparison is the unsigned one of the
-- patterns with the sign bit turned over; `Points` says which values the memory relates.
unfoldable pub key : ℕ → ℕ → ℕ
key b x = (x + 2 ^ b) % 2 ^ suc b

module _ (b : ℕ) (Points : ℕ → ℕ → Type 0) where
  abbrev pub Holds : RelationType → ℕ → ℕ → Type 0
  Holds eq x y = x ≡ y
  Holds ne x y = x ≢ y
  Holds sle x y = key b x ≤ key b y
  Holds slt x y = key b x < key b y
  Holds ule x y = x ≤ y
  Holds ult x y = x < y
  Holds sge x y = key b y ≤ key b x
  Holds sgt x y = key b y < key b x
  Holds uge x y = y ≤ x
  Holds ugt x y = y < x
  Holds pt x y = Points x y
  Holds pf x y = Points y x

  -- Every relation of the set holds.
  abbrev pub AllHold : Relations → ℕ → ℕ → Type 0
  AllHold r x y = (t : RelationType) → has r t ≡ true → Holds t x y

  -- The inverted relation is the relation of the values the other way round.
  pub inverted-Holds : (t : RelationType) (x y : ℕ) → Holds t x y ↔ Holds (inverted t) y x
  unfolding inverted
  inverted-Holds eq x y = (sym, sym)
  inverted-Holds ne x y = (λ h e. h (sym e), λ h e. h (sym e))
  inverted-Holds sle x y = (λ h. h, λ h. h)
  inverted-Holds slt x y = (λ h. h, λ h. h)
  inverted-Holds ule x y = (λ h. h, λ h. h)
  inverted-Holds ult x y = (λ h. h, λ h. h)
  inverted-Holds sge x y = (λ h. h, λ h. h)
  inverted-Holds sgt x y = (λ h. h, λ h. h)
  inverted-Holds uge x y = (λ h. h, λ h. h)
  inverted-Holds ugt x y = (λ h. h, λ h. h)
  inverted-Holds pt x y = (λ h. h, λ h. h)
  inverted-Holds pf x y = (λ h. h, λ h. h)

  abbrev NegatesTo : RelationType → ℕ → ℕ → Option RelationType → Type 0
  NegatesTo t x y none = Unit {0}
  NegatesTo t x y (some n) = Holds n x y ↔ (¬ Holds t x y)

  negated-NegatesTo : (t : RelationType) (x y : ℕ) → NegatesTo t x y (negated t)
  unfolding negated
  negated-NegatesTo eq x y = (λ h. h, λ h. h)
  negated-NegatesTo ne x y =
      (λ h k. k h, λ h. elim (ℕ_discrete x y) [ yes e ↦ e | no d ↦ absurd (h d) ])
  negated-NegatesTo pt x y = tt
  negated-NegatesTo pf x y = tt
  negated-NegatesTo sle x y = (λ h k. omega arith, λ h. omega arith)
  negated-NegatesTo slt x y = (λ h k. omega arith, λ h. omega arith)
  negated-NegatesTo ule x y = (λ h k. omega arith, λ h. omega arith)
  negated-NegatesTo ult x y = (λ h k. omega arith, λ h. omega arith)
  negated-NegatesTo sge x y = (λ h k. omega arith, λ h. omega arith)
  negated-NegatesTo sgt x y = (λ h k. omega arith, λ h. omega arith)
  negated-NegatesTo uge x y = (λ h k. omega arith, λ h. omega arith)
  negated-NegatesTo ugt x y = (λ h k. omega arith, λ h. omega arith)

  -- Where a relation has a negation, exactly one of the two holds.
  pub negated-Holds :
      (t n : RelationType) (x y : ℕ) → negated t ≡ some n → Holds n x y ↔ (¬ Holds t x y)
  negated-Holds t n x y h = subst (NegatesTo t x y) h (negated-NegatesTo t x y)

  -- A relation that conflicts with one that holds does not hold.
  pub conflicting_sound :
      (t u : RelationType) (x y : ℕ) → has (conflicting t) u ≡ true → Holds t x y → ¬ Holds u x y
  unfolding conflicting
  conflicting_sound eq ne x y c h k = k h
  conflicting_sound eq slt x y c h k = omega (arith, ap (key b) h)
  conflicting_sound eq sgt x y c h k = omega (arith, ap (key b) h)
  conflicting_sound ne eq x y c h k = h k
  conflicting_sound slt eq x y c h k = omega (arith, ap (key b) k)
  conflicting_sound sgt eq x y c h k = omega (arith, ap (key b) k)
  conflicting_sound t u x y c h k = first_of (omega arith, ground arith)

at_index : (t : RelationType) → get_elem? all (index t) ≡ some t
at_index eq = refl
at_index t = refl

index-injective : (t u : RelationType) → index t ≡ index u → t ≡ u
index-injective t u h = let e = ap (get_elem? all) h in cc (at_index t, at_index u, e)

module _ (b : ℕ) (Points : ℕ → ℕ → Type 0) (x y : ℕ) where
  pub set_sound :
      (t : RelationType) (r : Relations)
      → Holds b Points t x y
      → AllHold b Points r x y
      → AllHold b Points (set t true r) x y
  set_sound t r h all u q = elim (Bool-cases (index t == index u)) [
    | inl same ↦
        subst (λ v. Holds b Points v x y)
          (index-injective t u ((==_iff (index t) (index u)).0 same)) h
    | inr other ↦ all u (ground arith)
  ]

  pub set_all_sound :
      (ts : List RelationType) (r : Relations)
      → All (λ t. Holds b Points t x y) ts
      → AllHold b Points r x y
      → AllHold b Points (set_all ts r) x y
  set_all_sound [] r h all = all
  set_all_sound (t ∷ ts) r h all = set_all_sound ts (set t true r) h.1 (set_sound t r h.0 all)

  pub imply_sound :
      (t : RelationType) (ts : List RelationType) (r : Relations)
      → (Holds b Points t x y → All (λ u. Holds b Points u x y) ts)
      → AllHold b Points r x y
      → AllHold b Points (imply t ts r) x y
  imply_sound t ts r h all = elim (Bool-cases (has r t)) [
    | inl there ↦ rw there (set_all_sound ts r (h (all t there)) all)
    | inr missing ↦ rw missing all
  ]

-- Conflict is symmetric, and it is stable under inversion.
pub conflicting_comm :
    (t u : RelationType)
    → (has (conflicting t) u ≡ has (conflicting u) t)
      × (has (conflicting t) u ≡ has (conflicting (inverted t)) (inverted u))
unfolding conflicting inverted
conflicting_comm eq eq = (refl, refl)
conflicting_comm ne eq = (refl, refl)
conflicting_comm sle eq = (refl, refl)
conflicting_comm slt eq = (refl, refl)
conflicting_comm ule eq = (refl, refl)
conflicting_comm ult eq = (refl, refl)
conflicting_comm sge eq = (refl, refl)
conflicting_comm sgt eq = (refl, refl)
conflicting_comm uge eq = (refl, refl)
conflicting_comm ugt eq = (refl, refl)
conflicting_comm pt eq = (refl, refl)
conflicting_comm pf eq = (refl, refl)
conflicting_comm t u = (refl, refl)
