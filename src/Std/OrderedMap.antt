-- ===== src/Std/OrderedMap.antt =====
-- std::map (dg::Map of include/dg/ADT/Map.h derives from it) with numbered keys, as the list of its
-- entries by ascending key. The program's hash maps are read through the same operations.
use llvmdg.Common.{
  ℕ, suc, ◌≤◌, ◌<◌, ◌≡◌, refl, List, [], ◌∷◌, arith, Option, none, some, ltb, ◌==◌, if◌then◌else◌,
  All, Bool-cases, inl, inr, subst,
}

module _ {ℓ} {V : Type ℓ} where
  unfoldable pub find : ℕ → List (ℕ × V) → Option V
  find k [] = none
  find k ((j, v) ∷ m) = if j == k then some v else find k m

  -- operator[](k) = v
  unfoldable pub assign : ℕ → V → List (ℕ × V) → List (ℕ × V)
  assign k v [] = (k, v) ∷ []
  assign k v ((j, w) ∷ m) =
      if ltb k j then (k, v) ∷ (j, w) ∷ m else if j == k then (k, v) ∷ m else (j, w) ∷ assign k v m

  unfoldable pub erase : ℕ → List (ℕ × V) → List (ℕ × V)
  erase k [] = []
  erase k ((j, v) ∷ m) = let rest = erase k m in if j == k then rest else (j, v) ∷ rest

  -- The value that operator[] reads: a key that is missing is given the default first.
  abbrev pub value_or : V → Option V → V
  value_or d none = d
  value_or d (some v) = v

  -- emplace(k, v) and put(k, v): a key that is present keeps its value.
  unfoldable pub emplace : ℕ → V → List (ℕ × V) → List (ℕ × V)
  emplace k v m = elim (find k m) [ none ↦ assign k v m | some w ↦ m ]

  abbrev pub Sorted : ℕ → List (ℕ × V) → Type 0
  Sorted lo [] = Unit {0}
  Sorted lo ((k, v) ∷ m) = (lo ≤ k) × Sorted (suc k) m

  pub find-assign :
      (k j : ℕ) (v : V) (m : List (ℕ × V))
      → find j (assign k v m) ≡ (if k == j then some v else find j m)
  unfolding find assign
  find-assign k j v [] = refl
  find-assign k j v ((i, w) ∷ m) = ground (arith, find-assign k j v m)

  pub find-erase :
      (k j : ℕ) (m : List (ℕ × V)) → find j (erase k m) ≡ (if k == j then none else find j m)
  unfolding find erase
  find-erase k j [] = ground arith
  find-erase k j ((i, w) ∷ m) = ground (arith, find-erase k j m)

  pub Sorted-mono : (a b : ℕ) (m : List (ℕ × V)) → a ≤ b → Sorted b m → Sorted a m
  Sorted-mono a b [] h s = tt
  Sorted-mono a b ((k, v) ∷ m) h s = (omega arith, s.1)

  pub find_below : (lo k : ℕ) (m : List (ℕ × V)) → Sorted lo m → k < lo → find k m ≡ none
  unfolding find
  find_below lo k [] s h = refl
  find_below lo k ((j, v) ∷ m) s h = ground (arith, find_below (suc j) k m s.1)

  pub assign-Sorted :
      (lo k : ℕ) (v : V) (m : List (ℕ × V)) → lo ≤ k → Sorted lo m → Sorted lo (assign k v m)
  unfolding assign
  assign-Sorted lo k v [] h s = (h, tt)
  assign-Sorted lo k v ((j, w) ∷ m) h s =
      ground (arith, assign-Sorted (suc j) k v m, Sorted-mono (suc k) (suc j) m)

  pub erase-Sorted : (lo k : ℕ) (m : List (ℕ × V)) → Sorted lo m → Sorted lo (erase k m)
  unfolding erase
  erase-Sorted lo k [] s = tt
  erase-Sorted lo k ((j, v) ∷ m) s =
      ground (arith, erase-Sorted (suc j) k m s.1, Sorted-mono lo (suc j) (erase k m))

  pub All-assign {κ} :
      (P : ℕ × V → Type κ) (k : ℕ) (v : V) (m : List (ℕ × V))
      → P (k, v)
      → All P m
      → All P (assign k v m)
  unfolding assign
  All-assign P k v [] h a = (h, tt)
  All-assign P k v ((j, w) ∷ m) h a = elim (Bool-cases (ltb k j)) [
    | inl before ↦ rw before (h, a)
    | inr after ↦ elim (Bool-cases (j == k)) [
      | inl same ↦ rw (after, same) (h, a.1)
      | inr other ↦ rw (after, other) (a.0, All-assign P k v m h a.1)
    ]
  ]

  pub All-erase {κ} : (P : ℕ × V → Type κ) (k : ℕ) (m : List (ℕ × V)) → All P m → All P (erase k m)
  unfolding erase
  All-erase P k [] a = tt
  All-erase P k ((j, w) ∷ m) a = elim (Bool-cases (j == k)) [
    | inl same ↦ rw same (All-erase P k m a.1)
    | inr other ↦ rw other (a.0, All-erase P k m a.1)
  ]

  pub All-find {κ} :
      (P : V → Type κ) (k : ℕ) (v : V) (m : List (ℕ × V))
      → All (λ e. P e.1) m
      → find k m ≡ some v
      → P v
  unfolding find
  All-find P k v [] a h = cc
  All-find P k v ((j, w) ∷ m) a h = elim (Bool-cases (j == k)) [
    | inl same ↦ let e : w ≡ v = ground arith in subst P e a.0
    | inr other ↦ All-find P k v m a.1 (ground arith)
  ]
