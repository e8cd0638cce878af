-- ===== src/NodesWalk/Pigeons.antt =====
-- Lists of different nodes, and how long they can be.
use llvmdg.Common.{
  ℕ, suc, ◌≡◌, ◌≤◌, refl, sym, ap, Bool, true, false, ◌==◌, if◌then◌else◌, List, [], ◌∷◌, arith,
  Bool-cases, inl, inr, length, any, ==_iff,
}

abbrev pub mem : List ℕ → ℕ → Bool
mem xs n = any (λ x. x == n) xs

-- No node stands twice in the list.
abbrev pub IsDistinct : List ℕ → Type 0
IsDistinct [] = Unit {0}
IsDistinct (x ∷ xs) = (mem xs x ≡ false) × IsDistinct xs

without : ℕ → List ℕ → List ℕ
without n [] = []
without n (x ∷ xs) = if x == n then xs else x ∷ without n xs

length-without : (n : ℕ) (xs : List ℕ) → mem xs n ≡ true → suc (length (without n xs)) ≡ length xs
unfolding without
length-without n [] h = cc h
length-without n (x ∷ xs) h = elim (Bool-cases (x == n)) [
  | inl here ↦ rw here refl
  | inr there ↦ rw there (ground (arith, length-without n xs))
]

mem-without :
    (n m : ℕ) (xs : List ℕ) → (n == m) ≡ false → mem xs m ≡ true → mem (without n xs) m ≡ true
unfolding without
mem-without n m [] d h = h
mem-without n m (x ∷ xs) d h = ground (arith, mem-without n m xs)

-- Different nodes of a universe are at most as many as it has.
pub length-distinct :
    (xs universe : List ℕ)
    → IsDistinct xs
    → ((m : ℕ) → mem xs m ≡ true → mem universe m ≡ true)
    → length xs ≤ length universe
length-distinct [] universe d h = omega arith
length-distinct (x ∷ xs) universe d h = omega (
  arith,
  length-without x universe (h x (ground arith)),
  length-distinct xs (without x universe) d.1
      λ m k. mem-without x m universe (ground (arith, same m)) (h m (ground (arith, k))),
)
  where
    same : (m : ℕ) → (x == m) ≡ true → mem xs m ≡ mem xs x
    same m e = ap (mem xs) (sym ((==_iff x m).0 e))
