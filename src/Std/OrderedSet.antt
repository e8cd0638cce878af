-- ===== src/Std/OrderedSet.antt =====
-- std::set of a numbered type, as the list of its elements in ascending order.
use llvmdg.Common.{
  ℕ, suc, ◌≤◌, ◌<◌, ◌≡◌, refl, Bool, true, false, ◌||◌, List, [], ◌∷◌, arith, ltb, ◌==◌,
  if◌then◌else◌,
}

-- count(v) > 0
unfoldable pub mem : List ℕ → ℕ → Bool
mem [] v = false
mem (x ∷ xs) v = x == v || mem xs v

-- insert(v).first: an element that is present is not inserted again.
unfoldable pub insert : ℕ → List ℕ → List ℕ
insert v [] = v ∷ []
insert v (x ∷ xs) = if ltb v x then v ∷ x ∷ xs else if x == v then x ∷ xs else x ∷ insert v xs

-- insert(v).second
abbrev pub inserts : ℕ → List ℕ → Bool
inserts v xs = if mem xs v then false else true

-- insert(first, last) over a range
unfoldable pub insert_all : List ℕ → List ℕ → List ℕ
insert_all [] ys = ys
insert_all (x ∷ xs) ys = insert_all xs (insert x ys)

unfoldable pub remove : ℕ → List ℕ → List ℕ
remove v [] = []
remove v (x ∷ xs) = let rest = remove v xs in if x == v then rest else x ∷ rest

-- Strictly ascending above a bound: what a std::set keeps.
abbrev pub Ascending : ℕ → List ℕ → Type 0
Ascending lo [] = Unit {0}
Ascending lo (x ∷ xs) = (lo ≤ x) × Ascending (suc x) xs

pub mem-insert : (v : ℕ) (xs : List ℕ) (w : ℕ) → mem (insert v xs) w ≡ (v == w || mem xs w)
unfolding mem insert
mem-insert v [] w = refl
mem-insert v (x ∷ xs) w = ground (arith, mem-insert v xs w)

pub mem-insert_all : (xs ys : List ℕ) (w : ℕ) → mem (insert_all xs ys) w ≡ (mem xs w || mem ys w)
unfolding mem insert_all
mem-insert_all [] ys w = refl
mem-insert_all (x ∷ xs) ys w = ground (arith, mem-insert_all xs (insert x ys) w, mem-insert x ys w)

pub mem-remove :
    (v : ℕ) (xs : List ℕ) (w : ℕ) → mem (remove v xs) w ≡ (if v == w then false else mem xs w)
unfolding mem remove
mem-remove v [] w = ground arith
mem-remove v (x ∷ xs) w = ground (arith, mem-remove v xs w)

pub Ascending-mono : (a b : ℕ) (xs : List ℕ) → a ≤ b → Ascending b xs → Ascending a xs
Ascending-mono a b [] h s = tt
Ascending-mono a b (x ∷ xs) h s = (omega arith, s.1)

pub not-mem_below : (lo : ℕ) (xs : List ℕ) (v : ℕ) → Ascending lo xs → v < lo → mem xs v ≡ false
unfolding mem
not-mem_below lo [] v s h = refl
not-mem_below lo (x ∷ xs) v s h = ground (arith, not-mem_below (suc x) xs v s.1)

pub insert-Ascending :
    (lo v : ℕ) (xs : List ℕ) → lo ≤ v → Ascending lo xs → Ascending lo (insert v xs)
unfolding insert
insert-Ascending lo v [] h s = (h, tt)
insert-Ascending lo v (x ∷ xs) h s =
    ground (arith, insert-Ascending (suc x) v xs, Ascending-mono (suc v) (suc x) xs)

-- Inserting an element that is present changes nothing.
pub insert_present : (lo v : ℕ) (xs : List ℕ) → Ascending lo xs → mem xs v ≡ true → insert v xs ≡ xs
unfolding insert mem
insert_present lo v [] s h = cc
insert_present lo v (x ∷ xs) s h =
    ground (arith, insert_present (suc x) v xs s.1, not-mem_below (suc x) xs v s.1)

pub remove-Ascending : (lo v : ℕ) (xs : List ℕ) → Ascending lo xs → Ascending lo (remove v xs)
unfolding remove
remove-Ascending lo v [] s = tt
remove-Ascending lo v (x ∷ xs) s =
    ground (arith, remove-Ascending (suc x) v xs s.1, Ascending-mono lo (suc x) (remove v xs))

pub not_mem-is_empty : (xs : List ℕ) → ((v : ℕ) → mem xs v ≡ false) → xs ≡ []
unfolding mem
not_mem-is_empty [] h = refl
not_mem-is_empty (x ∷ xs) h = ground (arith, h x)
