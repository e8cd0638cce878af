-- ===== src/PointsTo/Ordered.antt =====
-- std::set<Pointer> with the order of include/dg/PointerAnalysis/Pointer.h, as a list.
use llvmdg.Common.{
  ◌≡◌, refl, Bool, true, false, not, ◌||◌, ◌==◌, if◌then◌else◌, List, [], ◌∷◌, arith, Bool-cases,
  inl, inr,
}
use llvmdg.PointsTo.{Node, Pointer, pointer_eq, pointer_lt}

-- count(p) > 0
unfoldable pub member : List Pointer → Pointer → Bool
member [] p = false
member (x ∷ xs) p = pointer_eq x p || member xs p

-- insert(p) and emplace(p): whether the pointer is new, and the new set
unfoldable pub insert_pointer : Pointer → List Pointer → Bool × List Pointer
unfolding pointer_lt
insert_pointer p [] = (true, p ∷ [])
insert_pointer p (x ∷ xs) =
    let rest = insert_pointer p xs in
    if pointer_lt p x
    then (true, p ∷ x ∷ xs)
    else if pointer_eq x p
    then (false, x ∷ xs)
    else (rest.0, x ∷ rest.1)

-- erase(p)
unfoldable pub erase_pointer : Pointer → List Pointer → List Pointer
erase_pointer p [] = []
erase_pointer p (x ∷ xs) =
    let rest = erase_pointer p xs in if pointer_eq x p then rest else x ∷ rest

-- The pointers to other nodes, as a loop with erase leaves them
unfoldable pub erase_target : Node → List Pointer → List Pointer
erase_target n [] = []
erase_target n (x ∷ xs) = let rest = erase_target n xs in if x.target == n then rest else x ∷ rest

-- Ascending above a bound: what the set keeps.
abbrev pub Above : Pointer → List Pointer → Type 0
Above p [] = Unit {0}
Above p (x ∷ xs) = (pointer_lt p x ≡ true) × Above x xs

abbrev pub Ascending : List Pointer → Type 0
Ascending [] = Unit {0}
Ascending (x ∷ xs) = Above x xs

pub member-insert :
    (p : Pointer) (xs : List Pointer) (q : Pointer)
    → member (insert_pointer p xs).1 q ≡ (pointer_eq p q || member xs q)
unfolding member insert_pointer
member-insert p [] q = refl
member-insert p (x ∷ xs) q = ground (arith, member-insert p xs q)

pub member-erase :
    (p : Pointer) (xs : List Pointer) (q : Pointer)
    → member (erase_pointer p xs) q ≡ (if pointer_eq p q then false else member xs q)
unfolding member erase_pointer
member-erase p [] q = ground arith
member-erase p (x ∷ xs) q = ground (arith, member-erase p xs q)

pub member-erase_target :
    (n : Node) (xs : List Pointer) (q : Pointer)
    → member (erase_target n xs) q ≡ (if n == q.target then false else member xs q)
unfolding member erase_target
member-erase_target n [] q = ground arith
member-erase_target n (x ∷ xs) q = ground (arith, member-erase_target n xs q)

not-member-Above :
    (p q : Pointer) (xs : List Pointer) → Above q xs → pointer_lt p q ≡ true → member xs p ≡ false
unfolding member pointer_lt
not-member-Above p q [] a h = refl
not-member-Above p q (x ∷ xs) a h = ground (arith, not-member-Above p x xs a.1)

-- insert returns whether the pointer is new.
pub insert-reports :
    (p : Pointer) (xs : List Pointer) → Ascending xs → (insert_pointer p xs).0 ≡ not (member xs p)
unfolding member insert_pointer pointer_lt
insert-reports p [] a = refl
insert-reports p (x ∷ []) a = ground arith
insert-reports p (x ∷ y ∷ xs) a =
    ground (arith, insert-reports p (y ∷ xs) a.1, not-member-Above p x (y ∷ xs) a)

Above-mono : (p q : Pointer) (xs : List Pointer) → pointer_lt p q ≡ true → Above q xs → Above p xs
unfolding pointer_lt
Above-mono p q [] h a = tt
Above-mono p q (x ∷ xs) h a = (ground arith, a.1)

insert-Above :
    (p q : Pointer) (xs : List Pointer)
    → Above q xs
    → pointer_lt q p ≡ true
    → Above q (insert_pointer p xs).1
unfolding insert_pointer pointer_lt
insert-Above p q [] a h = (h, tt)
insert-Above p q (x ∷ xs) a h = ground (arith, insert-Above p x xs a.1)

pub insert-Ascending :
    (p : Pointer) (xs : List Pointer) → Ascending xs → Ascending (insert_pointer p xs).1
unfolding insert_pointer pointer_lt
insert-Ascending p [] a = tt
insert-Ascending p (x ∷ xs) a = ground (arith, insert-Above p x xs a)

erase_target-Above :
    (n : Node) (q : Pointer) (xs : List Pointer) → Above q xs → Above q (erase_target n xs)
unfolding erase_target
erase_target-Above n q [] a = tt
erase_target-Above n q (x ∷ xs) a = elim (Bool-cases (x.target == n)) [
  | inl here ↦ rw here (erase_target-Above n q xs (Above-mono q x xs a.0 a.1))
  | inr there ↦ rw there (a.0, erase_target-Above n x xs a.1)
]

pub erase_target-Ascending :
    (n : Node) (xs : List Pointer) → Ascending xs → Ascending (erase_target n xs)
unfolding erase_target
erase_target-Ascending n [] a = tt
erase_target-Ascending n (x ∷ xs) a = elim (Bool-cases (x.target == n)) [
  | inl here ↦ rw here (erase_target-Ascending n xs (weaken xs a))
  | inr there ↦ rw there (erase_target-Above n x xs a)
]
  where
    weaken : (ys : List Pointer) → Above x ys → Ascending ys
    weaken [] b = tt
    weaken (y ∷ ys) b = b.1
