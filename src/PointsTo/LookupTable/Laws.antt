-- ===== src/PointsTo/LookupTable/Laws.antt =====
-- The two halves of the lookup table are inverse to each other, and an ID never changes.
use llvmdg.Common.{
  ℕ, zero, suc, ◌<◌, ◌≡◌, ◌≢◌, ◌⊎◌, refl, sym, ◌∙◌, ap, true, false, none, some, List, [], ◌∷◌,
  ◌++◌, ◌==◌, if◌then◌else◌, length, length-append, get_elem?, arith, Bool-cases, Option-cases, inl,
  inr, ==_refl,
}
use llvmdg.Offset.{Offset}
use llvmdg.Std.OrderedMap.{find, assign, emplace, value_or, find-assign}
use llvmdg.PointsTo.{Node, Pointer, pointer_eq}
use llvmdg.PointsTo.LookupTable.{Table, get_id, get_or_create, get_pointer}

abbrev ids_of : Table → Node → List (Offset × ℕ)
ids_of t n = value_or [] (find n t.ptr_to_id)

get_id-ids_of :
    (t : Table) (p : Pointer) → get_id t p ≡ value_or 0 (find p.offset (ids_of t p.target))
unfolding get_id find
get_id-ids_of t p = elim (Option-cases (find p.target t.ptr_to_id)) [
  | inl missing ↦ rw (missing, get_id) refl
  | inr (ids, e) ↦ rw (e, get_id) (ground arith)
]

-- A pointer has an ID just when that ID stands for it.
pub record IsTable (t : Table) : Type 0 where
  pub stands : (p : Pointer) (i : ℕ) → get_id t p ≡ suc i → get_pointer t (suc i) ≡ some p
  pub positive : (p : Pointer) → find p.offset (ids_of t p.target) ≢ some 0
  pub numbered : (p : Pointer) (i : ℕ) → get_pointer t (suc i) ≡ some p → get_id t p ≡ suc i

get_elem-length :
    {A : Type 0} → (xs : List A) (x : A) → get_elem? (xs ++ (x ∷ [])) (length xs) ≡ some x
get_elem-length [] x = refl
get_elem-length (y ∷ xs) x = get_elem-length xs x

get_elem_before :
    {A : Type 0}
    → (xs ys : List A) (x : A) (i : ℕ) → get_elem? xs i ≡ some x
    → get_elem? (xs ++ ys) i ≡ some x
get_elem_before [] ys x i h = cc h
get_elem_before (y ∷ xs) ys x zero h = h
get_elem_before (y ∷ xs) ys x (suc i) h = get_elem_before xs ys x i h

-- An element of a list with one more is the last one, or one of the others.
get_elem_pushed :
    {A : Type 0}
    → (xs : List A) (x y : A) (i : ℕ) → get_elem? (xs ++ (x ∷ [])) i ≡ some y
    → ((i ≡ length xs) × (x ≡ y)) ⊎ (get_elem? xs i ≡ some y)
get_elem_pushed [] x y zero h = inl (refl, cc h)
get_elem_pushed [] x y (suc i) h = absurd (cc h)
get_elem_pushed (z ∷ xs) x y zero h = inr h
get_elem_pushed (z ∷ xs) x y (suc i) h = elim (get_elem_pushed xs x y i h) [
  | inl (e, f) ↦ inl (omega arith, f)
  | inr k ↦ inr k
]

pub get_elem_lt :
    {A : Type 0} → (xs : List A) (x : A) (i : ℕ) → get_elem? xs i ≡ some x → i < length xs
get_elem_lt [] x i h = absurd (cc h)
get_elem_lt (y ∷ xs) x zero h = omega arith
get_elem_lt (y ∷ xs) x (suc i) h = omega (arith, get_elem_lt xs x i h)

pub pointer_eq→≡ : (p q : Pointer) → pointer_eq p q ≡ true → p ≡ q
pointer_eq→≡ p q h =
    let e : p.target ≡ q.target = ground arith in
    let f : p.offset ≡ q.offset = ground arith in cc (e, f)

pub pointer_eq_refl : (p : Pointer) → pointer_eq p p ≡ true
pointer_eq_refl p = ground (arith, ==_refl p.target, ==_refl p.offset)

-- The table after a new pointer is numbered.
abbrev created : Table → Pointer → Table
created t p = record {
  ptr_to_id =
      assign p.target
        (emplace p.offset (length (t.id_to_ptr ++ (p ∷ [])))
          (value_or [] (find p.target t.ptr_to_id)))
        t.ptr_to_id;
  id_to_ptr = t.id_to_ptr ++ (p ∷ []);
}

find-emplace :
    (k j n : ℕ) (m : List (ℕ × ℕ))
    → find k m ≡ none
    → find j (emplace k n m) ≡ (if k == j then some n else find j m)
unfolding emplace
find-emplace k j n m h = rw (h, emplace) (find-assign k j n m)

ids_of-created :
    (t : Table) (p : Pointer) (n : Node)
    → ids_of (created t p) n ≡ (
        if p.target == n
        then emplace p.offset (length (t.id_to_ptr ++ (p ∷ []))) (ids_of t p.target)
        else ids_of t n)
ids_of-created t p n = ground (
  arith,
  find-assign p.target n (emplace p.offset (length (t.id_to_ptr ++ (p ∷ []))) (ids_of t p.target))
      t.ptr_to_id,
)

module _ (t : Table) (p : Pointer) (v : IsTable t) (new : get_id t p ≡ 0) where
  free : find p.offset (ids_of t p.target) ≡ none
  free = elim (Option-cases (find p.offset (ids_of t p.target))) [
    | inl missing ↦ missing
    | inr (id, e) ↦
        let zero_id : id ≡ 0 = ground (arith, get_id-ids_of t p, e) in
        absurd (v.positive p (e ∙ ap some zero_id))
  ]

  find-created :
      (q : Pointer)
      → find q.offset (ids_of (created t p) q.target) ≡ (
          if pointer_eq p q
          then some (suc (length t.id_to_ptr))
          else find q.offset (ids_of t q.target))
  find-created q =
      let n = length (t.id_to_ptr ++ (p ∷ [])) in
      let size : n ≡ suc (length t.id_to_ptr) = omega (arith, length-append t.id_to_ptr (p ∷ [])) in
      elim (Bool-cases (p.target == q.target)) [
        | inl same ↦
            let e : p.target ≡ q.target = ground arith in
            rw (ids_of-created t p q.target, same)
              (ground (
                arith,
                find-emplace p.offset q.offset n (ids_of t p.target) free,
                size,
                ap (λ u. find q.offset (ids_of t u)) e,
              ))
        | inr other ↦ rw (ids_of-created t p q.target, other) refl
      ]

  get_id-created :
      (q : Pointer)
      → get_id (created t p) q ≡ (if pointer_eq p q then suc (length t.id_to_ptr) else get_id t q)
  get_id-created q =
      ground (arith, get_id-ids_of (created t p) q, get_id-ids_of t q, find-created q)

  -- A pointer that is equal has no ID yet.
  get_id_none : (q : Pointer) → pointer_eq p q ≡ true → get_id t q ≡ 0
  get_id_none q h = sym (ap (get_id t) (pointer_eq→≡ p q h)) ∙ new

  created-IsTable : IsTable (created t p)
  created-IsTable = record {
    positive = λ q h. ground (arith, find-created q, v.positive q);
    stands = λ q i h. elim (Bool-cases (pointer_eq p q)) [
      | inl same ↦
          let e : i ≡ length t.id_to_ptr = ground (arith, get_id-created q, same, h) in
          rw (e, ← pointer_eq→≡ p q same) (get_elem-length t.id_to_ptr p)
      | inr other ↦
          get_elem_before t.id_to_ptr (p ∷ []) q i
            (v.stands q i (ground (arith, get_id-created q, other, h)))
    ];
    numbered = λ q i h. elim (get_elem_pushed t.id_to_ptr p q i h) [
      | inl (e, f) ↦ ground (arith, get_id-created q, ap (pointer_eq p) f, pointer_eq_refl p)
      | inr old ↦ elim (Bool-cases (pointer_eq p q)) [
        | inl same ↦ ground (arith, v.numbered q i old, get_id_none q same)
        | inr other ↦ ground (arith, get_id-created q, v.numbered q i old)
      ]
    ];
  }

-- What getOrCreate makes of a table.
pub record IsCreated (t : Table) (p : Pointer) (r : ℕ × Table) : Type 0 where
  pub valid : IsTable r.1
  pub id : get_id r.1 p ≡ r.0
  pub positive : r.0 ≢ 0
  pub others : (q : Pointer) → pointer_eq p q ≡ false → get_id r.1 q ≡ get_id t q
  pub stable : (q : Pointer) → get_id t q ≢ 0 → get_id r.1 q ≡ get_id t q
  pub names : (i : ℕ) (q : Pointer) → get_pointer t i ≡ some q → get_pointer r.1 i ≡ some q

-- getOrCreate returns the ID of the pointer, which is never the invalid one. It keeps the table a
-- bijection, and no ID and no numbered pointer changes.
pub get_or_create-IsCreated :
    (t : Table) (p : Pointer) → IsTable t → IsCreated t p (get_or_create t p)
unfolding get_or_create
get_or_create-IsCreated t p v = elim (Bool-cases (get_id t p == 0)) [
  | inl missing ↦
      let new : get_id t p ≡ 0 = ground arith in
      let size = length-append t.id_to_ptr (p ∷ []) in
      rw (missing, get_or_create)
        (record {
          valid = created-IsTable t p v new;
          id = ground (arith, get_id-created t p v new p, pointer_eq_refl p, size);
          positive = omega (arith, size);
          others = λ q h. ground (arith, get_id-created t p v new q, h);
          stable = λ q h. elim (Bool-cases (pointer_eq p q)) [
            | inl same ↦ absurd (h (get_id_none t p v new q same))
            | inr other ↦ ground (arith, get_id-created t p v new q, other)
          ];
          names = names;
        })
  | inr present ↦
      rw (present, get_or_create)
        (record {
          valid = v;
          id = refl;
          positive = ground arith;
          others = λ q h. refl;
          stable = λ q h. refl;
          names = λ i q h. h;
        })
]
  where
    names : (i : ℕ) (q : Pointer) → get_pointer t i ≡ some q → get_pointer (created t p) i ≡ some q
    names zero q h = cc h
    names (suc i) q h = get_elem_before t.id_to_ptr (p ∷ []) q i h
