-- ===== src/Bitvector/Elements.antt =====
-- Iteration over a bit vector, its size and its emptiness.
use llvmdg.Common.{
  ℕ, zero, suc, ◌+◌, ◌-◌, ◌/◌, ◌%◌, ◌^◌, ◌<◌, ◌≡◌, ◌≢◌, ◌↔◌, refl, sym, ap, true, false, ◌&&◌, ◌||◌,
  List, [], ◌∷◌, ◌++◌, map, ◌==◌, ltb, leb, if◌then◌else◌, arith, Bool-cases, inl, inr,
}
use llvmdg.Std.OrderedSet.{mem}
use llvmdg.Std.OrderedMap.{find, find_below}
use llvmdg.Std.Word.{bit_at, population}
use llvmdg.Std.Word.Laws.{pow-double, bit_of_ne_zero, bit_at-test_bit}
use llvmdg.Bitvector.{Buckets, shift, get, count_bits, size, positions, elements}
use llvmdg.Bitvector.Order.{IsBitvector}
use llvmdg.Bitvector.Union.{tail-IsBitvector}

mem-append : (xs ys : List ℕ) (x : ℕ) → mem (xs ++ ys) x ≡ (mem xs x || mem ys x)
unfolding mem
mem-append [] ys x = refl
mem-append (y ∷ xs) ys x = ground (arith, mem-append xs ys x)

mem-map_add :
    (k : ℕ) (xs : List ℕ) (x : ℕ) → mem (map (λ pos. k + pos) xs) x ≡ (leb k x && mem xs (x - k))
unfolding mem
mem-map_add k [] x = ground arith
mem-map_add k (y ∷ xs) x = ground (arith, mem-map_add k xs x)

pub mem-positions :
    (rounds pos bits x : ℕ)
    → mem (positions rounds pos bits) x ≡ (leb pos x && (ltb x (pos + rounds) && bit_at bits x))
unfolding mem positions
mem-positions zero pos bits x = ground arith
mem-positions (suc rounds) pos bits x = elim (Bool-cases (pos == x)) [
  | inl here ↦
      let e : pos ≡ x = ground arith in
      ground (arith, mem-positions rounds (suc pos) bits x, ap (bit_at bits) e)
  | inr other ↦ ground (arith, mem-positions rounds (suc pos) bits x)
]

get-cons :
    (k bits : ℕ) (m : Buckets) (x : ℕ)
    → get ((k, bits) ∷ m) x ≡ (if k == shift x then bit_at bits (x - shift x) else get m x)
unfolding get find
get-cons k bits m x = ground arith

get_below :
    (k bits : ℕ) (m : Buckets) (x : ℕ) → IsBitvector ((k, bits) ∷ m) → k ≡ shift x → get m x ≡ false
unfolding get
get_below k bits m x v h = ground (arith, find_below (suc k) (shift x) m v.sorted.1)

-- An aligned bucket holds the numbers with its shift.
same_bucket : (k x : ℕ) → k % 64 ≡ 0 → (leb k x && ltb (x - k) 64) ≡ (k == shift x)
same_bucket k x h = ground arith

mem-nil : (x : ℕ) → mem [] x ≡ get [] x
unfolding mem get find
mem-nil x = refl

mem-elements_cons :
    (k bits x : ℕ) (ps es : List ℕ) (m : Buckets)
    → IsBitvector ((k, bits) ∷ m)
    → mem ps (x - k) ≡ (ltb (x - k) 64 && bit_at bits (x - k))
    → mem es x ≡ get m x
    → mem (map (λ pos. k + pos) ps ++ es) x ≡ get ((k, bits) ∷ m) x
mem-elements_cons k bits x ps es m v here rest =
    let head = mem-append (map (λ pos. k + pos) ps) es x in
    let moved = mem-map_add k ps x in
    let found = get-cons k bits m x in
    let bucket = same_bucket k x v.aligned.0 in
    elim (Bool-cases (k == shift x)) [
      | inl same ↦
          let e : k ≡ shift x = ground arith in
          ground (
            arith,
            head,
            moved,
            here,
            rest,
            found,
            bucket,
            get_below k bits m x v e,
            ap (λ t. bit_at bits (x - t)) e,
          )
      | inr other ↦ ground (arith, head, moved, here, rest, found, bucket)
    ]

-- An iteration over the vector visits exactly the numbers that get finds.
pub mem-elements : (m : Buckets) (x : ℕ) → IsBitvector m → mem (elements m) x ≡ get m x
unfolding elements
mem-elements [] x v = mem-nil x
mem-elements ((k, bits) ∷ m) x v =
    mem-elements_cons k bits x (positions 64 0 bits) (elements m) m v
      (ground (arith, mem-positions 64 0 bits (x - k)))
      (mem-elements m x (tail-IsBitvector k bits m v))

population-zero : (w : ℕ) → population w 0 ≡ 0
unfolding population
population-zero zero = refl
population-zero (suc w) = omega (arith, population-zero w)

pub count_bits-population : (rounds bits : ℕ) → count_bits rounds bits ≡ population rounds bits
unfolding count_bits population
count_bits-population zero bits = refl
count_bits-population (suc rounds) bits = elim (Bool-cases (bits == 0)) [
  | inl clear ↦ let e : bits ≡ 0 = ground arith in rw e (sym (population-zero (suc rounds)))
  | inr other ↦ ground (arith, count_bits-population rounds (bits / 2))
]

pub population_pos : (w b : ℕ) → b < 2 ^ w → b ≢ 0 → 0 < population w b
unfolding population
population_pos zero b h n = absurd (omega arith)
population_pos (suc w) b h n =
    ground (arith, population_pos w (b / 2) (omega (arith, pow-double w)))

-- The size of a vector is the number of bits set in its buckets, and it is 0 only for the empty
-- vector.
pub size-eq-zero : (m : Buckets) → IsBitvector m → (size m ≡ 0) ↔ (m ≡ [])
unfolding size
size-eq-zero [] v = (λ h. refl, λ h. refl)
size-eq-zero ((k, bits) ∷ m) v =
    let some_bit = population_pos 64 bits v.buckets.0.0 v.buckets.0.1 in
    (λ h. absurd (omega (arith, count_bits-population 64 bits)), λ h. cc)

-- A vector that is not empty has some bit set.
pub some_bit : (m : Buckets) → IsBitvector m → m ≢ [] → (i : ℕ) × (get m i ≡ true)
some_bit [] v h = absurd (h refl)
some_bit ((k, bits) ∷ m) v h =
    let (i, below, set) = bit_of_ne_zero 64 bits v.buckets.0.0 v.buckets.0.1 in
    (
      k + i,
      ground (
        arith,
        get-cons k bits m (k + i),
        v.aligned.0,
        bit_at-test_bit bits i v.buckets.0.0 below,
        ap (bit_at bits) (in_bucket i v.aligned.0 below),
      ),
    )
  where
    in_bucket : (i : ℕ) → k % 64 ≡ 0 → i < 64 → k + i - shift (k + i) ≡ i
    in_bucket i a l = omega arith
