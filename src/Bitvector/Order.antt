-- ===== src/Bitvector/Order.antt =====
-- What the bit vector keeps of its buckets, and each operation by the bits that get sees.
use llvmdg.Common.{
  ℕ, ◌-◌, ◌%◌, ◌^◌, ◌<◌, ◌≡◌, ◌≢◌, refl, sym, ◌∙◌, ap, Bool, false, ◌&&◌, ◌||◌, [], ◌==◌,
  if◌then◌else◌, All, arith, Bool-cases, Option-cases, inl, inr,
}
use llvmdg.Std.OrderedMap.{
  find, assign, value_or, Sorted, find-assign, assign-Sorted, All-assign, All-find,
}
use llvmdg.Std.Word.{with_bit, test_bit}
use llvmdg.Std.Word.Laws.{bit_at-test_bit, test_bit-with_bit, with_bit-lt, test_bit-zero}
use llvmdg.Bitvector.{Buckets, shift, get, set}

-- A bucket of the map: its bits are a word, and it is not empty.
abbrev pub IsBucket : ℕ → Type 0
IsBucket bits = (bits < 2 ^ 64) × (bits ≢ 0)

pub record IsBitvector (m : Buckets) : Type 0 where
  pub sorted : Sorted 0 m
  pub buckets : All (λ e. IsBucket e.1) m
  pub aligned : All (λ e. e.0 % 64 ≡ 0) m

-- The word of a bucket, 0 where there is none.
abbrev pub word : Buckets → ℕ → ℕ
word m k = value_or 0 (find k m)

pub word-lt : (m : Buckets) (k : ℕ) → IsBitvector m → word m k < 2 ^ 64
word-lt m k v = elim (Option-cases (find k m)) [
  | inl missing ↦ rw missing (omega arith)
  | inr (bits, e) ↦ rw e (All-find IsBucket k bits m v.buckets e).0
]

-- get reads a bit of the word.
pub get-test_bit :
    (m : Buckets) (i : ℕ) → IsBitvector m → get m i ≡ test_bit (word m (shift i)) (i % 64)
unfolding get
get-test_bit m i v =
    let off : i - shift i ≡ i % 64 = omega arith in
    elim (Option-cases (find (shift i) m)) [
      | inl missing ↦ rw (missing, get) (sym (test_bit-zero (i % 64)))
      | inr (bits, e) ↦
          rw (e, off, get)
            (bit_at-test_bit bits (i % 64) (All-find IsBucket (shift i) bits m v.buckets e).0
              (omega arith))
    ]

-- Two numbers with the same shift and the same offset are equal.
pub shift-injective : (i j : ℕ) → (i == j) ≡ (shift i == shift j && i % 64 == j % 64)
shift-injective i j = ground arith

-- A write of a bucket's word that is not zero.
pub assign-IsBitvector :
    (m : Buckets) (i bits : ℕ)
    → IsBitvector m
    → IsBucket bits
    → IsBitvector (assign (shift i) bits m)
assign-IsBitvector m i bits v b = record {
  sorted = assign-Sorted 0 (shift i) bits m (omega arith) v.sorted;
  buckets = All-assign (λ e. IsBucket e.1) (shift i) bits m b v.buckets;
  aligned = All-assign (λ e. e.0 % 64 ≡ 0) (shift i) bits m (omega arith) v.aligned;
}

with_bit-IsBucket : (bits k : ℕ) → bits < 2 ^ 64 → k < 64 → IsBucket (with_bit bits k)
with_bit-IsBucket bits k h l = (
  with_bit-lt bits k h l,
  λ e. ground (arith, ap (λ t. test_bit t k) e, test_bit-with_bit bits k k, test_bit-zero k),
)

pub word-assign :
    (m : Buckets) (k bits j : ℕ) → word (assign k bits m) j ≡ (if k == j then bits else word m j)
word-assign m k bits j = ground (arith, find-assign k j bits m)

-- What set makes of a vector.
pub record IsBitSet (i : ℕ) (m : Buckets) (r : Bool × Buckets) : Type 0 where
  pub valid : IsBitvector r.1
  pub bits : (j : ℕ) → get r.1 j ≡ (i == j || get m j)
  pub previous : r.0 ≡ get m i

-- set sets the bit, changes no other one, returns the previous value of the bit, and leaves no bucket
-- empty.
pub set-IsBitSet : (i : ℕ) (m : Buckets) → IsBitvector m → IsBitSet i m (set i m)
unfolding set
set-IsBitSet i m v =
    let off : i - shift i ≡ i % 64 = omega arith in
    let old = word m (shift i) in
    let bucket = with_bit-IsBucket old (i % 64) (word-lt m (shift i) v) (omega arith) in
    let valid = assign-IsBitvector m i (with_bit old (i % 64)) v bucket in
    rw off (record {
      valid = valid;
      bits = λ j. set_bits j valid;
      previous =
          bit_at-test_bit old (i % 64) (word-lt m (shift i) v) (omega arith)
          ∙ sym (get-test_bit m i v);
    })
  where
    set_bits :
        (j : ℕ)
        → IsBitvector (assign (shift i) (with_bit (word m (shift i)) (i % 64)) m)
        → get (assign (shift i) (with_bit (word m (shift i)) (i % 64)) m) j ≡ (i == j || get m j)
    set_bits j valid = elim (Bool-cases (shift i == shift j)) [
      | inl same ↦
          let e : shift i ≡ shift j = ground arith in
          ground (
            arith,
            get-test_bit (assign (shift i) (with_bit (word m (shift i)) (i % 64)) m) j valid,
            get-test_bit m j v,
            word-assign m (shift i) (with_bit (word m (shift i)) (i % 64)) (shift j),
            test_bit-with_bit (word m (shift i)) (i % 64) (j % 64),
            shift-injective i j,
            ap (word m) e,
          )
      | inr other ↦ ground (
        arith,
        get-test_bit (assign (shift i) (with_bit (word m (shift i)) (i % 64)) m) j valid,
        get-test_bit m j v,
        word-assign m (shift i) (with_bit (word m (shift i)) (i % 64)) (shift j),
        shift-injective i j,
      )
    ]

pub nil-IsBitvector : IsBitvector []
nil-IsBitvector = record { sorted = tt; buckets = tt; aligned = tt }

pub get-nil : (q : ℕ) → get [] q ≡ false
unfolding get find
get-nil q = refl
