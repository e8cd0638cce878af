-- ===== src/Bitvector/Union.antt =====
-- set(rhs): the union of two vectors.
use llvmdg.Common.{
  ℕ, suc, ◌%◌, ◌^◌, ◌<◌, ◌≡◌, refl, sym, ◌∙◌, ap, Bool, true, false, ◌||◌, [], ◌∷◌, ◌==◌,
  if◌then◌else◌, arith, Bool-cases, inl, inr,
}
use Prim.Native.Nat.{bit_or}
use llvmdg.Std.OrderedMap.{find, assign, Sorted-mono, assign-Sorted, All-assign, find_below}
use llvmdg.Std.Word.{test_bit}
use llvmdg.Std.Word.Laws.{test_bit-or, bit_or-lt, test_bit-zero, bit_of_ne_zero}
use llvmdg.Bitvector.{Buckets, shift, get, set_union}
use llvmdg.Bitvector.Order.{IsBucket, IsBitvector, word, word-lt, word-assign, get-test_bit}

-- A word is not zero once a word that is not zero was added to it.
bit_or-IsBucket : (a b : ℕ) → a < 2 ^ 64 → IsBucket b → IsBucket (bit_or a b)
bit_or-IsBucket a b h (lt, ne) = (
  bit_or-lt 64 a b h lt,
  λ e.
      let (i, below, set) = bit_of_ne_zero 64 b lt ne in
      ground (arith, ap (λ t. test_bit t i) e, test_bit-or a b i, test_bit-zero i),
)

assign_word-IsBitvector :
    (m : Buckets) (k bits : ℕ)
    → IsBitvector m
    → k % 64 ≡ 0
    → IsBucket bits
    → IsBitvector (assign k bits m)
assign_word-IsBitvector m k bits v a b = record {
  sorted = assign-Sorted 0 k bits m (omega arith) v.sorted;
  buckets = All-assign (λ e. IsBucket e.1) k bits m b v.buckets;
  aligned = All-assign (λ e. e.0 % 64 ≡ 0) k bits m a v.aligned;
}

-- The rest of a vector behind its first bucket
pub tail-IsBitvector : (k bits : ℕ) (m : Buckets) → IsBitvector ((k, bits) ∷ m) → IsBitvector m
tail-IsBitvector k bits m v = record {
  sorted = Sorted-mono 0 (suc k) m (omega arith) v.sorted.1;
  buckets = v.buckets.1;
  aligned = v.aligned.1;
}

word-tail :
    (k bits : ℕ) (m : Buckets) (j : ℕ)
    → IsBitvector ((k, bits) ∷ m)
    → (word ((k, bits) ∷ m) j ≡ (if k == j then bits else word m j))
      × ((k == j) ≡ true → word m j ≡ 0)
unfolding find
word-tail k bits m j v = (ground arith, λ h. ground (arith, find_below (suc k) j m v.sorted.1))

word-nil : (k : ℕ) → word [] k ≡ 0
unfolding find
word-nil k = refl

-- What the union makes of a vector, bucket by bucket.
record IsWordUnion (rhs m : Buckets) (r : Bool × Buckets) : Type 0 where
  valid : IsBitvector r.1
  words : (k i : ℕ) → test_bit (word r.1 k) i ≡ (test_bit (word m k) i || test_bit (word rhs k) i)
  unchanged : (k : ℕ) → r.0 ≡ false → word r.1 k ≡ word m k

set_union-IsWordUnion :
    (rhs m : Buckets) → IsBitvector rhs → IsBitvector m → IsWordUnion rhs m (set_union rhs m)
unfolding set_union
set_union-IsWordUnion [] m w v = record {
  valid = v;
  words = λ k i. ground (arith, ap (λ t. test_bit t i) (word-nil k), test_bit-zero i);
  unchanged = λ k q. refl;
}
set_union-IsWordUnion ((j, bits) ∷ rhs) m w v =
    let new = bit_or (word m j) bits in
    let valid =
      assign_word-IsBitvector m j new v w.aligned.0
        (bit_or-IsBucket (word m j) bits (word-lt m j v) w.buckets.0) in
    let ih = set_union-IsWordUnion rhs (assign j new m) (tail-IsBitvector j bits rhs w) valid in
    record {
      valid = ih.valid;
      words = λ k i.
          let (here, gone) = word-tail j bits rhs k w in
          let assigned = word-assign m j new k in
          elim (Bool-cases (j == k)) [
            | inl same ↦
                let e : j ≡ k = ground arith in
                ground (
                  arith,
                  ih.words k i,
                  assigned,
                  here,
                  ap (λ t. test_bit t i) (gone same),
                  test_bit-zero i,
                  test_bit-or (word m j) bits i,
                  ap (word m) e,
                )
            | inr other ↦ ground (arith, ih.words k i, assigned, here)
          ];
      unchanged = λ k q.
          let assigned = word-assign m j new k in
          elim (Bool-cases (j == k)) [
            | inl same ↦
                let e : j ≡ k = ground arith in
                ground (arith, ih.unchanged k, assigned, ap (word m) e)
            | inr other ↦ ground (arith, ih.unchanged k, assigned)
          ];
    }

-- What the union makes of a vector.
pub record IsUnion (rhs m : Buckets) (r : Bool × Buckets) : Type 0 where
  pub valid : IsBitvector r.1
  pub bits : (i : ℕ) → get r.1 i ≡ (get m i || get rhs i)
  pub unchanged : (i : ℕ) → r.0 ≡ false → get r.1 i ≡ get m i

-- The union has exactly the bits of the two vectors, leaves no bucket empty, and reports no change
-- only if no bit was added.
pub set_union-IsUnion :
    (rhs m : Buckets) → IsBitvector rhs → IsBitvector m → IsUnion rhs m (set_union rhs m)
set_union-IsUnion rhs m w v =
    let union = set_union-IsWordUnion rhs m w v in
    record {
      valid = union.valid;
      bits = λ i.
          get-test_bit (set_union rhs m).1 i union.valid
          ∙ ground
              (arith, union.words (shift i) (i % 64), get-test_bit m i v, get-test_bit rhs i w);
      unchanged = λ i q.
          get-test_bit (set_union rhs m).1 i union.valid
          ∙ (ap (λ t. test_bit t (i % 64)) (union.unchanged (shift i) q)
              ∙ sym (get-test_bit m i v));
    }
