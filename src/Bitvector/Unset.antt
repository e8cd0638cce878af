-- ===== src/Bitvector/Unset.antt =====
-- unset: the bit is cleared and an empty bucket goes away; what the method returns is another matter.
use llvmdg.Common.{
  ℕ, ◌-◌, ◌%◌, ◌≡◌, ap, subst, ==_refl, Bool, true, false, none, ◌==◌, if◌then◌else◌, arith,
  Bool-cases, Option-cases, inl, inr,
}
use llvmdg.Std.OrderedMap.{find, assign, erase, find-erase, erase-Sorted, All-erase}
use llvmdg.Std.Word.{without_bit}
use llvmdg.Std.Word.Laws.{test_bit-without_bit, without_bit-lt}
use llvmdg.Bitvector.{Buckets, shift, get, unset}
use llvmdg.Bitvector.Order.{
  IsBucket, IsBitvector, word, word-lt, word-assign, get-test_bit, shift-injective,
  assign-IsBitvector,
}

-- What unset makes of a vector.
pub record IsBitUnset (i : ℕ) (m : Buckets) (r : Bool × Buckets) : Type 0 where
  pub valid : IsBitvector r.1
  pub bits : (j : ℕ) → get r.1 j ≡ (if i == j then false else get m j)

word-erase : (m : Buckets) (k j : ℕ) → word (erase k m) j ≡ (if k == j then 0 else word m j)
word-erase m k j = ground (arith, find-erase k j m)

erase-IsBitvector : (m : Buckets) (k : ℕ) → IsBitvector m → IsBitvector (erase k m)
erase-IsBitvector m k v = record {
  sorted = erase-Sorted 0 k m v.sorted;
  buckets = All-erase (λ e. IsBucket e.1) k m v.buckets;
  aligned = All-erase (λ e. e.0 % 64 ≡ 0) k m v.aligned;
}

module _ (i : ℕ) (m : Buckets) (v : IsBitvector m) where
  abbrev cleared : ℕ
  cleared = without_bit (word m (shift i)) (i % 64)

  -- A vector with the cleared word in the bucket of the bit.
  cleared_bits :
      (r : Buckets) (j : ℕ)
      → IsBitvector r
      → ((k : ℕ) → word r k ≡ (if shift i == k then cleared else word m k))
      → get r j ≡ (if i == j then false else get m j)
  cleared_bits r j valid words = elim (Bool-cases (shift i == shift j)) [
    | inl same ↦
        let e : shift i ≡ shift j = ground arith in
        ground (
          arith,
          get-test_bit r j valid,
          get-test_bit m j v,
          words (shift j),
          test_bit-without_bit (word m (shift i)) (i % 64) (j % 64) (word-lt m (shift i) v)
              (omega arith),
          shift-injective i j,
          ap (word m) e,
        )
    | inr other ↦
        ground
          (arith, get-test_bit r j valid, get-test_bit m j v, words (shift j), shift-injective i j)
  ]

  no_bucket : (j : ℕ) → find (shift i) m ≡ none → get m j ≡ (if i == j then false else get m j)
  unfolding get
  no_bucket j missing = elim (Bool-cases (i == j)) [
    | inl same ↦ let e : i ≡ j = ground arith in rw (← e, get, missing) (ground (arith, ==_refl i))
    | inr other ↦ rw other
  ]

  -- unset clears the bit, changes no other one, and leaves no bucket empty.
  pub unset-IsBitUnset : IsBitUnset i m (unset i m)
  unfolding unset
  unset-IsBitUnset =
      let off : i - shift i ≡ i % 64 = omega arith in
      elim (Option-cases (find (shift i) m)) [
        | inl missing ↦ rw (missing, unset) (record { valid = v; bits = λ j. no_bucket j missing })
        | inr (bits, e) ↦
            let same : bits ≡ word m (shift i) = rw e in
            elim (Bool-cases (cleared == 0)) [
              | inl gone ↦
                  let valid = erase-IsBitvector m (shift i) v in
                  rw (e, off, same, gone, unset)
                    (record {
                      valid = valid;
                      bits = λ j.
                          cleared_bits (erase (shift i) m) j valid
                            (λ k. ground (arith, word-erase m (shift i) k));
                    })
              | inr left ↦
                  let bucket : IsBucket cleared = (
                    without_bit-lt (word m (shift i)) (i % 64) (word-lt m (shift i) v),
                    ground arith,
                  ) in
                  let valid = assign-IsBitvector m i cleared v bucket in
                  rw (e, off, same, left, unset)
                    (record {
                      valid = valid;
                      bits = λ j.
                          cleared_bits (assign (shift i) cleared m) j valid
                            (λ k. word-assign m (shift i) cleared k);
                    })
            ]
      ]

  -- unset returns true for a bit that is not set, as soon as another bit of its bucket is.
  pub unset_reports :
      (j : ℕ) → get m i ≡ false → get m j ≡ true → shift i ≡ shift j → (unset i m).0 ≡ true
  unfolding unset get
  unset_reports j clear set_there same = elim (Option-cases (find (shift i) m)) [
    | inl missing ↦ ground (arith, subst (λ k. find k m ≡ none) same missing)
    | inr (bits, e) ↦ rw (e, unset)
  ]
