-- ===== src/Bitvector/Singleton.antt =====
-- The constructor of a vector with one bit.
use llvmdg.Common.{ℕ, ◌-◌, ◌%◌, ◌≡◌, ◌∙◌, ap, ◌==◌, arith}
use llvmdg.Std.OrderedMap.{find, assign}
use llvmdg.Std.Word.{test_bit}
use llvmdg.Std.Word.Laws.{test_bit-pow, test_bit-zero, pow-lt}
use llvmdg.Bitvector.{shift, get, singleton}
use llvmdg.Bitvector.Order.{IsBitvector, get-test_bit, shift-injective, word}

-- The vector with one bit
pub singleton-get : (n : ℕ) → IsBitvector (singleton n) × ((j : ℕ) → get (singleton n) j ≡ (n == j))
unfolding singleton find assign
singleton-get n = (valid, λ j. get-test_bit (singleton n) j valid ∙ one j)
  where
    valid : IsBitvector (singleton n)
    valid = record {
      sorted = (omega arith, tt);
      buckets = (
        (
          pow-lt (n - shift n) 64 (omega arith),
          λ e. ground (
            arith,
            ap (λ t. test_bit t (n - shift n)) e,
            test_bit-pow (n - shift n) (n - shift n),
            test_bit-zero (n - shift n),
          ),
        ),
        tt,
      );
      aligned = (omega arith, tt);
    }

    one : (j : ℕ) → test_bit (word (singleton n) (shift j)) (j % 64) ≡ (n == j)
    one j =
        ground
          (arith, test_bit-pow (n - shift n) (j % 64), test_bit-zero (j % 64), shift-injective n j)
