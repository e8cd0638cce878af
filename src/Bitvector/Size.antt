-- ===== src/Bitvector/Size.antt =====
-- A vector of size 1 has exactly one bit.
use llvmdg.Common.{ℕ, zero, suc, ◌-◌, ◌/◌, ◌<◌, ◌≡◌, refl, sym, ◌∙◌, ap, true, [], ◌∷◌, arith}
use llvmdg.Std.OrderedMap.{find}
use llvmdg.Std.Word.{bit_at, test_bit, population}
use llvmdg.Std.Word.Laws.{bit_at-test_bit}
use llvmdg.Bitvector.{Buckets, shift, get, size}
use llvmdg.Bitvector.Order.{IsBitvector}
use llvmdg.Bitvector.Union.{tail-IsBitvector}
use llvmdg.Bitvector.Elements.{count_bits-population, population_pos, size-eq-zero}

population_pos_at : (w b i : ℕ) → test_bit b i ≡ true → i < w → 0 < population w b
unfolding population test_bit
population_pos_at zero b i h l = absurd (omega arith)
population_pos_at (suc w) b zero h l = ground arith
population_pos_at (suc w) b (suc i) h l =
    ground (arith, population_pos_at w (b / 2) i h (omega arith))

population_one :
    (w b i j : ℕ)
    → population w b ≡ 1
    → test_bit b i ≡ true
    → test_bit b j ≡ true
    → i < w
    → j < w
    → i ≡ j
unfolding population test_bit
population_one zero b i j e h k l n = absurd (omega arith)
population_one (suc w) b zero zero e h k l n = refl
population_one (suc w) b zero (suc j) e h k l n =
    ground (arith, population_pos_at w (b / 2) j k (omega arith))
population_one (suc w) b (suc i) zero e h k l n =
    ground (arith, population_pos_at w (b / 2) i h (omega arith))
population_one (suc w) b (suc i) (suc j) e h k l n =
    let half = population_pos_at w (b / 2) i h (omega arith) in
    ap suc (population_one w (b / 2) i j (ground (arith, half)) h k (omega arith) (omega arith))

single-get :
    (k bits i : ℕ)
    → get ((k, bits) ∷ []) i ≡ true
    → (k ≡ shift i) × (bit_at bits (i - shift i) ≡ true)
unfolding get find
single-get k bits i h = (ground arith, ground arith)

-- In a vector whose size is 1, two bits that are set are the same.
pub size-one :
    (m : Buckets) (i j : ℕ) → IsBitvector m → size m ≡ 1 → get m i ≡ true → get m j ≡ true → i ≡ j
unfolding size
size-one [] i j v e h k = absurd (omega arith)
size-one ((k, bits) ∷ m) i j v e a b =
    let some_bit = population_pos 64 bits v.buckets.0.0 v.buckets.0.1 in
    let count = count_bits-population 64 bits in
    let rest : size m ≡ 0 = omega (arith, some_bit, count) in
    let last : m ≡ [] = (size-eq-zero m (tail-IsBitvector k bits m v)).0 rest in
    let (s, x) = single-get k bits i (ap (λ t. get ((k, bits) ∷ t) i) (sym last) ∙ a) in
    let (t, y) = single-get k bits j (ap (λ r. get ((k, bits) ∷ r) j) (sym last) ∙ b) in
    let same =
      population_one 64 bits (i - shift i) (j - shift j) (omega (arith, rest, count))
        (sym (bit_at-test_bit bits (i - shift i) v.buckets.0.0 (omega arith)) ∙ x)
        (sym (bit_at-test_bit bits (j - shift j) v.buckets.0.0 (omega arith)) ∙ y) (omega arith)
        (omega arith) in
    omega (arith, s, t, same)
