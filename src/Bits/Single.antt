-- ===== src/Bits/Single.antt =====
-- `0x80 >> (n % 8)`: one bit of a byte set or cleared, as `splitBranch` and `setTail` of Prefix do.
use elastos_carrier_native.Prelude.{
  ℕ, ◌+◌, ◌-◌, ◌/◌, ◌^◌, ◌<◌, bit_and, bit_or, ◌≡◌, refl, true, ◌==◌, ==→≡, if◌then◌else◌, arith,
}
use elastos_carrier_native.Bits.{bit, bit_lt, bit-and, bit-or, and-lt, or-lt}
use elastos_carrier_native.Bits.Table.{table_of_truth, true_below}
use elastos_carrier_native.Bits.Mask.{digit_if}

abbrev pub single : ℕ → ℕ
single r = 0x80 / 2 ^ r

single_table :
    table_of_truth 8 (λ r. table_of_truth 8 (λ k. bit k (single r) == digit_if (r + k == 7))) ≡ true
unfolding table_of_truth bit digit_if
single_table = refl

inverted_table :
    table_of_truth 8
      (λ r. table_of_truth 8 (λ k. bit k (255 - single r) + digit_if (r + k == 7) == 1))
    ≡ true
unfolding table_of_truth bit digit_if
inverted_table = refl

small_table : table_of_truth 8 (λ r. single r + (255 - single r) == 255) ≡ true
unfolding table_of_truth
small_table = refl

bit-single : (r k : ℕ) → r < 8 → k < 8 → bit k (single r) ≡ digit_if (r + k == 7)
bit-single r k hr hk = ==→≡ _ _ (true_below 8 _ k (true_below 8 _ r single_table hr) hk)

bit-inverted : (r k : ℕ) → r < 8 → k < 8 → bit k (255 - single r) + digit_if (r + k == 7) ≡ 1
bit-inverted r k hr hk = ==→≡ _ _ (true_below 8 _ k (true_below 8 _ r inverted_table hr) hk)

pub bit-raise :
    (a r k : ℕ) → r < 8 → k < 8 → bit k (bit_or a (single r)) ≡ (if r + k == 7 then 1 else bit k a)
unfolding digit_if
bit-raise a r k hr hk = ground (arith, bit-or k a (single r), bit-single r k hr hk, bit_lt k a)

pub bit-clear :
    (a r k : ℕ)
    → r < 8
    → k < 8
    → bit k (bit_and a (255 - single r)) ≡ (if r + k == 7 then 0 else bit k a)
unfolding digit_if
bit-clear a r k hr hk =
    ground (arith, bit-and k a (255 - single r), bit-inverted r k hr hk, bit_lt k a)

pub raise-lt : (a r : ℕ) → a < 256 → r < 8 → bit_or a (single r) < 256
raise-lt a r ha hr =
    or-lt 8 a (single r) ha (omega (arith, ==→≡ _ _ (true_below 8 _ r small_table hr)))

pub clear-lt : (a r : ℕ) → a < 256 → bit_and a (255 - single r) < 256
clear-lt a r ha = and-lt 8 a (255 - single r) ha
