-- ===== src/Bits/Mask.antt =====
-- `0xff80 >> (n & 7)`, the mask of the leading bits of a byte, and a byte blended by it: the byte
-- arithmetic inside `bitsEqual` and `bitsCopy` of core/id.cc.
use Prim.Native.Nat.{bit_and-bitwise}
use elastos_carrier_native.Prelude.{
  ℕ, zero, suc, ◌+◌, ◌-◌, ◌/◌, ◌%◌, ◌^◌, ◌≤◌, ◌<◌, min, bit_and, bit_or, bit_xor, ◌≡◌, ◌↔◌, refl,
  sym, ap, ◌∙◌, Bool, true, false, leb, ◌==◌, ==→≡, if◌then◌else◌, arith,
}
use elastos_carrier_native.Bits.Table.{table_of_truth, true_below}
use elastos_carrier_native.Bits.{
  bit, bit_lt, bit-and, bit-or, bit-xor, bit-zero, and_step, and-lt, or-lt, xor-lt, byte_ext,
  differ_zero_iff,
}

and-zero_fuel : (n a : ℕ) → a ≤ n → bit_and a 0 ≡ 0
and-zero_fuel n zero h = simp bit_and-bitwise
and-zero_fuel zero (suc a) h = absurd (omega arith)
and-zero_fuel (suc n) (suc a) h =
    omega (arith, and_step (suc a) 0, and-zero_fuel n (suc a / 2) (omega arith))

and-zero : (a : ℕ) → bit_and a 0 ≡ 0
and-zero a = and-zero_fuel a a (omega arith)

-- `n & 0x07`.
pub and_seven : (n : ℕ) → bit_and n 7 ≡ n % 8
and_seven n =
    omega
      (arith, and_step n 7, and_step (n / 2) 3, and_step (n / 2 / 2) 1, and-zero (n / 2 / 2 / 2))

abbrev pub mask : ℕ → ℕ
mask r = 0xff80 / 2 ^ r

-- The digits of the mask and of its complement.
unfoldable pub digit_if : Bool → ℕ
digit_if true = 1
digit_if false = 0

mask_table :
    table_of_truth 8 (λ r. table_of_truth 8 (λ k. bit k (mask r) == digit_if (leb 7 (r + k))))
    ≡ true
unfolding table_of_truth bit digit_if
mask_table = refl

inverted_table :
    table_of_truth 8
      (λ r. table_of_truth 8 (λ k. bit k (255 - mask r % 256) + digit_if (leb 7 (r + k)) == 1))
    ≡ true
unfolding table_of_truth bit digit_if
inverted_table = refl

pub bit-mask : (r k : ℕ) → r < 8 → k < 8 → bit k (mask r) ≡ digit_if (leb 7 (r + k))
bit-mask r k hr hk = ==→≡ _ _ (true_below 8 _ k (true_below 8 _ r mask_table hr) hk)

pub bit-inverted :
    (r k : ℕ) → r < 8 → k < 8 → bit k (255 - mask r % 256) + digit_if (leb 7 (r + k)) ≡ 1
bit-inverted r k hr hk = ==→≡ _ _ (true_below 8 _ k (true_below 8 _ r inverted_table hr) hk)

-- The masked difference of two bytes is 0 exactly when their leading `r + 1` bits agree.
pub masked_zero :
    (a b r : ℕ)
    → a < 256
    → b < 256
    → r < 8
    → (bit_and (bit_xor a b) (mask r) ≡ 0) ↔ ((k : ℕ) → k < 8 → 7 ≤ r + k → bit k a ≡ bit k b)
unfolding digit_if
masked_zero a b r ha hb hr = (to, from)
  where
    digit :
        (k : ℕ)
        → bit k (bit_and (bit_xor a b) (mask r)) ≡ min (bit k (bit_xor a b)) (bit k (mask r))
    digit k = bit-and k (bit_xor a b) (mask r)

    to : bit_and (bit_xor a b) (mask r) ≡ 0 → (k : ℕ) → k < 8 → 7 ≤ r + k → bit k a ≡ bit k b
    to e k hk h = (differ_zero_iff _ _ (bit_lt k a) (bit_lt k b)).0 (
        sym (bit-xor k a b)
        ∙ ground
            (arith, digit k, ap (bit k) e, bit-zero k, bit-mask r k hr hk, bit_lt k (bit_xor a b)))

    from : ((k : ℕ) → k < 8 → 7 ≤ r + k → bit k a ≡ bit k b) → bit_and (bit_xor a b) (mask r) ≡ 0
    from h =
        byte_ext _ 0 (and-lt 8 (bit_xor a b) (mask r) (xor-lt 8 a b ha hb)) (omega arith) λ k hk.
          ground (
            arith,
            digit k,
            bit-zero k,
            bit-mask r k hr hk,
            bit-xor k a b,
            h k hk,
            (differ_zero_iff _ _ (bit_lt k a) (bit_lt k b)).1,
          )

-- The leading `r + 1` bits of `b`, the others of `a`.
pub bit-blend :
    (a b r k : ℕ)
    → r < 8
    → k < 8
    → bit k (bit_or (bit_and a (255 - mask r % 256)) (bit_and b (mask r)))
      ≡ (if leb 7 (r + k) then bit k b else bit k a)
unfolding digit_if
bit-blend a b r k hr hk = ground (
  arith,
  bit-or k (bit_and a (255 - mask r % 256)) (bit_and b (mask r)),
  bit-and k a (255 - mask r % 256),
  bit-and k b (mask r),
  bit-mask r k hr hk,
  bit-inverted r k hr hk,
  bit_lt k a,
  bit_lt k b,
)

pub blend-lt :
    (a b r : ℕ)
    → a < 256
    → b < 256
    → bit_or (bit_and a (255 - mask r % 256)) (bit_and b (mask r)) < 256
blend-lt a b r ha hb = or-lt 8 _ _ (and-lt 8 a (255 - mask r % 256) ha) (and-lt 8 b (mask r) hb)
