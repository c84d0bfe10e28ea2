-- ===== src/Id/BitsEqual.antt =====
-- `bitsEqual` of core/id.cc, which compares whole bytes and a masked one, against its meaning bit by
-- bit.
use elastos_carrier_native.Prelude.{
  ℕ, ◌+◌, ◌*◌, ◌-◌, ◌/◌, ◌%◌, ◌≤◌, ◌<◌, ◌≡◌, sym, subst, ap, ◌∙◌, ◌↔◌, bit_and, bit_xor, true, ltb,
  ◌==◌, if◌then◌else◌, inl, inr, dec_lt, ℕ_discrete, Option-cases, arith, pos,
}
use elastos_carrier_native.Bits.{bit}
use elastos_carrier_native.Bits.Mask.{mask, and_seven, masked_zero}
use elastos_carrier_native.Id.{NodeId, IsId, byte_at, mismatch, mismatch_or_max, bits_equal}
use elastos_carrier_native.Id.Bytes.{
  id_bit, byte_at_lt, byte_at_ext, mismatch-none, mismatch-some, IsMismatch,
}

-- The bits up to `n` of two Ids agree.
abbrev pub AgreeTo : ℕ → NodeId → NodeId → Type 0
AgreeTo n x y = (i : ℕ) → i ≤ n → id_bit x i ≡ id_bit y i

abbrev bits_diff : NodeId → NodeId → ℕ → ℕ
bits_diff x y n = bit_and (bit_xor (byte_at x (n / 8)) (byte_at y (n / 8))) (mask (n % 8))

bits_equal-bits_diff :
    (x y : NodeId) (n : ℕ)
    → bits_equal x y (pos n) ≡ (
        let mmi = mismatch_or_max (mismatch x y) in
        if mmi == n / 8 then bits_diff x y n == 0 else ltb (n / 8) mmi)
unfolding bits_equal
bits_equal-bits_diff x y n = rw (and_seven n)

module _ (x y : NodeId) (n : ℕ) (hx : IsId x) (hy : IsId y) (small : n < 256) where
  same_byte : (q : ℕ) → q * 8 + 7 ≤ n → AgreeTo n x y → byte_at x q ≡ byte_at y q
  same_byte q h agree =
      byte_at_ext x y q hx.bytes hy.bytes (λ j hj. agree (q * 8 + j) (omega arith))

  last_byte :
      (bits_diff x y n ≡ 0)
      ↔ ((k : ℕ) → k < 8 → 7 ≤ n % 8 + k → bit k (byte_at x (n / 8)) ≡ bit k (byte_at y (n / 8)))
  last_byte =
      masked_zero _ _ (n % 8) (byte_at_lt x _ hx.bytes) (byte_at_lt y _ hy.bytes) (omega arith)

  last_bits : AgreeTo n x y → bits_diff x y n ≡ 0
  last_bits agree = last_byte.1 λ k hk h.
      let quotient : (n / 8 * 8 + (7 - k)) / 8 ≡ n / 8 = omega arith in
      let remainder : 7 - (n / 8 * 8 + (7 - k)) % 8 ≡ k = omega arith in
      rw quotient at (rw remainder at (agree (n / 8 * 8 + (7 - k)) (omega arith)))

  agree_before : (m : ℕ) → IsMismatch x y m → n / 8 < m → AgreeTo n x y
  agree_before m h lt i hi = ap (bit (7 - i % 8)) (h.before (i / 8) (omega arith))

  agree_at : IsMismatch x y (n / 8) → bits_diff x y n ≡ 0 → AgreeTo n x y
  agree_at h e i hi = elim (dec_lt (i / 8) (n / 8)) [
    | yes lt ↦ ap (bit (7 - i % 8)) (h.before (i / 8) lt)
    | no ge ↦
        let q : i / 8 ≡ n / 8 = omega arith in
        rw q (last_byte.0 e (7 - i % 8) (omega arith) (omega arith))
  ]

  sound : bits_equal x y (pos n) ≡ true → AgreeTo n x y
  sound e = elim (Option-cases (mismatch x y)) [
    | inl same ↦
        let xy : x ≡ y = mismatch-none x y (hx.size ∙ sym hy.size) same in
        λ i hi. ap (λ z. id_bit z i) xy
    | inr (m, found) ↦
        let h = mismatch-some x y m found in
        let t = rw found at (sym (bits_equal-bits_diff x y n) ∙ e) in
        elim (ℕ_discrete m (n / 8)) [
          | yes hit ↦ agree_at (subst (IsMismatch x y) hit h) (ground arith)
          | no miss ↦ agree_before m h (ground arith)
        ]
  ]

  complete : AgreeTo n x y → bits_equal x y (pos n) ≡ true
  complete agree = bits_equal-bits_diff x y n ∙ elim (Option-cases (mismatch x y)) [
    | inl same ↦ rw same (ground arith)
    | inr (m, found) ↦
        let h = mismatch-some x y m found in
        rw found (elim (dec_lt m (n / 8)) [
          | yes lt ↦ absurd (h.differs (same_byte m (omega arith) agree))
          | no ge ↦ ground (arith, last_bits agree)
        ])
  ]

-- `bitsEqual` of two Ids up to bit `n`, below 256, is true exactly if the bits 0 to `n` agree.
pub bits_equal_iff :
    (x y : NodeId) (n : ℕ)
    → IsId x
    → IsId y
    → n < 256
    → (bits_equal x y (pos n) ≡ true) ↔ AgreeTo n x y
bits_equal_iff x y n hx hy small = (sound x y n hx hy small, complete x y n hx hy small)
