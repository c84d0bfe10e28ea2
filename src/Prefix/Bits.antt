-- ===== src/Prefix/Bits.antt =====
-- What the operations of Prefix do to each bit.
use elastos_carrier_native.Prelude.{
  ℕ, zero, suc, ◌-◌, ◌/◌, ◌%◌, ◌≤◌, ◌<◌, ◌≡◌, refl, ◌↔◌, bit_and, bit_or, true, ltb, ◌==◌,
  if◌then◌else◌, set, replicate, All-set, length-set, get_or-set_self, get_or-set_ne, ℕ_discrete, ℤ,
  pos, negsuc, arith,
}
use elastos_carrier_native.Bits.{bit-zero}
use elastos_carrier_native.Bits.Single.{single, bit-raise, bit-clear, raise-lt, clear-lt}
use elastos_carrier_native.Id.{NodeId, IsId, zero_id, max_id, byte_at, bits_equal, bits_copy}
use elastos_carrier_native.Id.Bytes.{id_bit, byte_at_lt}
use elastos_carrier_native.Id.BitsEqual.{bits_equal_iff}
use elastos_carrier_native.Id.BitsCopy.{bits_copy-IsId, id_bit-bits_copy}
use elastos_carrier_native.Prefix.{clear_at, raise_at, fixed_bits}

-- The first `n` bits of two Ids agree.
abbrev pub AgreeBelow : ℕ → NodeId → NodeId → Type 0
AgreeBelow n x y = (i : ℕ) → i < n → id_bit x i ≡ id_bit y i

pub bits_equal-AgreeBelow :
    (x y : NodeId) (d : ℤ)
    → IsId x
    → IsId y
    → fixed_bits d ≤ 256
    → (bits_equal x y d ≡ true) ↔ AgreeBelow (fixed_bits d) x y
unfolding bits_equal
bits_equal-AgreeBelow x y (negsuc n) hx hy h = (λ e i hi. absurd (omega arith), λ a. refl)
bits_equal-AgreeBelow x y (pos n) hx hy h =
    let both = bits_equal_iff x y n hx hy (omega arith) in
    (λ e i hi. both.0 e i (omega arith), λ a. both.1 (λ i hi. a i (omega arith)))

pub copied-IsId : (src dest : NodeId) (d : ℤ) → IsId src → IsId dest → IsId (bits_copy src dest d)
unfolding bits_copy
copied-IsId src dest (negsuc n) hs hd = hd
copied-IsId src dest (pos n) hs hd = bits_copy-IsId src dest n hs hd

pub copied_bit :
    (src dest : NodeId) (d : ℤ)
    → IsId src
    → IsId dest
    → fixed_bits d ≤ 256
    → (i : ℕ)
    → id_bit (bits_copy src dest d) i
      ≡ (if ltb i (fixed_bits d) then id_bit src i else id_bit dest i)
unfolding bits_copy
copied_bit src dest (negsuc n) hs hd h i = ground arith
copied_bit src dest (pos n) hs hd h i =
    ground (arith, id_bit-bits_copy src dest n hs hd (omega arith) i)

pub zero_id-IsId : IsId zero_id
zero_id-IsId = record { size = refl; bytes = omega arith }

pub max_id-IsId : IsId max_id
max_id-IsId = record { size = refl; bytes = omega arith }

byte_at-replicate_zero : (n q : ℕ) → byte_at (replicate n 0) q ≡ 0
byte_at-replicate_zero zero q = refl
byte_at-replicate_zero (suc n) zero = refl
byte_at-replicate_zero (suc n) (suc q) = byte_at-replicate_zero n q

pub id_bit-zero_id : (i : ℕ) → id_bit zero_id i ≡ 0
id_bit-zero_id i = rw (byte_at-replicate_zero 32 (i / 8)) (bit-zero (7 - i % 8))

-- One bit set or cleared.
at-IsId : (x : NodeId) (q v : ℕ) → IsId x → v < 256 → IsId (set x q v)
at-IsId x q v h hv = record {
  size = omega (arith, length-set x q v, h.size);
  bytes = All-set (λ b. b < 256) x q v h.bytes hv;
}

pub clear_at-IsId : (x : NodeId) (n : ℕ) → IsId x → IsId (clear_at x n)
clear_at-IsId x n h =
    at-IsId x (n / 8) _ h (clear-lt (byte_at x (n / 8)) (n % 8) (byte_at_lt x (n / 8) h.bytes))

pub raise_at-IsId : (x : NodeId) (n : ℕ) → IsId x → IsId (raise_at x n)
raise_at-IsId x n h =
    at-IsId x (n / 8) _ h
      (raise-lt (byte_at x (n / 8)) (n % 8) (byte_at_lt x (n / 8) h.bytes) (omega arith))

pub id_bit-clear_at :
    (x : NodeId) (n i : ℕ)
    → IsId x
    → n < 256
    → id_bit (clear_at x n) i ≡ (if i == n then 0 else id_bit x i)
id_bit-clear_at x n i h small = elim (ℕ_discrete (n / 8) (i / 8)) [
  | yes hit ↦
      rw
        (
          ← hit,
          get_or-set_self x (n / 8) (bit_and (byte_at x (n / 8)) (255 - single (n % 8))) 0
              (omega (arith, h.size)),
        )
        (ground (arith, bit-clear (byte_at x (n / 8)) (n % 8) (7 - i % 8)))
  | no miss ↦
      rw
        (get_or-set_ne x (n / 8) (i / 8) (bit_and (byte_at x (n / 8)) (255 - single (n % 8))) 0
          miss)
        (ground arith)
]

pub id_bit-raise_at :
    (x : NodeId) (n i : ℕ)
    → IsId x
    → n < 256
    → id_bit (raise_at x n) i ≡ (if i == n then 1 else id_bit x i)
id_bit-raise_at x n i h small = elim (ℕ_discrete (n / 8) (i / 8)) [
  | yes hit ↦
      rw
        (
          ← hit,
          get_or-set_self x (n / 8) (bit_or (byte_at x (n / 8)) (single (n % 8))) 0
              (omega (arith, h.size)),
        )
        (ground (arith, bit-raise (byte_at x (n / 8)) (n % 8) (7 - i % 8)))
  | no miss ↦
      rw (get_or-set_ne x (n / 8) (i / 8) (bit_or (byte_at x (n / 8)) (single (n % 8))) 0 miss)
        (ground arith)
]
