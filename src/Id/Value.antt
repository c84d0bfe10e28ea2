-- ===== src/Id/Value.antt =====
-- The bits of an Id are the digits of its number.
use native.Mathlib.Nat.{pow-suc}
use elastos_carrier_native.Prelude.{
  ℕ, zero, suc, ◌+◌, ◌-◌, ◌*◌, ◌^◌, ◌≤◌, ◌<◌, ◌≡◌, refl, [], ◌∷◌, length, dec_lt, arith,
}
use elastos_carrier_native.Bits.{bit}
use elastos_carrier_native.Bits.Number.{bit_beyond, bit-join}
use elastos_carrier_native.Id.{NodeId, IsId, IsBytes}
use elastos_carrier_native.Id.Bytes.{id_bit}
use elastos_carrier_native.Id.Order.{id_value, id_value-lt}
use elastos_carrier_native.Id.Zeros.{id_bit-low, id_bit-high}

pow-bytes : (n : ℕ) → 256 ^ n ≡ 2 ^ (8 * n)
pow-bytes zero = refl
pow-bytes (suc n) =
    let e : 8 * suc n ≡ suc (suc (suc (suc (suc (suc (suc (suc (8 * n)))))))) = omega arith in
    rw e (
      omega (
        arith,
        pow-bytes n,
        pow-suc 256 n,
        pow-suc 2 (8 * n),
        pow-suc 2 (suc (8 * n)),
        pow-suc 2 (suc (suc (8 * n))),
        pow-suc 2 (suc (suc (suc (8 * n)))),
        pow-suc 2 (suc (suc (suc (suc (8 * n))))),
        pow-suc 2 (suc (suc (suc (suc (suc (8 * n)))))),
        pow-suc 2 (suc (suc (suc (suc (suc (suc (8 * n))))))),
        pow-suc 2 (suc (suc (suc (suc (suc (suc (suc (8 * n)))))))),
      ))

-- Digit `k` of the number, from the lowest, is bit `8 * size - 1 - k` of the Id, from the highest.
pub bit-id_value :
    (x : NodeId) (k i : ℕ) → IsBytes x → k + i + 1 ≡ 8 * length x → bit k (id_value x) ≡ id_bit x i
unfolding id_value
bit-id_value [] k i h e = absurd (omega arith)
bit-id_value (b ∷ bs) k i h e =
    rw (pow-bytes (length bs), bit-join (8 * length bs) k b (id_value bs) small)
      (elim (dec_lt k (8 * length bs)) [
        | yes lt ↦
            rw (id_bit-high b bs i (i - 8) (omega arith))
              (ground (arith, bit-id_value bs k (i - 8) h.1 (omega arith)))
        | no ge ↦
            let top : 7 - i ≡ k - 8 * length bs = omega arith in
            rw (id_bit-low b bs i (omega arith), top) (ground arith)
      ])
  where
    small : id_value bs < 2 ^ (8 * length bs)
    small = omega (arith, pow-bytes (length bs), id_value-lt bs h.1)

pub id_value-below : (x : NodeId) → IsId x → id_value x < 2 ^ 256
id_value-below x h = let e : 256 ^ length x ≡ 2 ^ 256 = rw h.size in rw e at (id_value-lt x h.bytes)

pub bit-id_value_beyond : (x : NodeId) (k : ℕ) → IsId x → 256 ≤ k → bit k (id_value x) ≡ 0
bit-id_value_beyond x k h g = bit_beyond 256 k (id_value x) (id_value-below x h) g
