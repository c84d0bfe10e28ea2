-- ===== src/Id/BitsCopy.antt =====
-- `bitsCopy` of core/id.cc, which copies whole bytes and blends one by a mask, against its meaning
-- bit by bit.
use elastos_carrier_native.Prelude.{
  ℕ, zero, suc, ◌-◌, ◌/◌, ◌%◌, ◌<◌, ◌≡◌, refl, sym, ap, ◌∙◌, bit_and, bit_or, [], ◌∷◌, ◌++◌, ltb,
  leb, if◌then◌else◌, length, set, take, drop, All-set, length-set, get_or-set_self, get_or-set_ne,
  ℕ_discrete, arith, pos,
}
use elastos_carrier_native.Bits.Mask.{mask, and_seven, bit-blend, blend-lt}
use elastos_carrier_native.Id.{NodeId, IsId, IsBytes, byte_at, bits_copy}
use elastos_carrier_native.Id.Bytes.{id_bit, byte_at_lt}

abbrev splice : ℕ → NodeId → NodeId → NodeId
splice k xs ys = take k xs ++ drop k ys

length-splice :
    (k : ℕ) (xs ys : NodeId) → length xs ≡ length ys → length (splice k xs ys) ≡ length ys
length-splice zero xs ys e = refl
length-splice (suc k) [] [] e = refl
length-splice (suc k) [] (y ∷ ys) e = absurd (omega arith)
length-splice (suc k) (x ∷ xs) [] e = absurd (omega arith)
length-splice (suc k) (x ∷ xs) (y ∷ ys) e = ap suc (length-splice k xs ys (omega arith))

splice-IsBytes :
    (k : ℕ) (xs ys : NodeId)
    → length xs ≡ length ys
    → IsBytes xs
    → IsBytes ys
    → IsBytes (splice k xs ys)
splice-IsBytes zero xs ys e hx hy = hy
splice-IsBytes (suc k) [] [] e hx hy = tt
splice-IsBytes (suc k) [] (y ∷ ys) e hx hy = absurd (omega arith)
splice-IsBytes (suc k) (x ∷ xs) [] e hx hy = absurd (omega arith)
splice-IsBytes (suc k) (x ∷ xs) (y ∷ ys) e hx hy =
    (hx.0, splice-IsBytes k xs ys (omega arith) hx.1 hy.1)

byte_at-splice :
    (k : ℕ) (xs ys : NodeId) (q : ℕ)
    → length xs ≡ length ys
    → byte_at (splice k xs ys) q ≡ (if ltb q k then byte_at xs q else byte_at ys q)
byte_at-splice zero xs ys q e = ground arith
byte_at-splice (suc k) [] [] q e = ground arith
byte_at-splice (suc k) [] (y ∷ ys) q e = absurd (omega arith)
byte_at-splice (suc k) (x ∷ xs) [] q e = absurd (omega arith)
byte_at-splice (suc k) (x ∷ xs) (y ∷ ys) zero e = ground arith
byte_at-splice (suc k) (x ∷ xs) (y ∷ ys) (suc q) e = ground (arith, byte_at-splice k xs ys q)

abbrev blend : ℕ → ℕ → ℕ → ℕ
blend a b r = bit_or (bit_and a (255 - mask r % 256)) (bit_and b (mask r))

module _ (src dest : NodeId) (n : ℕ) (hs : IsId src) (hd : IsId dest) where
  abbrev spliced : NodeId
  spliced = splice (n / 8) src dest

  same_length : length src ≡ length dest
  same_length = hs.size ∙ sym hd.size

  copy_form :
      bits_copy src dest (pos n)
      ≡ set spliced (n / 8) (blend (byte_at spliced (n / 8)) (byte_at src (n / 8)) (n % 8))
  unfolding bits_copy
  copy_form = rw (and_seven n)

  last_byte_lt : blend (byte_at spliced (n / 8)) (byte_at src (n / 8)) (n % 8) < 256
  last_byte_lt =
      blend-lt _ _ (n % 8)
        (byte_at_lt spliced _ (splice-IsBytes (n / 8) src dest same_length hs.bytes hd.bytes))
        (byte_at_lt src _ hs.bytes)

  copy-IsId : IsId (bits_copy src dest (pos n))
  copy-IsId = rw copy_form (record {
    size = length-set spliced _ _ ∙ length-splice (n / 8) src dest same_length ∙ hd.size;
    bytes =
        All-set (λ b. b < 256) spliced _ _
          (splice-IsBytes (n / 8) src dest same_length hs.bytes hd.bytes) last_byte_lt;
  })

  copied_bit :
      n < 256
      → (i : ℕ)
      → id_bit (bits_copy src dest (pos n)) i ≡ (if leb i n then id_bit src i else id_bit dest i)
  copied_bit small i = rw copy_form (elim (ℕ_discrete (n / 8) (i / 8)) [
    | yes hit ↦
        rw
          (
            ← hit,
            get_or-set_self spliced (n / 8)
                (blend (byte_at spliced (n / 8)) (byte_at src (n / 8)) (n % 8)) 0 inside,
          )
          (ground (
            arith,
            bit-blend (byte_at spliced (n / 8)) (byte_at src (n / 8)) (n % 8) (7 - i % 8),
            byte_at-splice (n / 8) src dest (n / 8) same_length,
          ))
    | no miss ↦
        rw
          (get_or-set_ne spliced (n / 8) (i / 8)
            (blend (byte_at spliced (n / 8)) (byte_at src (n / 8)) (n % 8)) 0 miss)
          (ground (arith, byte_at-splice (n / 8) src dest (i / 8) same_length))
  ])
    where
      inside : n / 8 < length spliced
      inside = omega (arith, length-splice (n / 8) src dest same_length, hd.size)

-- `bitsCopy` of two Ids yields an Id.
pub bits_copy-IsId :
    (src dest : NodeId) (n : ℕ) → IsId src → IsId dest → IsId (bits_copy src dest (pos n))
bits_copy-IsId = copy-IsId

-- After `bitsCopy` up to bit `n`, below 256, the bits up to `n` are those of the source and the
-- others those of the destination.
pub id_bit-bits_copy :
    (src dest : NodeId) (n : ℕ)
    → IsId src
    → IsId dest
    → n < 256
    → (i : ℕ)
    → id_bit (bits_copy src dest (pos n)) i ≡ (if leb i n then id_bit src i else id_bit dest i)
id_bit-bits_copy = copied_bit
