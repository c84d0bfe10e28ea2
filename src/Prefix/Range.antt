-- ===== src/Prefix/Range.antt =====
-- A prefix as an interval of keys, with `first` and `last` as its ends.
use elastos_carrier_native.Prelude.{
  ℕ, zero, suc, ◌+◌, ◌-◌, ◌*◌, ◌/◌, ◌%◌, ◌^◌, ◌≤◌, ◌<◌, ◌≡◌, refl, sym, ◌∙◌, ◌↔◌, true, [], ◌∷◌,
  ltb, if◌then◌else◌, length, replicate, bit_xor, ◌==◌, ==→≡, dec_lt, arith,
}
use elastos_carrier_native.Bits.{bit, bit_lt, bit-xor}
use elastos_carrier_native.Bits.Table.{table_of_truth, true_below}
use elastos_carrier_native.Bits.Number.{
  drop_bits, drop_bits-eq, bit-drop_bits, drop_bits_zeros, drop_bits_ones, drop_bits_iff,
}
use elastos_carrier_native.Id.{
  NodeId, IsId, zero_id, max_id, byte_at, distance, bits_copy, bits_equal,
}
use elastos_carrier_native.Id.Bytes.{id_bit}
use elastos_carrier_native.Id.Order.{id_value}
use elastos_carrier_native.Id.Distance.{distance-IsId}
use elastos_carrier_native.Id.Value.{bit-id_value, bit-id_value_beyond, id_value-below}
use elastos_carrier_native.Prefix.{Prefix, IsPrefix, is_prefix_of, first, last, fixed_bits}
use elastos_carrier_native.Prefix.Bits.{
  AgreeBelow, bits_equal-AgreeBelow, copied-IsId, copied_bit, zero_id-IsId, id_bit-zero_id,
  max_id-IsId,
}
use Prim.Native.Nat.{differ}

byte_at-distance :
    (x y : NodeId) (q : ℕ)
    → length x ≡ length y
    → byte_at (distance x y) q ≡ bit_xor (byte_at x q) (byte_at y q)
unfolding distance
byte_at-distance [] [] q e = refl
byte_at-distance [] (y ∷ ys) q e = absurd (omega arith)
byte_at-distance (x ∷ xs) [] q e = absurd (omega arith)
byte_at-distance (x ∷ xs) (y ∷ ys) zero e = refl
byte_at-distance (x ∷ xs) (y ∷ ys) (suc q) e = byte_at-distance xs ys q (omega arith)

id_bit-distance :
    (x y : NodeId) (i : ℕ)
    → IsId x
    → IsId y
    → id_bit (distance x y) i ≡ differ (id_bit x i) (id_bit y i)
id_bit-distance x y i hx hy =
    rw (byte_at-distance x y (i / 8) (hx.size ∙ sym hy.size)) (bit-xor (7 - i % 8) _ _)

ones_table : table_of_truth 8 (λ k. bit k 255 == 1) ≡ true
unfolding table_of_truth bit
ones_table = refl

differ_right_zero : (a : ℕ) → a < 2 → differ a 0 ≡ a
differ_right_zero zero h = refl
differ_right_zero (suc zero) h = refl
differ_right_zero (suc (suc a)) h = absurd (omega arith)

id_bit-max_id : (i : ℕ) → i < 256 → id_bit max_id i ≡ 1
id_bit-max_id i h = rw (bytes 32 (i / 8) (omega arith)) (ones (7 - i % 8) (omega arith))
  where
    bytes : (n q : ℕ) → q < n → byte_at (replicate n 255) q ≡ 255
    bytes zero q h = absurd (omega arith)
    bytes (suc n) zero h = refl
    bytes (suc n) (suc q) h = bytes n q (omega arith)

    ones : (k : ℕ) → k < 8 → bit k 255 ≡ 1
    ones k h = ==→≡ _ _ (true_below 8 _ k ones_table h)

module _ (p : Prefix) (h : IsPrefix p) where
  abbrev fixed : ℕ
  fixed = fixed_bits p.depth

  abbrev free : ℕ
  free = 256 - fixed

  pub last-IsId : IsId (last p)
  unfolding last
  last-IsId =
      distance-IsId _ _ h.id (
        distance-IsId _ _ (copied-IsId max_id zero_id p.depth max_id-IsId zero_id-IsId) max_id-IsId)

  -- The bits of `last` are those of the prefix, and then ones.
  last_bit : (i : ℕ) → i < 256 → id_bit (last p) i ≡ (if ltb i fixed then id_bit p.bits i else 1)
  unfolding last
  last_bit i hi =
      rw
        (
          id_bit-distance p.bits (distance (bits_copy max_id zero_id p.depth) max_id) i h.id inner,
          id_bit-distance (bits_copy max_id zero_id p.depth) max_id i copied max_id-IsId,
          id_bit-max_id i hi,
        )
        (elim (dec_lt i fixed) [
          | yes lt ↦
              let c : id_bit (bits_copy max_id zero_id p.depth) i ≡ 1 =
                ground (arith, bits, id_bit-max_id i hi) in
              rw c (ground (arith, differ_right_zero (id_bit p.bits i) (bit_lt _ _)))
          | no ge ↦
              let c : id_bit (bits_copy max_id zero_id p.depth) i ≡ 0 =
                ground (arith, bits, id_bit-zero_id i) in
              rw (c, h.clear i (omega arith) hi) (ground arith)
        ])
    where
      copied : IsId (bits_copy max_id zero_id p.depth)
      copied = copied-IsId max_id zero_id p.depth max_id-IsId zero_id-IsId

      inner : IsId (distance (bits_copy max_id zero_id p.depth) max_id)
      inner = distance-IsId _ _ copied max_id-IsId

      bits :
          id_bit (bits_copy max_id zero_id p.depth) i
          ≡ (if ltb i (fixed_bits p.depth) then id_bit max_id i else id_bit zero_id i)
      bits = copied_bit max_id zero_id p.depth max_id-IsId zero_id-IsId h.fits i

  quotients :
      (x y : NodeId)
      → IsId x
      → IsId y
      → AgreeBelow fixed x y ↔ (drop_bits free (id_value x) ≡ drop_bits free (id_value y))
  quotients x y hx hy = (
    (λ agree. drop_bits-eq 256 free _ _ (id_value-below x hx) (id_value-below y hy) λ k hk.
        elim (dec_lt k 256) [
          | yes lt ↦ digit x hx k lt ∙ agree (255 - k) (omega arith) ∙ sym (digit y hy k lt)
          | no ge ↦
              bit-id_value_beyond x k hx (omega arith)
              ∙ sym (bit-id_value_beyond y k hy (omega arith))
        ]),
    (λ e i hi.
        let k : ℕ = 255 - i - free in
        let place : 255 - i ≡ free + k = omega (arith, h.fits) in
        sym (digit_at x hx i (omega (arith, h.fits)))
        ∙ (rw (place, ← bit-drop_bits free k (id_value x), ← bit-drop_bits free k (id_value y), e))
        ∙ digit_at y hy i (omega (arith, h.fits))),
  )
    where
      digit : (z : NodeId) → IsId z → (k : ℕ) → k < 256 → bit k (id_value z) ≡ id_bit z (255 - k)
      digit z hz k lt = bit-id_value z k (255 - k) hz.bytes (omega (arith, hz.size))

      digit_at : (z : NodeId) → IsId z → (i : ℕ) → i < 256 → bit (255 - i) (id_value z) ≡ id_bit z i
      digit_at z hz i lt = bit-id_value z (255 - i) i hz.bytes (omega (arith, hz.size))

  -- The number that the prefix's bits write, and the two ends of its range.
  abbrev block : ℕ
  block = drop_bits free (id_value p.bits)

  value-first : id_value (first p) ≡ block * 2 ^ free
  unfolding first
  value-first = drop_bits_zeros free (id_value p.bits) λ k hk.
      bit-id_value p.bits k (255 - k) h.id.bytes (omega (arith, h.id.size))
      ∙ h.clear (255 - k) (omega (arith, h.fits)) (omega arith)

  value-last : id_value (last p) + 1 ≡ block * 2 ^ free + 2 ^ free
  value-last = drop_bits_ones free (id_value (last p)) ones ∙ rw same
    where
      ones : (k : ℕ) → k < free → bit k (id_value (last p)) ≡ 1
      ones k hk =
          bit-id_value (last p) k (255 - k) last-IsId.bytes (omega (arith, last-IsId.size))
          ∙ ground (arith, last_bit (255 - k) (omega arith), h.fits)

      same : drop_bits free (id_value (last p)) ≡ block
      same =
          (quotients (last p) p.bits last-IsId h.id).0
            λ i hi. ground (arith, last_bit i (omega (arith, h.fits)))

  covers-range :
      (id : NodeId)
      → IsId id
      → (is_prefix_of p id ≡ true)
        ↔ ((id_value (first p) ≤ id_value id) × (id_value id ≤ id_value (last p)))
  unfolding is_prefix_of
  covers-range id hid = (
    (λ e.
        let inside = within.0 (sym (agree.0 (equal.0 e))) in
        (omega (arith, inside.0, value-first), omega (arith, inside.1, value-last))),
    (λ r. equal.1 (
        agree.1
          (sym (within.1 (omega (arith, r.0, value-first), omega (arith, r.1, value-last)))))),
  )
    where
      equal : (bits_equal p.bits id p.depth ≡ true) ↔ AgreeBelow fixed p.bits id
      equal = bits_equal-AgreeBelow p.bits id p.depth h.id hid h.fits

      agree : AgreeBelow fixed p.bits id ↔ (block ≡ drop_bits free (id_value id))
      agree = quotients p.bits id h.id hid

      within :
          (drop_bits free (id_value id) ≡ block)
          ↔ ((block * 2 ^ free ≤ id_value id) × (id_value id < block * 2 ^ free + 2 ^ free))
      within = drop_bits_iff free block (id_value id)

-- A prefix covers exactly the Ids whose numbers lie from that of `first` to that of `last`.
pub is_prefix_of-range :
    (p : Prefix) (id : NodeId)
    → IsPrefix p
    → IsId id
    → (is_prefix_of p id ≡ true)
      ↔ ((id_value (first p) ≤ id_value id) × (id_value id ≤ id_value (last p)))
is_prefix_of-range p id h hid = covers-range p h id hid

-- From `first` to `last`, a prefix has 2 ^ (256 - fixed bits) Ids.
pub last-first_width :
    (p : Prefix)
    → IsPrefix p
    → id_value (last p) + 1 ≡ id_value (first p) + 2 ^ (256 - fixed_bits p.depth)
last-first_width p h = omega (arith, value-first p h, value-last p h)
