-- ===== src/Id/Zeros.antt =====
-- `getLeadingZeros` and `toBinaryString` of core/id.cc.
use elastos_carrier_native.Prelude.{
  ℕ, zero, suc, ◌+◌, ◌*◌, ◌-◌, ◌/◌, ◌%◌, ◌≤◌, ◌<◌, ◌≡◌, refl, true, false, ◌&&◌, ◌||◌, none, [],
  ◌∷◌, leb, ◌==◌, length, get_elem?, arith, Bool-cases, inl, inr, ==→≡, dec_lt,
}
use elastos_carrier_native.Bits.{bit, bit-zero}
use elastos_carrier_native.Bits.Table.{table_of_truth, true_below}
use elastos_carrier_native.Id.{
  NodeId, IsId, IsBytes, byte_leading_zeros, leading_zeros, binary_from, to_binary_string,
}
use elastos_carrier_native.Id.Bytes.{id_bit}

table :
    table_of_truth 256 (λ b.
      b == 0
      || (leb (byte_leading_zeros b) 7
          && (bit (7 - byte_leading_zeros b) b == 1
              && table_of_truth 8 (λ j. leb (byte_leading_zeros b) j || bit (7 - j) b == 0))))
    ≡ true
unfolding table_of_truth bit byte_leading_zeros
table = refl

record IsLeading (b n : ℕ) : Type 0 where
  inside : n ≤ 7
  one : bit (7 - n) b ≡ 1
  zeros : (j : ℕ) → j < n → bit (7 - j) b ≡ 0

byte_leading_zeros-IsLeading :
    (b : ℕ) → b < 256 → (b == 0) ≡ false → IsLeading b (byte_leading_zeros b)
byte_leading_zeros-IsLeading b h nz = record {
  inside = ground (arith, row);
  one = ground (arith, row);
  zeros = λ j hj. ground (
    arith,
    true_below 8 (λ i. leb (byte_leading_zeros b) i || bit (7 - i) b == 0) j (ground (arith, row))
        (ground (arith, row)),
  );
}
  where
    row :
        (b == 0
          || (leb (byte_leading_zeros b) 7
              && (bit (7 - byte_leading_zeros b) b == 1
                  && table_of_truth 8 (λ j. leb (byte_leading_zeros b) j || bit (7 - j) b == 0))))
        ≡ true
    row = true_below 256 _ b table h

-- The bits before `n` are 0, and bit `n`, if there is one, is 1.
pub record CountsZeros (x : NodeId) (n : ℕ) : Type 0 where
  pub bounded : n ≤ 8 * length x
  pub zeros : (i : ℕ) → i < n → id_bit x i ≡ 0
  pub one : n < 8 * length x → id_bit x n ≡ 1

pub id_bit-low : (b : ℕ) (bs : NodeId) (i : ℕ) → i < 8 → id_bit (b ∷ bs) i ≡ bit (7 - i) b
id_bit-low b bs i h =
    let quotient : i / 8 ≡ 0 = omega arith in
    let remainder : i % 8 ≡ i = omega arith in rw (quotient, remainder)

pub id_bit-high : (b : ℕ) (bs : NodeId) (i j : ℕ) → i ≡ 8 + j → id_bit (b ∷ bs) i ≡ id_bit bs j
id_bit-high b bs i j e =
    let quotient : i / 8 ≡ suc (j / 8) = omega arith in
    let remainder : i % 8 ≡ j % 8 = omega arith in rw (quotient, remainder)

zero_byte : (b : ℕ) (bs : NodeId) (n : ℕ) → b ≡ 0 → CountsZeros bs n → CountsZeros (b ∷ bs) (8 + n)
zero_byte b bs n e c = record {
  bounded = omega (arith, c.bounded);
  zeros = λ i hi. elim (dec_lt i 8) [
    | yes low ↦ rw (id_bit-low b bs i low, e) (bit-zero (7 - i))
    | no high ↦ rw (id_bit-high b bs i (i - 8) (omega arith)) (c.zeros (i - 8) (omega arith))
  ];
  one = λ lt. rw (id_bit-high b bs (8 + n) n refl) (c.one (omega arith));
}

first_byte : (b : ℕ) (bs : NodeId) (n : ℕ) → IsLeading b n → CountsZeros (b ∷ bs) n
first_byte b bs n l = record {
  bounded = omega (arith, l.inside);
  zeros = λ i hi. rw (id_bit-low b bs i (omega (arith, l.inside))) (l.zeros i hi);
  one = λ lt. rw (id_bit-low b bs n (omega (arith, l.inside))) l.one;
}

-- `getLeadingZeros` is the number of bits before the first bit that is 1, and the number of all
-- bits if none is.
pub leading_zeros-CountsZeros : (x : NodeId) → IsBytes x → CountsZeros x (leading_zeros x)
unfolding leading_zeros
leading_zeros-CountsZeros [] h = record {
  bounded = omega arith;
  zeros = λ i hi. absurd (omega arith);
  one = λ lt. absurd (omega arith);
}
leading_zeros-CountsZeros (b ∷ bs) h = elim (Bool-cases (b == 0)) [
  | inl e ↦ rw e (zero_byte b bs (leading_zeros bs) (==→≡ b 0 e) (leading_zeros-CountsZeros bs h.1))
  | inr e ↦ rw e (first_byte b bs (byte_leading_zeros b) (byte_leading_zeros-IsLeading b h.0 e))
]

get_elem?_beyond : (x : NodeId) (i : ℕ) → length x ≤ i → get_elem? x i ≡ none
get_elem?_beyond [] i h = refl
get_elem?_beyond (b ∷ bs) zero h = absurd (omega arith)
get_elem?_beyond (b ∷ bs) (suc i) h = get_elem?_beyond bs i (omega arith)

-- Byte `i / 3` leaves the array at bit 96.
binary_from-none :
    (x : NodeId) (n i : ℕ) → length x ≡ 32 → i ≤ 96 → 96 < n + i → binary_from x n i ≡ none
unfolding binary_from
binary_from-none x zero i e h g = absurd (omega arith)
binary_from-none x (suc n) i e h g =
    ground (arith, binary_from-none x n (i + 1) e, get_elem?_beyond x (i / 3))

-- `toBinaryString` of every Id reads outside its bytes.
pub to_binary_string-none : (x : NodeId) → IsId x → to_binary_string x ≡ none
unfolding to_binary_string
to_binary_string-none x h = binary_from-none x 256 0 h.size (omega arith) (omega arith)
