-- ===== src/Id.antt =====
-- core/id.cc and include/carrier/id.h: 256-bit node identifiers, their XOR distance and the
-- operations on their leading bits. An Id is its bytes, most significant first; `IsId` says that
-- there are 32 of them. A loop over the byte index is a recursion on the bytes, an `int` that is
-- -1, 0 or 1 is an `Ordering`, and a bit count that can be -1 is a ℤ.
pub mod Bytes
pub mod Order
pub mod Distance
pub mod BitsEqual
pub mod BitsCopy
pub mod Zeros
pub mod Value
use elastos_carrier_native.Prelude.{
  ℕ, zero, suc, ◌+◌, ◌-◌, ◌*◌, ◌/◌, ◌%◌, ◌^◌, ◌<◌, ◌≡◌, compare, Ordering, bit_and, bit_or, bit_xor,
  Bool, true, false, not, Option, none, some, List, [], ◌∷◌, ◌++◌, ltb, leb, ◌==◌, if◌then◌else◌,
  length, get_elem?, get_or, set, take, drop, replicate, All, ℤ, pos, negsuc,
}

abbrev pub id_bytes : ℕ
id_bytes = 32

abbrev pub id_bits : ℕ
id_bits = 256

abbrev pub NodeId : Type 0
NodeId = List ℕ

abbrev pub IsBytes : List ℕ → Type 0
IsBytes = All (λ b. b < 256)

pub record IsId (x : NodeId) : Type 0 where
  pub size : length x ≡ 32
  pub bytes : IsBytes x

-- The default constructor, `Id::zero` and `MIN_ID`.
abbrev pub zero_id : NodeId
zero_id = replicate 32 0

abbrev pub max_id : NodeId
max_id = replicate 32 255

-- `bytes[i]`.
abbrev pub byte_at : NodeId → ℕ → ℕ
byte_at x i = get_or x i 0

-- `Id(const Blob&)`; `none` is the exception.
pub of_blob : List ℕ → Option NodeId
of_blob b = if length b == 0 then none else if length b == id_bytes then some b else none

unfoldable pub distance : NodeId → NodeId → NodeId
distance (x ∷ xs) (y ∷ ys) = bit_xor x y ∷ distance xs ys
distance _ _ = []

-- The first index at which two Ids differ: the loop that sets `mmi`.
pub mismatch : NodeId → NodeId → Option ℕ
mismatch (x ∷ xs) (y ∷ ys) =
    if x == y then elim (mismatch xs ys) [ none ↦ none | some i ↦ some (suc i) ] else some 0
mismatch _ _ = none

unfoldable pub three_way_compare : NodeId → NodeId → NodeId → Ordering
unfolding mismatch
three_way_compare target id1 id2 = elim (mismatch id1 id2) [
  | none ↦ Ordering.eq
  | some mmi ↦
      compare (bit_xor (byte_at id1 mmi) (byte_at target mmi))
        (bit_xor (byte_at id2 mmi) (byte_at target mmi))
]

-- `memcmp` over the 32 bytes, by the sign of its result.
unfoldable pub compare_to : NodeId → NodeId → Ordering
compare_to (x ∷ xs) (y ∷ ys) = elim (compare x y) [
  | Ordering.lt ↦ Ordering.lt
  | Ordering.eq ↦ compare_to xs ys
  | Ordering.gt ↦ Ordering.gt
]
compare_to _ _ = Ordering.eq

abbrev pub is_eq : Ordering → Bool
is_eq Ordering.eq = true
is_eq _ = false

abbrev pub is_lt : Ordering → Bool
is_lt Ordering.lt = true
is_lt _ = false

unfoldable pub id_eq : NodeId → NodeId → Bool
unfolding compare_to
id_eq a b = is_eq (compare_to a b)

-- `operator<`: `std::lexicographical_compare`.
unfoldable pub less : NodeId → NodeId → Bool
less [] (y ∷ ys) = true
less (x ∷ xs) (y ∷ ys) = if ltb x y then true else if ltb y x then false else less xs ys
less _ _ = false

abbrev pub int_max : ℕ
int_max = 2147483647

abbrev pub mismatch_or_max : Option ℕ → ℕ
mismatch_or_max none = int_max
mismatch_or_max (some i) = i

-- `0xff80 >> (n & 0x07)`.
abbrev pub mask_of : ℕ → ℕ
mask_of n = 0xff80 / 2 ^ bit_and n 7

pub bits_equal_pos : NodeId → NodeId → ℕ → Bool
unfolding mismatch
bits_equal_pos id1 id2 n =
    let mmi = mismatch_or_max (mismatch id1 id2) in
    let index = n / 8 in
    let diff = bit_xor (byte_at id1 index) (byte_at id2 index) in
    let bits_diff = bit_and diff (mask_of n) == 0 in
    if mmi == index then bits_diff else ltb index mmi

unfoldable pub bits_equal : NodeId → NodeId → ℤ → Bool
unfolding bits_equal_pos
bits_equal id1 id2 (negsuc n) = true
bits_equal id1 id2 (pos n) = bits_equal_pos id1 id2 n

-- `~mask`, as it acts on a `uint8_t`.
abbrev pub inverted : ℕ → ℕ
inverted mask = 255 - mask % 256

pub bits_copy_pos : NodeId → NodeId → ℕ → NodeId
bits_copy_pos src dest depth =
    let idx = depth / 8 in
    let copied = take idx src ++ drop idx dest in
    let mask = mask_of depth in
    let kept = bit_and (byte_at copied idx) (inverted mask) in
    set copied idx (bit_or kept (bit_and (byte_at src idx) mask))

-- `dest` after the call.
unfoldable pub bits_copy : NodeId → NodeId → ℤ → NodeId
unfolding bits_copy_pos
bits_copy src dest (negsuc n) = dest
bits_copy src dest (pos depth) = bits_copy_pos src dest depth

-- The zeros before the highest one of a nonzero byte.
pub byte_leading_zeros : ℕ → ℕ
byte_leading_zeros b =
    let high = leb 16 b in
    let n1 = if high then 3 else 7 in
    let b1 = if high then b / 16 else b in
    let middle = leb 4 b1 in
    let n2 = if middle then n1 - 2 else n1 in let b2 = if middle then b1 / 4 else b1 in n2 - b2 / 2

unfoldable pub leading_zeros : NodeId → ℕ
unfolding byte_leading_zeros
leading_zeros [] = 0
leading_zeros (b ∷ bs) = if b == 0 then 8 + leading_zeros bs else byte_leading_zeros b

-- The loop of `toBinaryString` from bit `i`, `n` rounds left. The characters are their codes;
-- `none` is an access outside the array.
unfoldable pub binary_from : NodeId → ℕ → ℕ → Option (List ℕ)
binary_from x zero i = some []
binary_from x (suc n) i = elim (get_elem? x (i / 3)) [
  | none ↦ none
  | some b ↦ elim (binary_from x n (i + 1)) [
    | none ↦ none
    | some rest ↦
        let digit = if bit_and b (0x80 / 2 ^ bit_and i 7) == 0 then b'0' else b'1' in
        some (digit ∷ (if bit_and i 3 == 3 then b' ' ∷ rest else rest))
  ]
]

unfoldable pub to_binary_string : NodeId → Option (List ℕ)
unfolding binary_from
to_binary_string x = binary_from x (id_bytes * 8) 0
