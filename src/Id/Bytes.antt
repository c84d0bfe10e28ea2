-- ===== src/Id/Bytes.antt =====
-- The bytes and bits of an Id, in which the lemmas on the operations of core/id.cc are stated.
use elastos_carrier_native.Prelude.{
  ℕ, zero, suc, ◌+◌, ◌*◌, ◌-◌, ◌/◌, ◌%◌, ◌<◌, ◌≡◌, refl, subst, ◌≢◌, inl, inr, none, some, [], ◌∷◌,
  length, list_ext, All-get, get_or_beyond, dec_lt, arith, ==→≡, Bool-cases, Option-cases, ◌==◌,
}
use elastos_carrier_native.Bits.{bit, byte_ext}
use elastos_carrier_native.Id.{NodeId, IsId, IsBytes, byte_at, mismatch}

-- Bit `i` of an Id, the most significant first.
abbrev pub id_bit : NodeId → ℕ → ℕ
id_bit x i = bit (7 - i % 8) (byte_at x (i / 8))

pub byte_at_lt : (x : NodeId) (i : ℕ) → IsBytes x → byte_at x i < 256
byte_at_lt x i h = elim (dec_lt i (length x)) [
  | yes p ↦ All-get (λ b. b < 256) x i 0 h p
  | no p ↦ rw (get_or_beyond x i 0 (omega arith)) (omega arith)
]

-- Two bytes are equal if the bits at their places are.
pub byte_at_ext :
    (x y : NodeId) (q : ℕ)
    → IsBytes x
    → IsBytes y
    → ((j : ℕ) → j < 8 → id_bit x (q * 8 + j) ≡ id_bit y (q * 8 + j))
    → byte_at x q ≡ byte_at y q
byte_at_ext x y q hx hy h = byte_ext _ _ (byte_at_lt x q hx) (byte_at_lt y q hy) λ k hk.
    let quotient : (q * 8 + (7 - k)) / 8 ≡ q = omega arith in
    let remainder : 7 - (q * 8 + (7 - k)) % 8 ≡ k = omega arith in
    rw quotient at (rw remainder at (h (7 - k) (omega arith)))

-- An Id is known by its 256 bits.
pub id_ext :
    (x y : NodeId) → IsId x → IsId y → ((i : ℕ) → i < 256 → id_bit x i ≡ id_bit y i) → x ≡ y
id_ext x y hx hy h =
    list_ext x y 0 (omega (arith, hx.size, hy.size))
      λ q hq. byte_at_ext x y q hx.bytes hy.bytes λ j hj. h (q * 8 + j) (omega (arith, hx.size))

pub mismatch-none : (x y : NodeId) → length x ≡ length y → mismatch x y ≡ none → x ≡ y
unfolding mismatch
mismatch-none [] [] e h = refl
mismatch-none [] (y ∷ ys) e h = absurd (omega arith)
mismatch-none (x ∷ xs) [] e h = absurd (omega arith)
mismatch-none (x ∷ xs) (y ∷ ys) e h = ground (arith, mismatch-none xs ys (omega arith))

-- The index found is the first at which the bytes differ.
pub record IsMismatch (x y : NodeId) (i : ℕ) : Type 0 where
  pub inside : i < length x
  pub differs : byte_at x i ≢ byte_at y i
  pub before : (j : ℕ) → j < i → byte_at x j ≡ byte_at y j

later :
    (x y : ℕ) (xs ys : NodeId) (k : ℕ)
    → x ≡ y
    → IsMismatch xs ys k
    → IsMismatch (x ∷ xs) (y ∷ ys) (suc k)
later x y xs ys k e m = record {
  inside = omega (arith, m.inside);
  differs = m.differs;
  before = agree;
}
  where
    agree : (j : ℕ) → j < suc k → byte_at (x ∷ xs) j ≡ byte_at (y ∷ ys) j
    agree zero h = e
    agree (suc j) h = m.before j (omega arith)

pub mismatch-some : (x y : NodeId) (i : ℕ) → mismatch x y ≡ some i → IsMismatch x y i
unfolding mismatch
mismatch-some [] ys i h = absurd (cc)
mismatch-some (x ∷ xs) [] i h = absurd (cc)
mismatch-some (x ∷ xs) (y ∷ ys) i h = elim (Bool-cases (x == y)) [
  | inl e ↦ elim (Option-cases (mismatch xs ys)) [
    | inl n ↦ absurd (ground arith)
    | inr (k, s) ↦
        let i_is : suc k ≡ i = ground arith in
        subst (IsMismatch (x ∷ xs) (y ∷ ys)) i_is
          (later x y xs ys k (==→≡ x y e) (mismatch-some xs ys k s))
  ]
  | inr e ↦
      let i_is : 0 ≡ i = ground arith in
      subst (IsMismatch (x ∷ xs) (y ∷ ys)) i_is (record {
        inside = omega arith;
        differs = ground arith;
        before = λ j hj. absurd (omega arith);
      })
]
