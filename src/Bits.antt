-- ===== src/Bits.antt =====
-- `&`, `|`, `^` on bytes, one binary digit at a time: what the code of Id and Prefix does to
-- `uint8_t` values. `bit k x` is the digit of weight 2 ^ k.
pub mod Table
pub mod Mask
pub mod Single
pub mod Number
use Prim.Native.Nat.{digits, bitwise, differ, bit_and-bitwise, bit_or-bitwise, bit_xor-bitwise}
use native.Mathlib.Nat.{pow-suc}
use elastos_carrier_native.Prelude.{
  ℕ, zero, suc, ◌+◌, ◌*◌, ◌/◌, ◌%◌, ◌^◌, ◌≤◌, ◌<◌, min, max, bit_and, bit_or, bit_xor, ◌≡◌, ◌↔◌,
  refl, ap, ◌∙◌, ◌-◌, arith,
}

module _ (z : ℕ → ℕ) (f : ℕ → ℕ → ℕ) where
  -- A round more than there are digits changes nothing.
  spare_round : (n a b : ℕ) → a ≤ n → digits z f (suc n) a b ≡ digits z f n a b
  spare_round (suc n) (suc a) b enough =
      rw (spare_round n (suc a / 2) (b / 2) (omega (arith, enough)))
  spare_round (suc n) zero b enough = refl
  spare_round zero (suc a) b enough = absurd (omega (arith, enough))
  spare_round zero zero b enough = refl

  spare_rounds : (k a b : ℕ) → digits z f (k + a) a b ≡ digits z f a a b
  spare_rounds zero a b = ap (λ n. digits z f n a b) (omega arith)
  spare_rounds (suc k) a b =
      let next : suc k + a ≡ suc (k + a) = omega arith in
      ap (λ n. digits z f n a b) next ∙ spare_round (k + a) a b (omega arith) ∙ spare_rounds k a b

  low_digit :
      (a b : ℕ)
      → bitwise z f (suc a) b ≡ f (suc a % 2) (b % 2) + 2 * bitwise z f (suc a / 2) (b / 2)
  low_digit a b =
      let rounds : a - suc a / 2 + suc a / 2 ≡ a = omega arith in
      let half = spare_rounds (a - suc a / 2) (suc a / 2) (b / 2) in
      omega (arith, ap (λ n. digits z f n (suc a / 2) (b / 2)) rounds, half)

pub or_step : (a b : ℕ) → bit_or a b ≡ bit_or (a / 2) (b / 2) * 2 + max (a % 2) (b % 2)
or_step (suc a) b = simp bit_or-bitwise (omega (arith, low_digit (λ rest. rest) max a b))
or_step zero b = simp bit_or-bitwise (omega arith)

pub and_step : (a b : ℕ) → bit_and a b ≡ bit_and (a / 2) (b / 2) * 2 + min (a % 2) (b % 2)
and_step (suc a) b = simp bit_and-bitwise (omega (arith, low_digit (λ rest. 0) min a b))
and_step zero b = simp bit_and-bitwise (omega arith)

differ_zero : (b : ℕ) → b < 2 → differ 0 b ≡ b
differ_zero zero h = refl
differ_zero (suc zero) h = refl
differ_zero (suc (suc b)) h = absurd (omega arith)

pub differ_lt : (a b : ℕ) → a < 2 → b < 2 → differ a b < 2
differ_lt zero b p q = rw (differ_zero b q) q
differ_lt (suc zero) zero p q = omega arith
differ_lt (suc zero) (suc zero) p q = omega arith
differ_lt (suc zero) (suc (suc b)) p q = absurd (omega arith)
differ_lt (suc (suc a)) b p q = absurd (omega arith)

-- On digits, `differ` is the exclusive or.
pub differ_zero_iff : (a b : ℕ) → a < 2 → b < 2 → (differ a b ≡ 0) ↔ (a ≡ b)
differ_zero_iff zero zero p q = omega arith
differ_zero_iff zero (suc zero) p q = omega arith
differ_zero_iff zero (suc (suc b)) p q = absurd (omega arith)
differ_zero_iff (suc zero) zero p q = omega arith
differ_zero_iff (suc zero) (suc zero) p q = omega arith
differ_zero_iff (suc zero) (suc (suc b)) p q = absurd (omega arith)
differ_zero_iff (suc (suc a)) b p q = absurd (omega arith)

pub differ_comm : (a b : ℕ) → a < 2 → b < 2 → differ a b ≡ differ b a
differ_comm zero zero p q = refl
differ_comm zero (suc zero) p q = refl
differ_comm zero (suc (suc b)) p q = absurd (omega arith)
differ_comm (suc zero) zero p q = refl
differ_comm (suc zero) (suc zero) p q = refl
differ_comm (suc zero) (suc (suc b)) p q = absurd (omega arith)
differ_comm (suc (suc a)) b p q = absurd (omega arith)

pub differ_cancel : (a b : ℕ) → a < 2 → b < 2 → differ a (differ a b) ≡ b
differ_cancel zero zero p q = refl
differ_cancel zero (suc zero) p q = refl
differ_cancel zero (suc (suc b)) p q = absurd (omega arith)
differ_cancel (suc zero) zero p q = refl
differ_cancel (suc zero) (suc zero) p q = refl
differ_cancel (suc zero) (suc (suc b)) p q = absurd (omega arith)
differ_cancel (suc (suc a)) b p q = absurd (omega arith)

xor_step : (a b : ℕ) → bit_xor a b ≡ bit_xor (a / 2) (b / 2) * 2 + differ (a % 2) (b % 2)
xor_step zero b = simp bit_xor-bitwise (omega (arith, differ_zero (b % 2) (omega arith)))
xor_step (suc a) b = simp bit_xor-bitwise (omega (arith, low_digit (λ rest. rest) differ a b))

unfoldable pub bit : ℕ → ℕ → ℕ
bit zero x = x % 2
bit (suc k) x = bit k (x / 2)

pub bit_lt : (k x : ℕ) → bit k x < 2
unfolding bit
bit_lt zero x = omega arith
bit_lt (suc k) x = bit_lt k (x / 2)

pub bit-and : (k a b : ℕ) → bit k (bit_and a b) ≡ min (bit k a) (bit k b)
unfolding bit
bit-and zero a b = omega (arith, and_step a b)
bit-and (suc k) a b =
    let e : bit_and a b / 2 ≡ bit_and (a / 2) (b / 2) = omega (arith, and_step a b) in
    rw e (bit-and k (a / 2) (b / 2))

pub bit-or : (k a b : ℕ) → bit k (bit_or a b) ≡ max (bit k a) (bit k b)
unfolding bit
bit-or zero a b = omega (arith, or_step a b)
bit-or (suc k) a b =
    let e : bit_or a b / 2 ≡ bit_or (a / 2) (b / 2) = omega (arith, or_step a b) in
    rw e (bit-or k (a / 2) (b / 2))

pub bit-xor : (k a b : ℕ) → bit k (bit_xor a b) ≡ differ (bit k a) (bit k b)
unfolding bit
bit-xor zero a b =
    omega (arith, xor_step a b, differ_lt (a % 2) (b % 2) (omega arith) (omega arith))
bit-xor (suc k) a b =
    let e : bit_xor a b / 2 ≡ bit_xor (a / 2) (b / 2) =
      omega (arith, xor_step a b, differ_lt (a % 2) (b % 2) (omega arith) (omega arith)) in
    rw e (bit-xor k (a / 2) (b / 2))

half-lt : (w a : ℕ) → a < 2 ^ suc w → a / 2 < 2 ^ w
half-lt w a h = omega (arith, pow-suc 2 w)

-- A number of `w` digits is known by them.
pub bits_ext : (w a b : ℕ) → a < 2 ^ w → b < 2 ^ w → ((k : ℕ) → k < w → bit k a ≡ bit k b) → a ≡ b
unfolding bit
bits_ext zero a b p q h = omega arith
bits_ext (suc w) a b p q h = omega (
  arith,
  h 0 (omega arith),
  bits_ext w (a / 2) (b / 2) (half-lt w a p) (half-lt w b q) (λ k hk. h (suc k) (omega arith)),
)

pub bit-zero : (k : ℕ) → bit k 0 ≡ 0
unfolding bit
bit-zero zero = refl
bit-zero (suc k) = bit-zero k

-- The operations stay within the width of their arguments.
pub and-lt : (w a b : ℕ) → a < 2 ^ w → bit_and a b < 2 ^ w
and-lt zero a b h = omega (arith, and_step a b, and_nil a b h)
  where
    and_nil : (a b : ℕ) → a < 1 → bit_and a b ≡ 0
    and_nil zero b h = simp bit_and-bitwise
    and_nil (suc a) b h = absurd (omega arith)
and-lt (suc w) a b h =
    omega (arith, and_step a b, and-lt w (a / 2) (b / 2) (half-lt w a h), pow-suc 2 w)

pub or-lt : (w a b : ℕ) → a < 2 ^ w → b < 2 ^ w → bit_or a b < 2 ^ w
or-lt zero zero zero h g = omega arith
or-lt zero zero (suc b) h g = absurd (omega arith)
or-lt zero (suc a) b h g = absurd (omega arith)
or-lt (suc w) a b h g =
    omega (arith, or_step a b, or-lt w (a / 2) (b / 2) (half-lt w a h) (half-lt w b g), pow-suc 2 w)

pub xor-lt : (w a b : ℕ) → a < 2 ^ w → b < 2 ^ w → bit_xor a b < 2 ^ w
xor-lt zero zero zero h g = omega arith
xor-lt zero zero (suc b) h g = absurd (omega arith)
xor-lt zero (suc a) b h g = absurd (omega arith)
xor-lt (suc w) a b h g = omega (
  arith,
  xor_step a b,
  differ_lt (a % 2) (b % 2) (omega arith) (omega arith),
  xor-lt w (a / 2) (b / 2) (half-lt w a h) (half-lt w b g),
  pow-suc 2 w,
)

-- The same for bytes.
pub byte_ext : (a b : ℕ) → a < 256 → b < 256 → ((k : ℕ) → k < 8 → bit k a ≡ bit k b) → a ≡ b
byte_ext a b = bits_ext 8 a b

pub xor_comm : (a b : ℕ) → a < 256 → b < 256 → bit_xor a b ≡ bit_xor b a
xor_comm a b p q =
    byte_ext (bit_xor a b) (bit_xor b a) (xor-lt 8 a b p q) (xor-lt 8 b a q p)
      λ k hk. rw (bit-xor k a b, bit-xor k b a) (differ_comm _ _ (bit_lt k a) (bit_lt k b))

pub xor_cancel : (a b : ℕ) → a < 256 → b < 256 → bit_xor a (bit_xor a b) ≡ b
xor_cancel a b p q =
    byte_ext (bit_xor a (bit_xor a b)) b (xor-lt 8 a _ p (xor-lt 8 a b p q)) q λ k hk.
      rw (bit-xor k a (bit_xor a b), bit-xor k a b) (differ_cancel _ _ (bit_lt k a) (bit_lt k b))
