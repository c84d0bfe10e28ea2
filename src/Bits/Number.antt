-- ===== src/Bits/Number.antt =====
-- Numbers by their digits: `x * 2 ^ m + v`, and numbers that agree from a digit on.
use native.Mathlib.Nat.{pow-suc}
use elastos_carrier_native.Prelude.{
  ℕ, zero, suc, ◌+◌, ◌-◌, ◌*◌, ◌/◌, ◌%◌, ◌^◌, ◌≤◌, ◌<◌, ◌≡◌, ltb, if◌then◌else◌, arith, ap, ◌↔◌,
}
use elastos_carrier_native.Bits.{bit, bits_ext, bit-zero}

pub bit_beyond : (w k a : ℕ) → a < 2 ^ w → w ≤ k → bit k a ≡ 0
unfolding bit
bit_beyond zero k a h g = let e : a ≡ 0 = omega arith in rw e (bit-zero k)
bit_beyond (suc w) zero a h g = absurd (omega arith)
bit_beyond (suc w) (suc k) a h g = bit_beyond w k (a / 2) (omega (arith, pow-suc 2 w)) (omega arith)

double : (x p : ℕ) → x * (2 * p) ≡ 2 * (x * p)
double x p = grind arith

pub bit-join :
    (m k x v : ℕ) → v < 2 ^ m → bit k (x * 2 ^ m + v) ≡ (if ltb k m then bit k v else bit (k - m) x)
unfolding bit
bit-join zero k x v h = let e : x * 2 ^ 0 + v ≡ x = omega arith in rw e (ground arith)
bit-join (suc m) zero x v h =
    let e : (x * 2 ^ suc m + v) % 2 ≡ v % 2 = omega (arith, ap (λ (t : ℕ). x * t) (pow-suc 2 m)) in
    ground arith
bit-join (suc m) (suc k) x v h =
    let e : (x * 2 ^ suc m + v) / 2 ≡ x * 2 ^ m + v / 2 =
      omega (arith, ap (λ (t : ℕ). x * t) (pow-suc 2 m)) in
    let small : v / 2 < 2 ^ m = omega (arith, pow-suc 2 m) in
    rw e (ground (arith, bit-join m k x (v / 2) small))

-- Dropping `m` digits, one at a time.
pub drop_bits : ℕ → ℕ → ℕ
drop_bits zero a = a
drop_bits (suc m) a = drop_bits m (a / 2)

-- Numbers that agree from digit `m` on have one quotient.
pub drop_bits-eq :
    (w m a b : ℕ)
    → a < 2 ^ w
    → b < 2 ^ w
    → ((k : ℕ) → m ≤ k → bit k a ≡ bit k b)
    → drop_bits m a ≡ drop_bits m b
unfolding drop_bits bit
drop_bits-eq w zero a b ha hb h = bits_ext w a b ha hb (λ k _. h k (omega arith))
drop_bits-eq w (suc m) a b ha hb h =
    drop_bits-eq w m (a / 2) (b / 2) (omega arith) (omega arith) (λ k hk. h (suc k) (omega arith))

pub bit-drop_bits : (m k a : ℕ) → bit k (drop_bits m a) ≡ bit (m + k) a
unfolding drop_bits bit
bit-drop_bits zero k a = let e : 0 + k ≡ k = omega arith in rw e
bit-drop_bits (suc m) k a =
    let e : suc m + k ≡ suc (m + k) = omega arith in rw e (bit-drop_bits m k (a / 2))

-- What is left and what is dropped.
pub drop_bits_bounds : (m a : ℕ) → (drop_bits m a * 2 ^ m ≤ a) × (a < drop_bits m a * 2 ^ m + 2 ^ m)
unfolding drop_bits
drop_bits_bounds zero a = (omega arith, omega arith)
drop_bits_bounds (suc m) a =
    let ih = drop_bits_bounds m (a / 2) in
    let q : ℕ = drop_bits m (a / 2) in
    (
      omega (arith, ih.0, ih.1, pow-suc 2 m, ap (λ (t : ℕ). q * t) (pow-suc 2 m)),
      omega (arith, ih.0, ih.1, pow-suc 2 m, ap (λ (t : ℕ). q * t) (pow-suc 2 m)),
    )

-- Where the dropped digits are all 0, or all 1.
pub drop_bits_zeros : (m a : ℕ) → ((k : ℕ) → k < m → bit k a ≡ 0) → a ≡ drop_bits m a * 2 ^ m
unfolding drop_bits bit
drop_bits_zeros zero a h = omega arith
drop_bits_zeros (suc m) a h = omega (
  arith,
  h 0 (omega arith),
  drop_bits_zeros m (a / 2) (λ k hk. h (suc k) (omega arith)),
  ap (λ (t : ℕ). drop_bits m (a / 2) * t) (pow-suc 2 m),
)

pub drop_bits_ones :
    (m a : ℕ) → ((k : ℕ) → k < m → bit k a ≡ 1) → a + 1 ≡ drop_bits m a * 2 ^ m + 2 ^ m
unfolding drop_bits bit
drop_bits_ones zero a h = omega arith
drop_bits_ones (suc m) a h = omega (
  arith,
  h 0 (omega arith),
  drop_bits_ones m (a / 2) (λ k hk. h (suc k) (omega arith)),
  pow-suc 2 m,
  ap (λ (t : ℕ). drop_bits m (a / 2) * t) (pow-suc 2 m),
)

quotient_unique : (p q r a : ℕ) → q * p ≤ a → a < q * p + p → r * p ≤ a → a < r * p + p → q ≡ r
quotient_unique p q r a h1 h2 h3 h4 = grind arith

-- A block of 2 ^ m numbers is known by its quotient.
pub drop_bits_iff : (m q a : ℕ) → (drop_bits m a ≡ q) ↔ ((q * 2 ^ m ≤ a) × (a < q * 2 ^ m + 2 ^ m))
drop_bits_iff m q a = (
  (λ e. rw (← e) (drop_bits_bounds m a)),
  (λ h.
      quotient_unique (2 ^ m) (drop_bits m a) q a (drop_bits_bounds m a).0 (drop_bits_bounds m a).1
        h.0 h.1),
)
