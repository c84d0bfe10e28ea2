-- ===== src/Id/Order.antt =====
-- The order of Ids: `compareTo`, `operator==` and `operator<` of include/carrier/id.h and core/id.cc,
-- and the numbers that the bytes write.
use native.Mathlib.Nat.{pow-suc}
use elastos_carrier_native.Prelude.{
  ℕ, ◌+◌, ◌*◌, ◌^◌, ◌<◌, ◌≡◌, refl, sym, ap, ◌↔◌, compare, Ordering, true, [], ◌∷◌, length, arith,
}
use elastos_carrier_native.Id.{NodeId, IsBytes, compare_to, is_eq, is_lt, id_eq, less}

-- The bytes as one big-endian number.
unfoldable pub id_value : NodeId → ℕ
id_value [] = 0
id_value (x ∷ xs) = x * 256 ^ length xs + id_value xs

pub id_value-lt : (x : NodeId) → IsBytes x → id_value x < 256 ^ length x
unfolding id_value
id_value-lt [] h = omega arith
id_value-lt (x ∷ xs) h = grind (arith, id_value-lt xs h.1, pow-suc 256 (length xs))

place_lt : (p x y u v : ℕ) → x < y → u < p → x * p + u < y * p + v
place_lt p x y u v h g = grind arith

compare_lt : (a b : ℕ) → a < b → compare a b ≡ Ordering.lt
compare_lt a b h = ground arith

compare_gt : (a b : ℕ) → b < a → compare a b ≡ Ordering.gt
compare_gt a b h = ground arith

compare_add : (p a b : ℕ) → compare (p + a) (p + b) ≡ compare a b
compare_add p a b = ground arith

compare_to-cons :
    (p x y u v : ℕ) (o : Ordering)
    → u < p
    → v < p
    → o ≡ compare u v
    → (elim (compare x y) [
      | Ordering.lt ↦ Ordering.lt
      | Ordering.eq ↦ o
      | Ordering.gt ↦ Ordering.gt
    ])
      ≡ compare (x * p + u) (y * p + v)
compare_to-cons p x y u v o hu hv e =
    ground (arith, place_lt p x y u v, place_lt p y x v u, compare_add (x * p) u v)

-- `compareTo` of two byte strings of one length compares them as big-endian numbers.
pub compare_to-id_value :
    (x y : NodeId)
    → length x ≡ length y
    → IsBytes x
    → IsBytes y
    → compare_to x y ≡ compare (id_value x) (id_value y)
unfolding compare_to id_value
compare_to-id_value [] [] e hx hy = refl
compare_to-id_value [] (y ∷ ys) e hx hy = absurd (omega arith)
compare_to-id_value (x ∷ xs) [] e hx hy = absurd (omega arith)
compare_to-id_value (x ∷ xs) (y ∷ ys) e hx hy =
    let same : length ys ≡ length xs = omega arith in
    rw same (
      compare_to-cons (256 ^ length xs) x y (id_value xs) (id_value ys) (compare_to xs ys)
        (id_value-lt xs hx.1) (rw same at (id_value-lt ys hy.1))
        (compare_to-id_value xs ys (sym same) hx.1 hy.1))

compare_to-eq : (x y : NodeId) → length x ≡ length y → compare_to x y ≡ Ordering.eq → x ≡ y
unfolding compare_to
compare_to-eq [] [] e h = refl
compare_to-eq [] (y ∷ ys) e h = absurd (omega arith)
compare_to-eq (x ∷ xs) [] e h = absurd (omega arith)
compare_to-eq (x ∷ xs) (y ∷ ys) e h = ground (arith, compare_to-eq xs ys)

pub compare_to_refl : (x : NodeId) → compare_to x x ≡ Ordering.eq
unfolding compare_to
compare_to_refl [] = refl
compare_to_refl (x ∷ xs) = ground (arith, compare_to_refl xs)

is_eq-true : (o : Ordering) → is_eq o ≡ true → o ≡ Ordering.eq
is_eq-true Ordering.lt h = absurd (cc)
is_eq-true Ordering.eq h = refl
is_eq-true Ordering.gt h = absurd (cc)

-- `operator==` of two byte strings of one length holds exactly if they are equal.
pub id_eq_iff : (x y : NodeId) → length x ≡ length y → (id_eq x y ≡ true) ↔ (x ≡ y)
unfolding id_eq
id_eq_iff x y e = (
  (λ h. compare_to-eq x y e (is_eq-true (compare_to x y) h)),
  (λ p. rw (← p) (ap is_eq (compare_to_refl x))),
)

-- `operator<` of two byte strings of one length is true exactly if `compareTo` is negative.
pub less-compare_to : (x y : NodeId) → length x ≡ length y → less x y ≡ is_lt (compare_to x y)
unfolding less compare_to
less-compare_to [] [] e = refl
less-compare_to [] (y ∷ ys) e = absurd (omega arith)
less-compare_to (x ∷ xs) [] e = absurd (omega arith)
less-compare_to (x ∷ xs) (y ∷ ys) e = ground (arith, less-compare_to xs ys)
