-- ===== src/Id/Distance.antt =====
-- The XOR metric: `distance`, and `threeWayCompare`, which compares two distances without building
-- them.
use elastos_carrier_native.Prelude.{
  ℕ, ◌<◌, ◌≡◌, refl, sym, ap, ap₂, ◌∙◌, ◌≢◌, compare, Ordering, bit_xor, false, [], ◌∷◌, length,
  arith, inl, inr, ==→≡, Bool-cases, ◌==◌,
}
use elastos_carrier_native.Bits.{xor_comm, xor_cancel, xor-lt}
use elastos_carrier_native.Id.{
  NodeId, IsId, IsBytes, distance, mismatch, three_way_compare, compare_to,
}
use elastos_carrier_native.Id.Order.{id_value, compare_to-id_value}

pub length-distance : (x y : NodeId) → length x ≡ length y → length (distance x y) ≡ length x
unfolding distance
length-distance [] [] e = refl
length-distance [] (y ∷ ys) e = absurd (omega arith)
length-distance (x ∷ xs) [] e = absurd (omega arith)
length-distance (x ∷ xs) (y ∷ ys) e = omega (arith, length-distance xs ys (omega arith))

distance-IsBytes : (x y : NodeId) → IsBytes x → IsBytes y → IsBytes (distance x y)
unfolding distance
distance-IsBytes [] ys hx hy = tt
distance-IsBytes (x ∷ xs) [] hx hy = tt
distance-IsBytes (x ∷ xs) (y ∷ ys) hx hy =
    (xor-lt 8 x y hx.0 hy.0, distance-IsBytes xs ys hx.1 hy.1)

pub distance-IsId : (x y : NodeId) → IsId x → IsId y → IsId (distance x y)
distance-IsId x y hx hy = record {
  size = length-distance x y (hx.size ∙ sym hy.size) ∙ hx.size;
  bytes = distance-IsBytes x y hx.bytes hy.bytes;
}

pub comm : (x y : NodeId) → IsBytes x → IsBytes y → distance x y ≡ distance y x
unfolding distance
comm [] [] hx hy = refl
comm [] (y ∷ ys) hx hy = refl
comm (x ∷ xs) [] hx hy = refl
comm (x ∷ xs) (y ∷ ys) hx hy = ap₂ ◌∷◌ (xor_comm x y hx.0 hy.0) (comm xs ys hx.1 hy.1)

pub distance_comm : (x y : NodeId) → IsId x → IsId y → distance x y ≡ distance y x
distance_comm x y hx hy = comm x y hx.bytes hy.bytes

cancel :
    (x y : NodeId) → length x ≡ length y → IsBytes x → IsBytes y → distance x (distance x y) ≡ y
unfolding distance
cancel [] [] e hx hy = refl
cancel [] (y ∷ ys) e hx hy = absurd (omega arith)
cancel (x ∷ xs) [] e hx hy = absurd (omega arith)
cancel (x ∷ xs) (y ∷ ys) e hx hy =
    ap₂ ◌∷◌ (xor_cancel x y hx.0 hy.0) (cancel xs ys (omega arith) hx.1 hy.1)

-- The distance from an Id to the distance to another is the other Id.
pub distance-distance : (x y : NodeId) → IsId x → IsId y → distance x (distance x y) ≡ y
distance-distance x y hx hy = cancel x y (hx.size ∙ sym hy.size) hx.bytes hy.bytes

xor_injective : (t a b : ℕ) → t < 256 → a < 256 → b < 256 → bit_xor t a ≡ bit_xor t b → a ≡ b
xor_injective t a b ht ha hb e =
    sym (xor_cancel t a ht ha) ∙ ap (bit_xor t) e ∙ xor_cancel t b ht hb

compare_ne : (a b : ℕ) → a ≢ b → compare a b ≢ Ordering.eq
compare_ne a b h e = h (ground arith)

keep_ne :
    (o e : Ordering)
    → o ≢ Ordering.eq
    → o ≡ (elim o [ Ordering.lt ↦ Ordering.lt | Ordering.eq ↦ e | Ordering.gt ↦ Ordering.gt ])
keep_ne Ordering.lt e h = refl
keep_ne Ordering.eq e h = absurd (h refl)
keep_ne Ordering.gt e h = refl

three_way :
    (t a b : NodeId)
    → length a ≡ length t
    → length b ≡ length t
    → IsBytes t
    → IsBytes a
    → IsBytes b
    → three_way_compare t a b ≡ compare_to (distance t a) (distance t b)
unfolding three_way_compare compare_to distance
three_way [] [] [] p q ht ha hb = refl
three_way [] [] (b ∷ bs) p q ht ha hb = absurd (omega arith)
three_way [] (a ∷ as') bs p q ht ha hb = absurd (omega arith)
three_way (t ∷ ts) [] bs p q ht ha hb = absurd (omega arith)
three_way (t ∷ ts) (a ∷ as') [] p q ht ha hb = absurd (omega arith)
three_way (t ∷ ts) (a ∷ as') (b ∷ bs) p q ht ha hb = elim (Bool-cases (a == b)) [
  | inl e ↦
      ground (arith, three_way ts as' bs (omega arith) (omega arith) ht.1 ha.1 hb.1, ==→≡ a b e)
  | inr e ↦
      rw (e, three_way_compare, mismatch, xor_comm t a ht.0 ha.0, xor_comm t b ht.0 hb.0)
        (keep_ne _ (compare_to (distance ts as') (distance ts bs)) (compare_ne _ _ (apart e)))
]
  where
    apart : (a == b) ≡ false → bit_xor a t ≢ bit_xor b t
    apart e f = ground (
      arith,
      xor_injective t a b ht.0 ha.0 hb.0
          (xor_comm t a ht.0 ha.0 ∙ f ∙ sym (xor_comm t b ht.0 hb.0)),
    )

-- `threeWayCompare` of two Ids orders them as the numbers of their distances to the target.
pub three_way_compare-distance :
    (t a b : NodeId)
    → IsId t
    → IsId a
    → IsId b
    → three_way_compare t a b ≡ compare (id_value (distance t a)) (id_value (distance t b))
three_way_compare-distance t a b ht ha hb =
    three_way t a b (ha.size ∙ sym ht.size) (hb.size ∙ sym ht.size) ht.bytes ha.bytes hb.bytes
    ∙ compare_to-id_value (distance t a) (distance t b)
        ((distance-IsId t a ht ha).size ∙ sym (distance-IsId t b ht hb).size)
        (distance-IsId t a ht ha).bytes (distance-IsId t b ht hb).bytes

compare_eq-eq : (a b : ℕ) → compare a b ≡ Ordering.eq → a ≡ b
compare_eq-eq a b h = ground arith
