-- ===== src/Prefix/Split.antt =====
-- `splitBranch`, `getParent` and `isSiblingOf`: the binary tree of the prefixes.
use elastos_carrier_native.Prelude.{
  ℕ, zero, suc, ◌≢◌, ◌-◌, ◌%◌, ◌/◌, ◌≤◌, ◌<◌, ◌≡◌, refl, sym, ◌∙◌, ◌↔◌, ◌⊎◌, inl, inr, Bool, true,
  false, not, ◌==◌, ==_refl, if◌then◌else◌, ℤ, pos, negsuc, ltb_ℤ, pred_ℤ, suc_ℤ, Bool-cases, arith,
}
use elastos_carrier_native.Bits.{bit_lt}
use elastos_carrier_native.Id.{NodeId, IsId, byte_at, zero_id, bits_equal, bits_copy}
use elastos_carrier_native.Id.Bytes.{id_bit, id_ext}
use elastos_carrier_native.Prefix.{
  Prefix, IsPrefix, root, prefix_of, copy_prefix, is_prefix_of, is_splittable, clear_at, raise_at,
  get_parent, split_branch, is_sibling_of, create_random_id, fixed_bits,
}
use elastos_carrier_native.Prefix.Bits.{
  AgreeBelow, bits_equal-AgreeBelow, copied-IsId, copied_bit, zero_id-IsId, id_bit-zero_id,
  clear_at-IsId, raise_at-IsId, id_bit-clear_at, id_bit-raise_at,
}

abbrev digit_of : Bool → ℕ
digit_of true = 1
digit_of false = 0

next_depth :
    (d : ℤ)
    → ltb_ℤ d (negsuc 0) ≡ false
    → (suc_ℤ d ≡ pos (fixed_bits d)) × (pred_ℤ (pos (fixed_bits d)) ≡ d)
next_depth (pos n) h = (refl, refl)
next_depth (negsuc zero) h = (refl, refl)
next_depth (negsuc (suc n)) h = absurd (ground arith)

-- Any Id gives a prefix.
pub prefix_of-IsPrefix :
    (x : NodeId) (d : ℤ)
    → IsId x
    → ltb_ℤ d (negsuc 0) ≡ false
    → fixed_bits d ≤ 256
    → IsPrefix (prefix_of x d)
unfolding prefix_of
prefix_of-IsPrefix x d hx lo hi = record {
  id = copied-IsId x zero_id d hx zero_id-IsId;
  from_root = lo;
  fits = hi;
  clear = λ i h _. ground (arith, copied_bit x zero_id d hx zero_id-IsId hi i, id_bit-zero_id i);
}

pub root-IsPrefix : IsPrefix root
unfolding root
root-IsPrefix = record {
  id = zero_id-IsId;
  from_root = refl;
  fits = omega arith;
  clear = λ i _ _. id_bit-zero_id i;
}

-- The copy constructor copies.
pub copy_prefix-id : (p : Prefix) → IsPrefix p → copy_prefix p ≡ p
unfolding copy_prefix
copy_prefix-id p h = λ i. record { bits = same i; depth = p.depth }
  where
    same : bits_copy p.bits zero_id p.depth ≡ p.bits
    same = id_ext _ _ (copied-IsId p.bits zero_id p.depth h.id zero_id-IsId) h.id λ i hi. ground (
      arith,
      copied_bit p.bits zero_id p.depth h.id zero_id-IsId h.fits i,
      id_bit-zero_id i,
      h.clear i,
    )

splittable_depth : (d : ℤ) → ltb_ℤ d (pos 255) ≡ true → fixed_bits d < 256
splittable_depth (pos n) h = ground arith
splittable_depth (negsuc n) h = omega arith

module _ (p : Prefix) (h : IsPrefix p) (small : fixed_bits p.depth < 256) where
  abbrev place : ℕ
  place = fixed_bits p.depth

  high_form : split_branch p true ≡ record { bits = raise_at p.bits place; depth = pos place }
  unfolding split_branch
  high_form = rw (copy_prefix-id p h, (next_depth p.depth h.from_root).0)

  low_form : split_branch p false ≡ record { bits = clear_at p.bits place; depth = pos place }
  unfolding split_branch
  low_form = rw (copy_prefix-id p h, (next_depth p.depth h.from_root).0)

  branch-IsId : (b : Bool) → IsId (split_branch p b).bits
  branch-IsId true = rw high_form (raise_at-IsId p.bits place h.id)
  branch-IsId false = rw low_form (clear_at-IsId p.bits place h.id)

  branch_depth : (b : Bool) → (split_branch p b).depth ≡ pos place
  branch_depth true = rw high_form
  branch_depth false = rw low_form

  branch_bit :
      (b : Bool) (i : ℕ)
      → id_bit (split_branch p b).bits i ≡ (if i == place then digit_of b else id_bit p.bits i)
  branch_bit true i = rw high_form (id_bit-raise_at p.bits place i h.id small)
  branch_bit false i = rw low_form (id_bit-clear_at p.bits place i h.id small)

  branch-IsPrefix : (b : Bool) → IsPrefix (split_branch p b)
  branch-IsPrefix b = record {
    id = branch-IsId b;
    from_root = rw (branch_depth b);
    fits = rw (branch_depth b) (omega arith);
    clear = rw (branch_depth b) (λ i lo hi. ground (arith, branch_bit b i, h.clear i));
  }

  branch_covers :
      (b : Bool) (id : NodeId)
      → IsId id
      → (is_prefix_of (split_branch p b) id ≡ true)
        ↔ ((is_prefix_of p id ≡ true) × (id_bit id place ≡ digit_of b))
  unfolding is_prefix_of
  branch_covers b id hid = (
    (λ e. (
      whole.1 (λ i hi. ground (arith, branch.0 e i (omega arith), branch_bit b i)),
      ground (arith, branch.0 e place (omega arith), branch_bit b place),
    )),
    (λ e. branch.1 (λ i hi. ground (arith, whole.0 e.0 i, e.1, branch_bit b i))),
  )
    where
      whole : (bits_equal p.bits id p.depth ≡ true) ↔ AgreeBelow place p.bits id
      whole = bits_equal-AgreeBelow p.bits id p.depth h.id hid h.fits

      branch :
          (bits_equal (split_branch p b).bits id (split_branch p b).depth ≡ true)
          ↔ AgreeBelow (suc place) (split_branch p b).bits id
      branch = rw (branch_depth b) (
          bits_equal-AgreeBelow (split_branch p b).bits id (pos place) (branch-IsId b) hid
            (omega arith))

  digit_cases :
      (b : Bool) (id : NodeId)
      → (id_bit id place ≡ digit_of b) ⊎ (id_bit id place ≡ digit_of (not b))
  digit_cases true id = ground (arith, bit_lt (7 - place % 8) (byte_at id (place / 8)))
  digit_cases false id = ground (arith, bit_lt (7 - place % 8) (byte_at id (place / 8)))

  digits_apart : (b : Bool) (n : ℕ) → n ≡ digit_of b → n ≢ digit_of (not b)
  digits_apart true n e f = absurd (omega arith)
  digits_apart false n e f = absurd (omega arith)

  partition :
      (b : Bool) (id : NodeId)
      → IsId id
      → (is_prefix_of (split_branch p b) id ≡ true)
        ↔ ((is_prefix_of p id ≡ true) × (is_prefix_of (split_branch p (not b)) id ≡ false))
  partition b id hid = (
    (λ e. (
      (this.0 e).0,
      elim (Bool-cases (is_prefix_of (split_branch p (not b)) id)) [
        | inl t ↦ absurd (digits_apart b _ (this.0 e).1 (other.0 t).1)
        | inr f ↦ f
      ],
    )),
    (λ e. elim (digit_cases b id) [
      | inl d ↦ this.1 (e.0, d)
      | inr d ↦ absurd (true_false (sym (other.1 (e.0, d)) ∙ e.1))
    ]),
  )
    where
      true_false : true ≡ false → ⊥
      true_false t = ground arith

      this :
          (is_prefix_of (split_branch p b) id ≡ true)
          ↔ ((is_prefix_of p id ≡ true) × (id_bit id place ≡ digit_of b))
      this = branch_covers b id hid

      other :
          (is_prefix_of (split_branch p (not b)) id ≡ true)
          ↔ ((is_prefix_of p id ≡ true) × (id_bit id place ≡ digit_of (not b)))
      other = branch_covers (not b) id hid

  parent_bits : (b : Bool) → clear_at (split_branch p b).bits place ≡ p.bits
  parent_bits b = id_ext _ _ (clear_at-IsId _ place (branch-IsId b)) h.id λ i hi. ground (
    arith,
    id_bit-clear_at (split_branch p b).bits place i (branch-IsId b) small,
    branch_bit b i,
    h.clear i,
  )

  parent : (b : Bool) → get_parent (split_branch p b) ≡ p
  unfolding get_parent
  parent b =
      rw (copy_prefix-id (split_branch p b) (branch-IsPrefix b), branch_depth b)
        (λ i. record { bits = parent_bits b i; depth = (next_depth p.depth h.from_root).1 i })

  sibling : (b c : Bool) → is_sibling_of (split_branch p b) (split_branch p c) ≡ true
  unfolding is_sibling_of
  sibling b c =
      rw (branch_depth b, branch_depth c, (next_depth p.depth h.from_root).1, ==_refl place)
        ((bits_equal-AgreeBelow _ _ p.depth (branch-IsId b) (branch-IsId c) h.fits).1
          λ i hi. ground (arith, branch_bit b i, branch_bit c i))

-- Of an Id and a prefix that can be split: a branch covers the Id exactly if the prefix covers it
-- and the other branch does not.
pub split_branch-partition :
    (p : Prefix) (high : Bool) (id : NodeId)
    → IsPrefix p
    → IsId id
    → is_splittable p ≡ true
    → (is_prefix_of (split_branch p high) id ≡ true)
      ↔ ((is_prefix_of p id ≡ true) × (is_prefix_of (split_branch p (not high)) id ≡ false))
unfolding is_splittable
split_branch-partition p high id h hid s = partition p h (splittable_depth p.depth s) high id hid

pub split_branch-IsPrefix :
    (p : Prefix) (high : Bool)
    → IsPrefix p
    → is_splittable p ≡ true
    → IsPrefix (split_branch p high)
unfolding is_splittable
split_branch-IsPrefix p high h s = branch-IsPrefix p h (splittable_depth p.depth s) high

-- The parent of either branch of a prefix that can be split is the prefix.
pub get_parent-split_branch :
    (p : Prefix) (high : Bool)
    → IsPrefix p
    → is_splittable p ≡ true
    → get_parent (split_branch p high) ≡ p
unfolding is_splittable
get_parent-split_branch p high h s = parent p h (splittable_depth p.depth s) high

-- The two branches of a prefix that can be split are siblings, in either order.
pub is_sibling_of-split_branch :
    (p : Prefix) (high : Bool)
    → IsPrefix p
    → is_splittable p ≡ true
    → is_sibling_of (split_branch p high) (split_branch p (not high)) ≡ true
unfolding is_splittable
is_sibling_of-split_branch p high h s = sibling p h (splittable_depth p.depth s) high (not high)

-- A prefix covers the Id that `createRandomId` makes, whatever Id the random generator gave.
pub is_prefix_of-create_random_id :
    (p : Prefix) (random : NodeId)
    → IsPrefix p
    → IsId random
    → is_prefix_of p (create_random_id p random) ≡ true
unfolding is_prefix_of create_random_id
is_prefix_of-create_random_id p random h hr =
    (bits_equal-AgreeBelow p.bits _ p.depth h.id (copied-IsId p.bits random p.depth h.id hr)
        h.fits).1
      λ i hi. ground (arith, copied_bit p.bits random p.depth h.id hr h.fits i)

-- A branch is one bit longer.
pub split_branch-depth :
    (p : Prefix) (high : Bool)
    → IsPrefix p
    → is_splittable p ≡ true
    → fixed_bits (split_branch p high).depth ≡ suc (fixed_bits p.depth)
unfolding is_splittable
split_branch-depth p high h s = rw (branch_depth p h (splittable_depth p.depth s) high)

-- The low branch has the prefix's bits.
pub low_branch_bits :
    (p : Prefix) → IsPrefix p → is_splittable p ≡ true → (split_branch p false).bits ≡ p.bits
unfolding is_splittable
low_branch_bits p h s =
    let small = splittable_depth p.depth s in
    id_ext _ _ (branch-IsId p h small false) h.id
      λ i hi. ground (arith, branch_bit p h small false i, h.clear i)
