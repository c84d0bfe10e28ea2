-- ===== src/Prefix.antt =====
-- core/prefix.cc and include/carrier/prefix.h: the key ranges that the buckets of the routing table
-- cover. A Prefix is an Id with a depth; depth -1 covers the whole keyspace.
pub mod Bits
pub mod Split
pub mod Range
use elastos_carrier_native.Prelude.{
  ℕ, suc, ◌+◌, ◌-◌, ◌/◌, ◌%◌, ◌^◌, ◌≤◌, ◌<◌, ◌≡◌, bit_and, bit_or, Bool, true, false, ◌&&◌, set,
  if◌then◌else◌, ℤ, pos, negsuc, ltb_ℤ, eqb_ℤ, pred_ℤ, suc_ℤ, pos_part,
}
use elastos_carrier_native.Id.{
  NodeId, IsId, zero_id, max_id, byte_at, id_bits, distance, id_eq, bits_equal, bits_copy,
}
use elastos_carrier_native.Id.Bytes.{id_bit}

pub record Prefix : Type 0 where
  pub bits : NodeId
  pub depth : ℤ

-- `Prefix()`: the whole keyspace.
unfoldable pub root : Prefix
root = record { bits = zero_id; depth = negsuc 0 }

-- `Prefix(id, depth)`.
unfoldable pub prefix_of : NodeId → ℤ → Prefix
prefix_of id depth = record { bits = bits_copy id zero_id depth; depth = depth }

-- The copy constructor.
unfoldable pub copy_prefix : Prefix → Prefix
unfolding prefix_of
copy_prefix p = prefix_of p.bits p.depth

unfoldable pub is_prefix_of : Prefix → NodeId → Bool
is_prefix_of p id = bits_equal p.bits id p.depth

unfoldable pub is_splittable : Prefix → Bool
is_splittable p = ltb_ℤ p.depth (pos (id_bits - 1))

unfoldable pub first : Prefix → NodeId
first p = p.bits

unfoldable pub last : Prefix → NodeId
unfolding prefix_of
last p = distance p.bits (distance (prefix_of max_id p.depth).bits max_id)

-- `0x80 >> (bit % 8)`.
abbrev pub bit_mask : ℕ → ℕ
bit_mask n = 0x80 / 2 ^ (n % 8)

abbrev pub clear_at : NodeId → ℕ → NodeId
clear_at x n = set x (n / 8) (bit_and (byte_at x (n / 8)) (255 - bit_mask n))

abbrev pub raise_at : NodeId → ℕ → NodeId
raise_at x n = set x (n / 8) (bit_or (byte_at x (n / 8)) (bit_mask n))

unfoldable pub set_tail : Prefix → ℤ → Prefix
set_tail p n = record p { bits = clear_at p.bits (pos_part n) }

-- `parent.setTail(parent.depth--)`: the tail is cleared at the old depth.
unfoldable pub get_parent : Prefix → Prefix
unfolding set_tail
get_parent p =
    let parent = copy_prefix p in
    if eqb_ℤ p.depth (negsuc 0)
    then parent
    else set_tail (record parent { depth = pred_ℤ parent.depth }) parent.depth

-- A depth is at least -1, so that the index after `++` is not negative.
unfoldable pub split_branch : Prefix → Bool → Prefix
split_branch p high_branch =
    let branch = copy_prefix p in
    let d = suc_ℤ branch.depth in
    let n = pos_part d in
    if high_branch
    then record { bits = raise_at branch.bits n; depth = d }
    else record { bits = clear_at branch.bits n; depth = d }

unfoldable pub is_sibling_of : Prefix → Prefix → Bool
is_sibling_of p other = eqb_ℤ p.depth other.depth && bits_equal p.bits other.bits (pred_ℤ p.depth)

-- `random` is what `Id::random()` returned.
unfoldable pub create_random_id : Prefix → NodeId → NodeId
create_random_id p random = bits_copy p.bits random p.depth

unfoldable pub prefix_equals : Prefix → Prefix → Bool
prefix_equals p q = if eqb_ℤ p.depth q.depth then id_eq p.bits q.bits else false

-- How many leading bits a depth fixes: depth + 1.
abbrev pub fixed_bits : ℤ → ℕ
fixed_bits (pos n) = suc n
fixed_bits (negsuc n) = 0

-- A prefix as the constructors build them: the depth between -1 and 255, the rest of the bits 0.
pub record IsPrefix (p : Prefix) : Type 0 where
  pub id : IsId p.bits
  pub from_root : ltb_ℤ p.depth (negsuc 0) ≡ false
  pub fits : fixed_bits p.depth ≤ 256
  pub clear : (i : ℕ) → fixed_bits p.depth ≤ i → i < 256 → id_bit p.bits i ≡ ℕ.zero
