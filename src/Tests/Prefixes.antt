-- ===== src/Tests/Prefixes.antt =====
-- Laws of prefixes at a concrete prefix, and runs on it.
use elastos_carrier_native.Prelude.{◌≤◌, ◌≡◌, refl, true, false, ◌↔◌}
use elastos_carrier_native.Id.Order.{id_value}
use elastos_carrier_native.Prefix.{
  prefix_of, first, last, is_prefix_of, is_splittable, split_branch, get_parent, copy_prefix,
}
use elastos_carrier_native.Prefix.Split.{
  split_branch-partition, get_parent-split_branch, copy_prefix-id,
}
use elastos_carrier_native.Prefix.Range.{is_prefix_of-range}
use elastos_carrier_native.Tests.Data.{mixed_id, mixed_id-IsId, four_bits, four_bits-IsPrefix}

four_bits-splittable : is_splittable four_bits ≡ true
unfolding is_splittable prefix_of
four_bits-splittable = refl

split_branch-partition_example : (is_prefix_of (split_branch four_bits true) mixed_id ≡ true) ↔ (
    (is_prefix_of four_bits mixed_id ≡ true)
    × (is_prefix_of (split_branch four_bits false) mixed_id ≡ false))
split_branch-partition_example =
    split_branch-partition four_bits true mixed_id four_bits-IsPrefix mixed_id-IsId
      four_bits-splittable

is_prefix_of-range_example : (is_prefix_of four_bits mixed_id ≡ true) ↔ (
    (id_value (first four_bits) ≤ id_value mixed_id)
    × (id_value mixed_id ≤ id_value (last four_bits)))
is_prefix_of-range_example = is_prefix_of-range four_bits mixed_id four_bits-IsPrefix mixed_id-IsId

get_parent-split_branch_example : get_parent (split_branch four_bits true) ≡ four_bits
get_parent-split_branch_example =
    get_parent-split_branch four_bits true four_bits-IsPrefix four_bits-splittable

copy_prefix-id_example : copy_prefix four_bits ≡ four_bits
copy_prefix-id_example = copy_prefix-id four_bits four_bits-IsPrefix
