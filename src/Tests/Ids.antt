-- ===== src/Tests/Ids.antt =====
-- Laws of Ids at concrete Ids, and runs on them.
use elastos_carrier_native.Prelude.{
  ◌≡◌, refl, true, false, none, if◌then◌else◌, leb, compare, ◌↔◌, pos, arith,
}
use elastos_carrier_native.Id.{
  bits_equal, bits_copy, distance, three_way_compare, leading_zeros, to_binary_string,
}
use elastos_carrier_native.Id.Bytes.{id_bit}
use elastos_carrier_native.Id.Order.{id_value}
use elastos_carrier_native.Id.Distance.{three_way_compare-distance}
use elastos_carrier_native.Id.BitsEqual.{AgreeTo, bits_equal_iff}
use elastos_carrier_native.Id.BitsCopy.{id_bit-bits_copy}
use elastos_carrier_native.Id.Zeros.{to_binary_string-none}
use elastos_carrier_native.Tests.Data.{id_of, id_of-IsId, mixed_id, mixed_id-IsId}

bits_equal_iff_example :
    (bits_equal (id_of 0xa5) (id_of 0xa7) (pos 6) ≡ true) ↔ AgreeTo 6 (id_of 0xa5) (id_of 0xa7)
bits_equal_iff_example =
    bits_equal_iff (id_of 0xa5) (id_of 0xa7) 6 (id_of-IsId 0xa5 (omega arith))
      (id_of-IsId 0xa7 (omega arith)) (omega arith)

bits_equal_five : bits_equal (id_of 0xa5) (id_of 0xa7) (pos 5) ≡ true
unfolding bits_equal
bits_equal_five = refl

bits_equal_six : bits_equal (id_of 0xa5) (id_of 0xa7) (pos 6) ≡ false
unfolding bits_equal
bits_equal_six = refl

id_bit-bits_copy_example :
    id_bit (bits_copy mixed_id (id_of 0x12) (pos 140)) 139
    ≡ (if leb 139 140 then id_bit mixed_id 139 else id_bit (id_of 0x12) 139)
id_bit-bits_copy_example =
    id_bit-bits_copy mixed_id (id_of 0x12) 140 mixed_id-IsId (id_of-IsId 0x12 (omega arith))
      (omega arith) 139

three_way_compare-distance_example :
    three_way_compare mixed_id (id_of 0xa0) (id_of 0x12)
    ≡ compare
        (id_value (distance mixed_id (id_of 0xa0)))
        (id_value (distance mixed_id (id_of 0x12)))
three_way_compare-distance_example =
    three_way_compare-distance mixed_id (id_of 0xa0) (id_of 0x12) mixed_id-IsId
      (id_of-IsId 0xa0 (omega arith)) (id_of-IsId 0x12 (omega arith))

leading_zeros_three : leading_zeros (id_of 0x12) ≡ 3
unfolding leading_zeros
leading_zeros_three = refl

to_binary_string-none_example : to_binary_string mixed_id ≡ none
to_binary_string-none_example = to_binary_string-none mixed_id mixed_id-IsId
