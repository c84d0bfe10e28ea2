-- ===== src/RoutingTable/Splitting.antt =====
-- The two halves of a prefix, as `_split` makes them.
use native.Mathlib.Nat.{pow-suc}
use elastos_carrier_native.Prelude.{
  ℕ, suc, ◌+◌, ◌-◌, ◌^◌, ◌≤◌, ◌<◌, ◌≡◌, refl, ap, true, false, dec_lt, arith,
}
use elastos_carrier_native.Id.{IsId}
use elastos_carrier_native.Id.Order.{id_value}
use elastos_carrier_native.Prefix.{
  Prefix, IsPrefix, fixed_bits, first, last, is_prefix_of, is_splittable, split_branch,
}
use elastos_carrier_native.Prefix.Bits.{bits_equal-AgreeBelow}
use elastos_carrier_native.Prefix.Split.{
  split_branch-IsPrefix, split_branch-partition, split_branch-depth, low_branch_bits,
}
use elastos_carrier_native.Prefix.Range.{is_prefix_of-range, last-first_width, last-IsId}
use elastos_carrier_native.RoutingTable.Tiling.{first-le-last}

covers_first : (p : Prefix) → IsPrefix p → is_prefix_of p (first p) ≡ true
unfolding is_prefix_of first
covers_first p h = (bits_equal-AgreeBelow p.bits p.bits p.depth h.id h.id h.fits).1 (λ i _. refl)

covers_last : (p : Prefix) → IsPrefix p → is_prefix_of p (last p) ≡ true
covers_last p h =
    (is_prefix_of-range p (last p) h (last-IsId p h)).1 (first-le-last p h, omega arith)

-- The low half begins where the prefix does, the high half where the low one ends, and the high half
-- ends where the prefix does.
pub record AreHalves (p l h : Prefix) : Type 0 where
  pub low : IsPrefix l
  pub high : IsPrefix h
  pub begins : id_value (first l) ≡ id_value (first p)
  pub meets : id_value (first h) ≡ id_value (last l) + 1
  pub ends : id_value (last h) ≡ id_value (last p)

module _ (p : Prefix) (ok : IsPrefix p) (s : is_splittable p ≡ true) where
  abbrev lo : Prefix
  lo = split_branch p false

  abbrev hi : Prefix
  hi = split_branch p true

  lo-IsPrefix : IsPrefix lo
  lo-IsPrefix = split_branch-IsPrefix p false ok s

  hi-IsPrefix : IsPrefix hi
  hi-IsPrefix = split_branch-IsPrefix p true ok s

  first-lo : id_value (first lo) ≡ id_value (first p)
  unfolding first
  first-lo = ap id_value (low_branch_bits p ok s)

  hi-first-IsId : IsId (first hi)
  unfolding first
  hi-first-IsId = hi-IsPrefix.id

  within_first : id_value (first p) ≤ id_value (first hi)
  within_first =
      ((is_prefix_of-range p (first hi) ok hi-first-IsId).0
        ((split_branch-partition p true (first hi) ok hi-first-IsId s).0
          (covers_first hi hi-IsPrefix)).0).0

  within_last : id_value (last hi) ≤ id_value (last p)
  within_last =
      ((is_prefix_of-range p (last hi) ok (last-IsId hi hi-IsPrefix)).0
        ((split_branch-partition p true (last hi) ok (last-IsId hi hi-IsPrefix) s).0
          (covers_last hi hi-IsPrefix)).0).1

  apart : id_value (first lo) ≤ id_value (first hi) → id_value (last lo) < id_value (first hi)
  apart h = elim (dec_lt (id_value (last lo)) (id_value (first hi))) [
    | yes lt ↦ lt
    | no ge ↦ absurd (contradiction (omega arith))
  ]
    where
      contradiction : id_value (first hi) ≤ id_value (last lo) → ⊥
      contradiction g = ground (
        arith,
        (is_prefix_of-range lo (first hi) lo-IsPrefix hi-first-IsId).1 (h, g),
        ((split_branch-partition p true (first hi) ok hi-first-IsId s).0
            (covers_first hi hi-IsPrefix)).1,
      )

  -- The branches of a prefix that can be split are prefixes: the low one begins where the prefix
  -- does, the high one follows it and ends where the prefix does.
  pub split_branch-AreHalves : AreHalves p lo hi
  split_branch-AreHalves =
      let d = split_branch-depth p false ok s in
      let e = split_branch-depth p true ok s in
      let n : ℕ = 255 - fixed_bits p.depth in
      let wide : 256 - fixed_bits p.depth ≡ suc n = omega (arith, d, lo-IsPrefix.fits) in
      let narrow_lo : 256 - fixed_bits lo.depth ≡ n = omega (arith, d) in
      let narrow_hi : 256 - fixed_bits hi.depth ≡ n = omega (arith, e) in
      let wp : id_value (last p) + 1 ≡ id_value (first p) + 2 ^ suc n =
        rw wide at (last-first_width p ok) in
      let wl : id_value (last lo) + 1 ≡ id_value (first lo) + 2 ^ n =
        rw narrow_lo at (last-first_width lo lo-IsPrefix) in
      let wh : id_value (last hi) + 1 ≡ id_value (first hi) + 2 ^ n =
        rw narrow_hi at (last-first_width hi hi-IsPrefix) in
      let after = apart (omega (arith, first-lo, within_first)) in
      record {
        low = lo-IsPrefix;
        high = hi-IsPrefix;
        begins = first-lo;
        meets = omega (arith, pow-suc 2 n, wp, wl, wh, after, first-lo, within_last);
        ends = omega (arith, pow-suc 2 n, wp, wl, wh, after, first-lo, within_last);
      }
