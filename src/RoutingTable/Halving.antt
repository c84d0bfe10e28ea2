-- ===== src/RoutingTable/Halving.antt =====
-- A table after `_split`.
use elastos_carrier_native.Prelude.{
  ℕ, suc, ◌+◌, ◌≡◌, refl, sym, ap, ◌∙◌, true, false, some, get_elem?, arith,
}
use elastos_carrier_native.Id.{NodeId, IsId}
use elastos_carrier_native.Id.Order.{id_value}
use elastos_carrier_native.Prefix.{
  Prefix, IsPrefix, root, fixed_bits, first, last, is_prefix_of, is_splittable, split_branch,
}
use elastos_carrier_native.Prefix.Split.{split_branch-IsPrefix, split_branch-depth, root-IsPrefix}
use elastos_carrier_native.Prefix.Range.{last-first_width}
use elastos_carrier_native.KBucket.{KBucket, IsBucket, new_bucket}
use elastos_carrier_native.KBucket.Invariant.{new_bucket-IsBucket}
use elastos_carrier_native.RoutingTable.{
  RoutingTable, IsTable, IsPlaced, Tiles, keyspace, init, split, distribute, is_home_bucket,
}
use elastos_carrier_native.RoutingTable.Tiling.{IsCovering}
use elastos_carrier_native.RoutingTable.Splitting.{AreHalves, split_branch-AreHalves}
use elastos_carrier_native.RoutingTable.Splice.{
  splice_at, splice_at-Tiles, sort_buckets-splice_at, get_elem?-splice_at, All-splice_at,
}
use elastos_carrier_native.RoutingTable.Placement.{IsHalf, distribute-IsHalf, new_bucket-IsHalf}
use elastos_carrier_native.RoutingTable.Covering.{All-get_elem?, get_elem?-inside, covers_once}

root-first : id_value (first root) ≡ 0
unfolding first root id_value
root-first = refl

root-last : id_value (last root) + 1 ≡ keyspace
unfolding root
root-last = omega (arith, root-first, last-first_width root root-IsPrefix)

-- A new table is one bucket that covers all keys.
pub init-IsTable : (local_id : NodeId) → IsTable (init local_id)
unfolding init Tiles
init-IsTable local_id = record {
  tiles = (root-IsPrefix, root-first, root-last);
  valid = (new_bucket-IsBucket root true, tt);
  placed = (tt, tt);
}

some_same {ℓ} : {A : Type ℓ} (x y : A) → some x ≡ some y → x ≡ y
some_same x y e = ground arith

module _ (t : RoutingTable) (i : ℕ) (b : KBucket) (now : ℕ) (h : IsTable t)
    (e : get_elem? t.buckets i ≡ some b) (ok : IsPrefix b.prefix)
    (s : is_splittable b.prefix ≡ true) where
  abbrev pl : Prefix
  pl = split_branch b.prefix false

  abbrev ph : Prefix
  ph = split_branch b.prefix true

  abbrev halves : KBucket × KBucket
  halves =
      distribute (new_bucket pl (is_home_bucket t pl)) (new_bucket ph (is_home_bucket t ph))
        b.entries now

  halves-IsHalf : IsHalf pl halves.0 × IsHalf ph halves.1
  halves-IsHalf =
      distribute-IsHalf b.prefix _ _ b.entries now ok s
        (All-get_elem? IsPlaced t.buckets i b h.placed e) (new_bucket-IsHalf pl _)
        (new_bucket-IsHalf ph _)

  adjacent : AreHalves b.prefix halves.0.prefix halves.1.prefix
  adjacent =
      rw (halves-IsHalf.0.prefix, halves-IsHalf.1.prefix) (split_branch-AreHalves b.prefix ok s)

  split_buckets : (split t i b now).buckets ≡ splice_at i halves.0 halves.1 t.buckets
  unfolding split
  split_buckets =
      sort_buckets-splice_at halves.0 halves.1 b.prefix adjacent 0 t.buckets i b h.tiles e refl

  IsPlaced-half : (p : Prefix) (c : KBucket) → IsHalf p c → IsPlaced c
  IsPlaced-half p c half = rw half.prefix half.placed

  -- A split keeps the table in order.
  pub split-IsTable : IsTable (split t i b now)
  split-IsTable = record {
    tiles =
        rw split_buckets
          (splice_at-Tiles halves.0 halves.1 b.prefix adjacent 0 t.buckets i b h.tiles e refl);
    valid = rw split_buckets (
        All-splice_at IsBucket halves.0 halves.1 t.buckets i h.valid halves-IsHalf.0.valid
          halves-IsHalf.1.valid);
    placed = rw split_buckets (
        All-splice_at IsPlaced halves.0 halves.1 t.buckets i h.placed
          (IsPlaced-half pl halves.0 halves-IsHalf.0) (IsPlaced-half ph halves.1 halves-IsHalf.1));
  }

  high_half : get_elem? (split t i b now).buckets (suc i) ≡ some halves.1
  high_half =
      rw split_buckets
        (get_elem?-splice_at halves.0 halves.1 t.buckets i (get_elem?-inside t.buckets i b e)).1

  -- The bucket that covers an Id of the high half is then one bit longer.
  pub split_deeper :
      (id : NodeId) (j : ℕ) (c : KBucket)
      → IsId id
      → is_prefix_of ph id ≡ true
      → IsCovering (split t i b now).buckets id j c
      → fixed_bits c.prefix.depth ≡ suc (fixed_bits b.prefix.depth)
  split_deeper id j c hid covers found =
      let tiles = (split-IsTable).tiles in
      let high_prefix : halves.1.prefix ≡ ph = halves-IsHalf.1.prefix in
      let high_ok : IsPrefix halves.1.prefix =
        rw high_prefix (split_branch-IsPrefix b.prefix true ok s) in
      let high_covers : is_prefix_of halves.1.prefix id ≡ true = rw high_prefix covers in
      let bs = (split t i b now).buckets in
      let upper =
        covers_once bs id (suc i) j halves.1 c tiles hid high_half found.found high_ok found.prefix
          high_covers found.covers in
      let lower =
        covers_once bs id j (suc i) c halves.1 tiles hid found.found high_half found.prefix high_ok
          found.covers high_covers in
      let same : j ≡ suc i = omega arith in
      let one : c ≡ halves.1 =
        some_same c halves.1 (sym found.found ∙ ap (get_elem? bs) same ∙ high_half) in
      ap (λ x. fixed_bits x.prefix.depth) one
      ∙ ap (λ x. fixed_bits x.depth) high_prefix
      ∙ split_branch-depth b.prefix true ok s
