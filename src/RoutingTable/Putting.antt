-- ===== src/RoutingTable/Putting.antt =====
-- `_put` of core/routing_table.cc: its loop of splits, and what it leaves.
use elastos_carrier_native.Prelude.{
  ℕ, zero, suc, ◌+◌, ◌<◌, ◌≡◌, refl, true, Option, some, set, Bool-cases, inl, inr, arith,
}
use elastos_carrier_native.Id.{NodeId, IsId}
use elastos_carrier_native.Prefix.{fixed_bits, is_prefix_of, is_splittable, split_branch}
use elastos_carrier_native.Entry.{Entry}
use elastos_carrier_native.KBucket.{KBucket, put}
use elastos_carrier_native.KBucket.Invariant.{put-IsBucket}
use elastos_carrier_native.RoutingTable.{
  RoutingTable, IsTable, IsPlaced, needs_split, split, put_loop, table_put,
}
use elastos_carrier_native.RoutingTable.Tiling.{IsCovering, index_of-IsCovering}
use elastos_carrier_native.RoutingTable.Placement.{put-IsPlaced, put-prefix}
use elastos_carrier_native.RoutingTable.Covering.{All-get_elem?, set-IsTable}
use elastos_carrier_native.RoutingTable.Halving.{split-IsTable, split_deeper}

needs_split-true :
    (b : KBucket) (new : Entry) (now : ℕ)
    → needs_split b new now ≡ true
    → (is_splittable b.prefix ≡ true)
      × (is_prefix_of (split_branch b.prefix true) new.node_id ≡ true)
unfolding needs_split
needs_split-true b new now h = ground arith

-- What an operation on the table yields: it ends, in a table in order.
abbrev pub YieldsTable : Option RoutingTable → Type 0
YieldsTable r = (t : RoutingTable) × (r ≡ some t) × IsTable t

-- The bucket that covers the Id has room for the splits that are left.
abbrev HasRounds : RoutingTable → NodeId → ℕ → Type 0
HasRounds t id rounds =
    (i : ℕ) (b : KBucket) → IsCovering t.buckets id i b → 256 < fixed_bits b.prefix.depth + rounds

module _ (new : Entry) (now : ℕ) (hid : IsId new.node_id) where
  put_covering :
      (t : RoutingTable) (i : ℕ) (b : KBucket)
      → IsTable t
      → IsCovering t.buckets new.node_id i b
      → IsTable (record t { buckets = set t.buckets i (put b (some new) now) })
  put_covering t i b h cover =
      set-IsTable t i b (put b (some new) now) h cover.found (put-prefix b new now)
        (put-IsBucket b (some new) now (All-get_elem? _ t.buckets i b h.valid cover.found))
        (put-IsPlaced b new now (All-get_elem? IsPlaced t.buckets i b h.placed cover.found)
          (hid, cover.covers))

  put_loop-YieldsTable :
      (rounds : ℕ) (t : RoutingTable)
      → IsTable t
      → HasRounds t new.node_id rounds
      → YieldsTable (put_loop rounds t new now)
  unfolding put_loop
  put_loop-YieldsTable zero t h room =
      let (i, b, cover) = index_of-IsCovering t.buckets new.node_id h.tiles hid in
      absurd (omega (arith, room i b cover, cover.prefix.fits))
  put_loop-YieldsTable (suc rounds) t h room =
      let (i, b, cover) = index_of-IsCovering t.buckets new.node_id h.tiles hid in
      elim (Bool-cases (needs_split b new now)) [
        | inr stays ↦
            rw (cover.at, cover.found, stays, put_loop) (_, refl, put_covering t i b h cover)
        | inl splits ↦
            let (splittable, high) = needs_split-true b new now splits in
            let deeper : HasRounds (split t i b now) new.node_id rounds = λ j c found. omega (
              arith,
              room i b cover,
              split_deeper t i b now h cover.found cover.prefix splittable new.node_id j c hid high
                  found,
            ) in
            rw (cover.at, cover.found, splits, put_loop)
              (put_loop-YieldsTable rounds (split t i b now)
                (split-IsTable t i b now h cover.found cover.prefix splittable) deeper)
      ]

-- `_put` of an entry ends on every table in order: every list access is inside the list, and the
-- loop ends within its 257 rounds. The table is in order again.
pub table_put-IsTable :
    (t : RoutingTable) (e : Entry) (now : ℕ)
    → IsTable t
    → IsId e.node_id
    → (t' : RoutingTable) × (table_put t e now ≡ some t') × IsTable t'
unfolding table_put
table_put-IsTable t e now h hid = put_loop-YieldsTable e now hid 257 t h (λ i b cover. omega arith)
