-- ===== src/RoutingTable/Merging.antt =====
-- `_mergeBuckets` of core/routing_table.cc: sibling buckets become one again.
pub mod Ends
use elastos_carrier_native.Prelude.{
  ℕ, zero, suc, ◌+◌, ◌-◌, ◌*◌, ◌≤◌, ◌<◌, ◌≡◌, refl, ◌∙◌, ap, Bool, true, false, not, ◌&&◌, ltb, leb,
  if◌then◌else◌, Option, none, some, List, [], ◌∷◌, ◌++◌, length, get_elem?, filterb, All, ltb→lt,
  Bool-cases, inl, inr, dec_lt, arith,
}
use elastos_carrier_native.Prefix.{Prefix, is_sibling_of, get_parent}
use elastos_carrier_native.Id.{compare_to, is_lt}
use elastos_carrier_native.Entry.{Entry, removable_without_replacement}
use elastos_carrier_native.KBucket.{KBucket, IsBucket, new_bucket, put, max_entries}
use elastos_carrier_native.KBucket.Invariant.{put-IsBucket, new_bucket-IsBucket}
use elastos_carrier_native.RoutingTable.{
  RoutingTable, is_home_bucket, remove_at, sort_buckets, insert_bucket,
}

-- `getEffectiveSize`.
unfoldable pub effective_size : KBucket → ℕ
effective_size b = length (filterb (λ e. not (removable_without_replacement e)) b.entries)

-- A loop of `_put` over entries.
unfoldable pub put_each : KBucket → List Entry → ℕ → KBucket
put_each b [] now = b
put_each b (e ∷ es) now = put_each (put b (some e) now) es now

unfoldable pub can_merge : KBucket → KBucket → Bool
unfolding effective_size
can_merge b1 b2 =
    is_sibling_of b1.prefix b2.prefix && leb (effective_size b1 + effective_size b2) max_entries

unfoldable pub merged_bucket : RoutingTable → KBucket → KBucket → ℕ → KBucket
unfolding put_each
merged_bucket t b1 b2 now =
    let parent = get_parent b1.prefix in
    put_each (put_each (new_bucket parent (is_home_bucket t parent)) b1.entries now) b2.entries now

-- `_modify` with the buckets at `i - 1` and `i` to remove.
unfoldable pub merge_at : RoutingTable → ℕ → KBucket → ℕ → RoutingTable
merge_at t i b now = record t {
  buckets = sort_buckets (remove_at (i - 1) (remove_at i t.buckets) ++ b ∷ []);
}

-- The loop, from the increment of the index on: `i` is the index after it, which starts at 1 and
-- can fall back to 0.
unfoldable pub merge_loop : ℕ → RoutingTable → ℕ → ℕ → Option RoutingTable
unfolding can_merge merged_bucket merge_at
merge_loop zero t i now = none
merge_loop (suc rounds) t i now = elim (ltb i 1) [
  | true ↦ merge_loop rounds t (i + 1) now
  | false ↦ elim (leb (length t.buckets) i) [
    | true ↦ some t
    | false ↦ elim (get_elem? t.buckets (i - 1)) [
      | none ↦ none
      | some b1 ↦ elim (get_elem? t.buckets i) [
        | none ↦ none
        | some b2 ↦ elim (can_merge b1 b2) [
          | true ↦ merge_loop rounds (merge_at t i (merged_bucket t b1 b2 now) now) (i - 1) now
          | false ↦ merge_loop rounds t (i + 1) now
        ]
      ]
    ]
  ]
]

-- Each merge takes a bucket away, so twice the number of buckets is enough.
unfoldable pub merge_buckets : RoutingTable → ℕ → Option RoutingTable
unfolding merge_loop
merge_buckets t now = merge_loop (2 * length t.buckets + 1) t 1 now
