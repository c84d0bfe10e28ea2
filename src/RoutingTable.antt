-- ===== src/RoutingTable.antt =====
-- core/routing_table.cc and core/routing_table.h: the buckets, sorted by prefix, that split the
-- keyspace among them. A bucket is mutated through the list, so a method that writes returns the new
-- table; `none` is a list access outside the list, or a loop whose rounds ran out.
pub mod Search
pub mod Tiling
pub mod Splitting
pub mod Splice
pub mod Placement
pub mod Covering
pub mod Halving
pub mod Putting
pub mod Keeping
pub mod Merging
use elastos_carrier_native.Prelude.{
  ℕ, zero, suc, ◌+◌, ◌-◌, ◌/◌, ◌^◌, ◌≤◌, ◌<◌, ◌≡◌, Ordering, Bool, true, false, not, ◌&&◌, ◌||◌,
  ltb, leb, if◌then◌else◌, Option, none, some, List, [], ◌∷◌, ◌++◌, length, get_elem?, set, All, ℤ,
  pos, negsuc, pred_ℤ,
}
use elastos_carrier_native.Id.{NodeId, IsId, compare_to, is_lt}
use elastos_carrier_native.Id.Order.{id_value}
use elastos_carrier_native.Prefix.{
  Prefix, IsPrefix, root, is_prefix_of, is_splittable, split_branch, first, last,
}
use elastos_carrier_native.Entry.{Entry}
use elastos_carrier_native.KBucket.{
  KBucket, IsBucket, new_bucket, is_full, exists, bucket_needs_replacement, get, put, remove_if_bad,
  refresh, on_send, on_timeout,
}

pub record RoutingTable : Type 0 where
  pub local_id : NodeId
  pub buckets : List KBucket

unfoldable pub init : NodeId → RoutingTable
unfolding new_bucket
init local_id = record { local_id = local_id; buckets = new_bucket root true ∷ [] }

abbrev pub compare_int : Ordering → ℤ → ℤ → ℤ
compare_int Ordering.lt below other = below
compare_int _ below other = other

-- The loop of `indexOf`. `upper` is `high + 1`, which the source keeps at 0 or above; `cmp_at mid`
-- compares the Id with the prefix of bucket `mid`. Each round leaves fewer candidates, so the
-- rounds given are the number of buckets.
unfoldable pub index_loop : (ℕ → Ordering) → ℕ → ℕ → ℕ → ℕ → Ordering → ℤ
index_loop cmp_at zero low upper mid cmp = compare_int cmp (pred_ℤ (pos mid)) (pos mid)
index_loop cmp_at (suc rounds) low upper mid cmp = elim (ltb low upper) [
  | true ↦
      let mid' = (low + upper - 1) / 2 in
      elim (cmp_at mid') [
        | Ordering.gt ↦ index_loop cmp_at rounds (mid' + 1) upper mid' Ordering.gt
        | Ordering.lt ↦ index_loop cmp_at rounds low mid' mid' Ordering.lt
        | Ordering.eq ↦ pos mid'
      ]
  | false ↦ compare_int cmp (pred_ℤ (pos mid)) (pos mid)
]

unfoldable pub compare_at : List KBucket → NodeId → ℕ → Ordering
compare_at bs id mid = elim (get_elem? bs mid) [
  | none ↦ Ordering.eq
  | some b ↦ compare_to id b.prefix.bits
]

unfoldable pub index_of : List KBucket → NodeId → ℤ
unfolding index_loop compare_at
index_of bs id = index_loop (compare_at bs id) (length bs) 0 (length bs) 0 Ordering.eq

-- `list_get(buckets, index)`.
abbrev pub list_get : List KBucket → ℤ → Option KBucket
list_get bs (pos i) = get_elem? bs i
list_get bs (negsuc i) = none

unfoldable pub get_bucket : RoutingTable → NodeId → Option KBucket
unfolding index_of
get_bucket t id = list_get t.buckets (index_of t.buckets id)

-- Replaces bucket `index` by what a method made of it.
abbrev pub put_back : RoutingTable → ℤ → KBucket → RoutingTable
put_back t (pos i) b = record t { buckets = set t.buckets i b }
put_back t (negsuc i) b = t

abbrev pub with_bucket : RoutingTable → NodeId → (KBucket → KBucket) → Option RoutingTable
with_bucket t id f = elim (list_get t.buckets (index_of t.buckets id)) [
  | none ↦ none
  | some b ↦ some (put_back t (index_of t.buckets id) (f b))
]

unfoldable pub is_home_bucket : RoutingTable → Prefix → Bool
is_home_bucket t p = is_prefix_of p t.local_id

unfoldable pub needs_split : KBucket → Entry → ℕ → Bool
needs_split b new now =
    if not (is_splittable b.prefix)
      || (not (is_full b)
          || (not new.reachable || (exists b new.node_id || bucket_needs_replacement b now)))
    then false
    else is_prefix_of (split_branch b.prefix true) new.node_id

-- `newBuckets.sort`, by `compareTo` of the prefixes: stable, so it is insertion from the back.
unfoldable pub insert_bucket : KBucket → List KBucket → List KBucket
insert_bucket x [] = x ∷ []
insert_bucket x (b ∷ bs) =
    if is_lt (compare_to b.prefix.bits x.prefix.bits) then b ∷ insert_bucket x bs else x ∷ b ∷ bs

unfoldable pub sort_buckets : List KBucket → List KBucket
unfolding insert_bucket
sort_buckets [] = []
sort_buckets (b ∷ bs) = insert_bucket b (sort_buckets bs)

-- `list_removeAll` of one bucket, which stands at index `i`.
unfoldable pub remove_at : ℕ → List KBucket → List KBucket
remove_at i [] = []
remove_at zero (b ∷ bs) = bs
remove_at (suc i) (b ∷ bs) = b ∷ remove_at i bs

-- `_modify` with one bucket to remove.
unfoldable pub modify : RoutingTable → ℕ → List KBucket → RoutingTable
modify t i to_add = record t { buckets = sort_buckets (remove_at i t.buckets ++ to_add) }

-- The loop of `_split` over the entries.
unfoldable pub distribute : KBucket → KBucket → List Entry → ℕ → KBucket × KBucket
distribute l h [] now = (l, h)
distribute l h (e ∷ es) now =
    if is_prefix_of l.prefix e.node_id
    then distribute (put l (some e) now) h es now
    else distribute l (put h (some e) now) es now

unfoldable pub split : RoutingTable → ℕ → KBucket → ℕ → RoutingTable
unfolding distribute new_bucket modify
split t i b now =
    let pl = split_branch b.prefix false in
    let ph = split_branch b.prefix true in
    let l = new_bucket pl (is_home_bucket t pl) in
    let h = new_bucket ph (is_home_bucket t ph) in
    let both = distribute l h b.entries now in modify t i (both.0 ∷ both.1 ∷ [])

-- `_put`. A split makes the bucket's depth grow, so 256 rounds are enough.
unfoldable pub put_loop : ℕ → RoutingTable → Entry → ℕ → Option RoutingTable
put_loop zero t new now = none
put_loop (suc rounds) t new now = elim (index_of t.buckets new.node_id) [
  | negsuc n ↦ none
  | pos i ↦ elim (get_elem? t.buckets i) [
    | none ↦ none
    | some b ↦ elim (needs_split b new now) [
      | true ↦ put_loop rounds (split t i b now) new now
      | false ↦ some (record t { buckets = set t.buckets i (put b (some new) now) })
    ]
  ]
]

unfoldable pub table_put : RoutingTable → Entry → ℕ → Option RoutingTable
unfolding put_loop
table_put t new now = put_loop 257 t new now

unfoldable pub table_remove : RoutingTable → NodeId → ℕ → Option RoutingTable
table_remove t id now =
    with_bucket t id
      (λ b. elim (get b id) [ none ↦ b | some to_remove ↦ remove_if_bad b to_remove true now ])

unfoldable pub table_on_timeout : RoutingTable → NodeId → ℕ → Option RoutingTable
table_on_timeout t id now = with_bucket t id (λ b. on_timeout b id now)

unfoldable pub table_on_send : RoutingTable → NodeId → ℕ → Option RoutingTable
table_on_send t id now = with_bucket t id (λ b. on_send b id now)

unfoldable pub refresh_only : RoutingTable → Entry → Option RoutingTable
refresh_only t e = with_bucket t e.node_id (λ b. refresh b e)

unfoldable pub get_entry : RoutingTable → NodeId → Option Entry
unfolding get_bucket
get_entry t id = elim (get_bucket t id) [ none ↦ none | some b ↦ get b id ]

unfoldable pub num_bucket_entries : List KBucket → ℕ
num_bucket_entries [] = 0
num_bucket_entries (b ∷ bs) = length b.entries + num_bucket_entries bs

abbrev pub keyspace : ℕ
keyspace = 2 ^ 256

-- The buckets cover the keys from `start` to the end, each beginning where the one before ends.
pub Tiles : ℕ → List KBucket → Type 0
Tiles start [] = start ≡ keyspace
Tiles start (b ∷ bs) =
    IsPrefix b.prefix
    × (id_value (first b.prefix) ≡ start)
    × Tiles (id_value (last b.prefix) + 1) bs

-- The entries of a bucket lie under its prefix.
abbrev pub IsPlaced : KBucket → Type 0
IsPlaced b = All (λ e. IsId e.node_id × (is_prefix_of b.prefix e.node_id ≡ true)) b.entries

pub record IsTable (t : RoutingTable) : Type 0 where
  pub tiles : Tiles 0 t.buckets
  pub valid : All IsBucket t.buckets
  pub placed : All IsPlaced t.buckets
