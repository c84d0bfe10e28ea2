-- ===== src/RoutingTable/Merging/Ends.antt =====
-- The loop of `_mergeBuckets`: how many buckets and rounds are left.
use elastos_carrier_native.Prelude.{
  ℕ, zero, suc, ◌+◌, ◌-◌, ◌*◌, ◌≤◌, ◌<◌, ◌≡◌, refl, false, ltb, leb, Option, some, List, [], ◌∷◌,
  ◌++◌, length, get_elem?, All, ltb→lt, Bool-cases, inl, inr, arith,
}
use elastos_carrier_native.Id.{compare_to, is_lt}
use elastos_carrier_native.Entry.{Entry}
use elastos_carrier_native.KBucket.{KBucket, IsBucket, put}
use elastos_carrier_native.KBucket.Invariant.{put-IsBucket, new_bucket-IsBucket}
use elastos_carrier_native.RoutingTable.{RoutingTable, remove_at, sort_buckets, insert_bucket}
use elastos_carrier_native.RoutingTable.Merging.{
  put_each, can_merge, merged_bucket, merge_at, merge_loop, merge_buckets,
}

length-insert_bucket :
    (x : KBucket) (bs : List KBucket) → length (insert_bucket x bs) ≡ suc (length bs)
unfolding insert_bucket
length-insert_bucket x [] = refl
length-insert_bucket x (b ∷ bs) =
    elim (Bool-cases (is_lt (compare_to b.prefix.bits x.prefix.bits))) [
      | inl t ↦ rw t (omega (arith, length-insert_bucket x bs))
      | inr f ↦ rw f refl
    ]

length-sort_buckets : (bs : List KBucket) → length (sort_buckets bs) ≡ length bs
unfolding sort_buckets
length-sort_buckets [] = refl
length-sort_buckets (b ∷ bs) =
    omega (arith, length-insert_bucket b (sort_buckets bs), length-sort_buckets bs)

length-remove_at :
    (i : ℕ) (bs : List KBucket) → i < length bs → suc (length (remove_at i bs)) ≡ length bs
unfolding remove_at
length-remove_at i [] h = absurd (omega arith)
length-remove_at zero (b ∷ bs) h = refl
length-remove_at (suc i) (b ∷ bs) h = omega (arith, length-remove_at i bs (omega arith))

length-append_one : (bs : List KBucket) (b : KBucket) → length (bs ++ b ∷ []) ≡ suc (length bs)
length-append_one [] b = refl
length-append_one (x ∷ bs) b = omega (arith, length-append_one bs b)

length-merge_at :
    (t : RoutingTable) (i : ℕ) (b : KBucket) (now : ℕ)
    → 0 < i
    → i < length t.buckets
    → suc (length (merge_at t i b now).buckets) ≡ length t.buckets
unfolding merge_at
length-merge_at t i b now low high =
    let rest = remove_at i t.buckets in
    omega (
      arith,
      length-sort_buckets (remove_at (i - 1) rest ++ b ∷ []),
      length-append_one (remove_at (i - 1) rest) b,
      length-remove_at i t.buckets high,
      length-remove_at (i - 1) rest (omega (arith, length-remove_at i t.buckets high)),
    )

All-insert_bucket {κ} :
    (P : KBucket → Type κ) (x : KBucket) (bs : List KBucket)
    → P x
    → All P bs
    → All P (insert_bucket x bs)
unfolding insert_bucket
All-insert_bucket P x [] px h = (px, tt)
All-insert_bucket P x (b ∷ bs) px h =
    elim (Bool-cases (is_lt (compare_to b.prefix.bits x.prefix.bits))) [
      | inl t ↦ rw t (h.0, All-insert_bucket P x bs px h.1)
      | inr f ↦ rw f (px, h)
    ]

All-sort_buckets {κ} :
    (P : KBucket → Type κ) (bs : List KBucket) → All P bs → All P (sort_buckets bs)
unfolding sort_buckets
All-sort_buckets P [] h = tt
All-sort_buckets P (b ∷ bs) h =
    All-insert_bucket P b (sort_buckets bs) h.0 (All-sort_buckets P bs h.1)

All-remove_at {κ} :
    (P : KBucket → Type κ) (i : ℕ) (bs : List KBucket) → All P bs → All P (remove_at i bs)
unfolding remove_at
All-remove_at P i [] h = tt
All-remove_at P zero (b ∷ bs) h = h.1
All-remove_at P (suc i) (b ∷ bs) h = (h.0, All-remove_at P i bs h.1)

All-append_one {κ} :
    (P : KBucket → Type κ) (bs : List KBucket) (b : KBucket) → All P bs → P b → All P (bs ++ b ∷ [])
All-append_one P [] b h p = (p, tt)
All-append_one P (x ∷ bs) b h p = (h.0, All-append_one P bs b h.1 p)

put_each-IsBucket :
    (b : KBucket) (es : List Entry) (now : ℕ) → IsBucket b → IsBucket (put_each b es now)
unfolding put_each
put_each-IsBucket b [] now h = h
put_each-IsBucket b (e ∷ es) now h =
    put_each-IsBucket (put b (some e) now) es now (put-IsBucket b (some e) now h)

merged_bucket-IsBucket :
    (t : RoutingTable) (b1 b2 : KBucket) (now : ℕ) → IsBucket (merged_bucket t b1 b2 now)
unfolding merged_bucket
merged_bucket-IsBucket t b1 b2 now =
    put_each-IsBucket _ b2.entries now
      (put_each-IsBucket _ b1.entries now (new_bucket-IsBucket _ _))

merge_at-valid :
    (t : RoutingTable) (i : ℕ) (b : KBucket) (now : ℕ)
    → All IsBucket t.buckets
    → IsBucket b
    → All IsBucket (merge_at t i b now).buckets
unfolding merge_at
merge_at-valid t i b now h hb = All-sort_buckets IsBucket _ (
    All-append_one IsBucket _ b
      (All-remove_at IsBucket (i - 1) _ (All-remove_at IsBucket i t.buckets h)) hb)

inside_get : (bs : List KBucket) (i : ℕ) → i < length bs → (b : KBucket) × (get_elem? bs i ≡ some b)
inside_get [] i h = absurd (omega arith)
inside_get (b ∷ bs) zero h = (b, refl)
inside_get (b ∷ bs) (suc i) h = inside_get bs i (omega arith)

-- The loop ends in a table of valid buckets, no more than there were.
record Merged (t : RoutingTable) (r : Option RoutingTable) : Type 0 where
  table : RoutingTable
  ends : r ≡ some table
  valid : All IsBucket table.buckets
  fewer : length table.buckets ≤ length t.buckets

widen :
    (s t : RoutingTable) (r : Option RoutingTable)
    → length s.buckets ≤ length t.buckets
    → Merged s r
    → Merged t r
widen s t r le m = record {
  table = m.table;
  ends = m.ends;
  valid = m.valid;
  fewer = omega (arith, m.fewer);
}

merge_loop-Merged :
    (rounds : ℕ) (t : RoutingTable) (i now : ℕ)
    → All IsBucket t.buckets
    → 2 * length t.buckets + 1 < i + rounds
    → i ≤ length t.buckets + 1
    → Merged t (merge_loop rounds t i now)
unfolding merge_loop
merge_loop-Merged zero t i now h enough bound = absurd (omega arith)
merge_loop-Merged (suc rounds) t i now h enough bound = elim (Bool-cases (ltb i 1)) [
  | inl back ↦
      rw (back, merge_loop)
        (merge_loop-Merged rounds t (i + 1) now h (omega arith) (omega (arith, ltb→lt _ _ back)))
  | inr front ↦ elim (Bool-cases (leb (length t.buckets) i)) [
    | inl end ↦
        rw (front, end, merge_loop)
          (record { table = t; ends = refl; valid = h; fewer = omega arith })
    | inr more ↦
        let low : 0 < i = positive i front in
        let high : i < length t.buckets = below i (length t.buckets) more in
        let (b1, found1) = inside_get t.buckets (i - 1) (omega arith) in
        let (b2, found2) = inside_get t.buckets i high in
        elim (Bool-cases (can_merge b1 b2)) [
          | inr apart ↦
              rw (front, more, found1, found2, apart, merge_loop)
                (merge_loop-Merged rounds t (i + 1) now h (omega arith) (omega arith))
          | inl siblings ↦
              let b = merged_bucket t b1 b2 now in
              let size = length-merge_at t i b now low high in
              rw (front, more, found1, found2, siblings, merge_loop)
                (widen (merge_at t i b now) t _ (omega arith) (
                  merge_loop-Merged rounds (merge_at t i b now) (i - 1) now
                    (merge_at-valid t i b now h (merged_bucket-IsBucket t b1 b2 now)) (omega arith)
                    (omega arith)))
        ]
  ]
]
  where
    positive : (i : ℕ) → ltb i 1 ≡ false → 0 < i
    positive i h = ground arith

    below : (i n : ℕ) → leb n i ≡ false → i < n
    below i n h = ground arith

-- `_mergeBuckets` of a table of valid buckets ends: every list access is inside the list, and the
-- loop ends within 2 * n + 1 rounds for n buckets. Its buckets are valid again, and no more than
-- before.
pub merge_buckets-valid :
    (t : RoutingTable) (now : ℕ)
    → All IsBucket t.buckets
    → (t' : RoutingTable) × (merge_buckets t now ≡ some t')
      × All IsBucket t'.buckets
      × (length t'.buckets ≤ length t.buckets)
unfolding merge_buckets
merge_buckets-valid t now h =
    let m = merge_loop-Merged (2 * length t.buckets + 1) t 1 now h (omega arith) (omega arith) in
    (m.table, m.ends, m.valid, m.fewer)
