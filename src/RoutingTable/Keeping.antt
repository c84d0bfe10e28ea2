-- ===== src/RoutingTable/Keeping.antt =====
-- The operations of core/routing_table.cc and .h on the bucket of one Id: `_remove`, `_onTimeout`,
-- `_onSend` and `_refreshOnly`.
use elastos_carrier_native.Prelude.{
  ℕ, ◌≡◌, refl, Bool, true, false, ◌&&◌, ◌||◌, none, some, find?, anyb, if_cases, Option-cases, inl,
  inr,
}
use elastos_carrier_native.Id.{NodeId, IsId, id_eq}
use elastos_carrier_native.Entry.{Entry, needs_replacement, signal_request_timeout}
use elastos_carrier_native.Entry.Laws.{
  SameNode, merge-SameNode, signal_request-SameNode, signal_request_timeout-SameNode,
}
use elastos_carrier_native.KBucket.{
  KBucket, IsBucket, get, remove_ref, update_entries, update_first, remove_if_bad, refresh, on_send,
  on_timeout,
}
use elastos_carrier_native.KBucket.Apart.{All-remove_ref, All-update_first}
use elastos_carrier_native.KBucket.Invariant.{
  remove_if_bad-IsBucket, refresh-IsBucket, on_send-IsBucket, on_timeout-IsBucket,
}
use elastos_carrier_native.RoutingTable.{
  RoutingTable, IsTable, IsPlaced, put_back, with_bucket, table_remove, table_on_timeout,
  table_on_send, refresh_only,
}
use elastos_carrier_native.RoutingTable.Tiling.{index_of-IsCovering}
use elastos_carrier_native.RoutingTable.Placement.{IsUnder-SameNode}
use elastos_carrier_native.RoutingTable.Covering.{All-get_elem?, set-IsTable}
use elastos_carrier_native.RoutingTable.Putting.{YieldsTable}

-- What an operation on a bucket leaves as it was.
record Keeps (b c : KBucket) : Type 0 where
  prefix : c.prefix ≡ b.prefix
  valid : IsBucket b → IsBucket c
  placed : IsPlaced b → IsPlaced c

with_bucket-YieldsTable :
    (t : RoutingTable) (id : NodeId) (f : KBucket → KBucket)
    → IsTable t
    → IsId id
    → ((b : KBucket) → Keeps b (f b))
    → YieldsTable (with_bucket t id f)
with_bucket-YieldsTable t id f h hid keeps =
    let (i, b, cover) = index_of-IsCovering t.buckets id h.tiles hid in
    let k = keeps b in
    rw (cover.at, cover.found, with_bucket, cover.at, put_back)
      (
        _,
        refl,
        set-IsTable t i b (f b) h cover.found k.prefix
            (k.valid (All-get_elem? IsBucket t.buckets i b h.valid cover.found))
            (k.placed (All-get_elem? IsPlaced t.buckets i b h.placed cover.found)),
      )

-- The bucket has the prefix of another, and entries under it where the other does.
abbrev KeepsPlaces : KBucket → KBucket → Type 0
KeepsPlaces b c = (c.prefix ≡ b.prefix) × (IsPlaced b → IsPlaced c)

keep_same : {b c : KBucket} → (IsBucket b → IsBucket c) → KeepsPlaces b c → Keeps b c
keep_same valid places = record { prefix = places.0; valid = valid; placed = places.1 }

remove_if_bad-KeepsPlaces :
    (b : KBucket) (e : Entry) (force : Bool) (now : ℕ) → KeepsPlaces b (remove_if_bad b e force now)
unfolding remove_if_bad update_entries
remove_if_bad-KeepsPlaces b e force now =
    if_cases (KeepsPlaces b)
      ((force || needs_replacement e now) && anyb (λ x. id_eq x.node_id e.node_id) b.entries)
      {x = record b { entries = remove_ref e.ref b.entries }}
      (refl, All-remove_ref _ e.ref b.entries) (refl, λ h. h)

update_first-KeepsPlaces :
    (p : Entry → Bool) (f : Entry → Entry) (b : KBucket)
    → ((e : Entry) → SameNode e (f e))
    → KeepsPlaces b (record b { entries = update_first p f b.entries })
update_first-KeepsPlaces p f b same =
    (refl, All-update_first _ p f b.entries (λ e. IsUnder-SameNode b.prefix e (f e) (same e)))

refresh-KeepsPlaces : (b : KBucket) (e : Entry) → KeepsPlaces b (refresh b e)
unfolding refresh
refresh-KeepsPlaces b e = update_first-KeepsPlaces _ _ b (λ x. merge-SameNode x e)

on_send-KeepsPlaces : (b : KBucket) (id : NodeId) (now : ℕ) → KeepsPlaces b (on_send b id now)
unfolding on_send
on_send-KeepsPlaces b id now = update_first-KeepsPlaces _ _ b (λ x. signal_request-SameNode x now)

on_timeout-KeepsPlaces : (b : KBucket) (id : NodeId) (now : ℕ) → KeepsPlaces b (on_timeout b id now)
unfolding on_timeout
on_timeout-KeepsPlaces b id now = elim (Option-cases (find? (λ e. id_eq e.node_id id) b.entries)) [
  | inl n ↦ rw (n, on_timeout) (refl, λ h. h)
  | inr (e, found) ↦
      let failed =
        update_first-KeepsPlaces (λ x. id_eq x.node_id id) signal_request_timeout b
          signal_request_timeout-SameNode in
      let kept =
        remove_if_bad-KeepsPlaces
          (record b {
            entries = update_first (λ x. id_eq x.node_id id) signal_request_timeout b.entries;
          })
          (signal_request_timeout e) false now in
      rw (found, on_timeout) (kept.0, λ h. kept.1 (failed.1 h))
]

remove-Keeps :
    (id : NodeId) (now : ℕ) (b : KBucket)
    → Keeps b (elim (get b id) [ none ↦ b | some e ↦ remove_if_bad b e true now ])
remove-Keeps id now b = elim (Option-cases (get b id)) [
  | inl n ↦ rw n (keep_same (λ h. h) (refl, λ h. h))
  | inr (e, found) ↦
      rw found
        (keep_same (remove_if_bad-IsBucket b e true now) (remove_if_bad-KeepsPlaces b e true now))
]

-- `remove` of an Id ends on every table in order, every list access inside the list, and the table
-- is in order again.
pub table_remove-IsTable :
    (t : RoutingTable) (id : NodeId) (now : ℕ)
    → IsTable t
    → IsId id
    → (t' : RoutingTable) × (table_remove t id now ≡ some t') × IsTable t'
unfolding table_remove
table_remove-IsTable t id now h hid = with_bucket-YieldsTable t id _ h hid (remove-Keeps id now)

-- `onTimeout` of an Id ends on every table in order, every list access inside the list, and the
-- table is in order again.
pub table_on_timeout-IsTable :
    (t : RoutingTable) (id : NodeId) (now : ℕ)
    → IsTable t
    → IsId id
    → (t' : RoutingTable) × (table_on_timeout t id now ≡ some t') × IsTable t'
unfolding table_on_timeout
table_on_timeout-IsTable t id now h hid =
    with_bucket-YieldsTable t id _ h hid
      (λ b. keep_same (on_timeout-IsBucket b id now) (on_timeout-KeepsPlaces b id now))

-- `onSend` to an Id ends on every table in order, every list access inside the list, and the table
-- is in order again.
pub table_on_send-IsTable :
    (t : RoutingTable) (id : NodeId) (now : ℕ)
    → IsTable t
    → IsId id
    → (t' : RoutingTable) × (table_on_send t id now ≡ some t') × IsTable t'
unfolding table_on_send
table_on_send-IsTable t id now h hid =
    with_bucket-YieldsTable t id _ h hid
      (λ b. keep_same (on_send-IsBucket b id now) (on_send-KeepsPlaces b id now))

-- `_refreshOnly` of an entry ends on every table in order, every list access inside the list, and
-- the table is in order again.
pub refresh_only-IsTable :
    (t : RoutingTable) (e : Entry)
    → IsTable t
    → IsId e.node_id
    → (t' : RoutingTable) × (refresh_only t e ≡ some t') × IsTable t'
unfolding refresh_only
refresh_only-IsTable t e h hid =
    with_bucket-YieldsTable t e.node_id _ h hid
      (λ b. keep_same (refresh-IsBucket b e) (refresh-KeepsPlaces b e))
