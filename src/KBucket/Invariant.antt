-- ===== src/KBucket/Invariant.antt =====
-- `IsBucket` through the operations of core/kbucket.cc.
use elastos_carrier_native.Prelude.{
  ℕ, refl, Bool, false, ◌&&◌, ◌||◌, Option, none, some, List, anyb, find?, Option-cases, if_cases,
  inl, inr, arith,
}
use elastos_carrier_native.Id.{NodeId, id_eq}
use elastos_carrier_native.Entry.{
  Entry, needs_replacement, signal_response, signal_request, signal_request_timeout,
}
use elastos_carrier_native.Entry.Laws.{
  merge-SameNode, reachable-merge, signal_response-SameNode, signal_request-SameNode,
  signal_request_timeout-SameNode, reachable-signal_request_timeout,
}
use elastos_carrier_native.KBucket.{
  KBucket, IsBucket, remove_ref, update_entries, merge_existing, put_entries, put, remove_if_bad,
  refresh, notify_of_response, on_send, on_timeout, new_bucket,
}
use elastos_carrier_native.Prefix.{Prefix}
use elastos_carrier_native.KBucket.Replace.{IsEntries, put_new-IsEntries}
use elastos_carrier_native.KBucket.Merge.{update_first-IsEntries, merge_existing-update_first}
use elastos_carrier_native.KBucket.Apart.{All-remove_ref, remove_ref-IsApart, length-remove_ref}

put_entries-IsEntries :
    (es : List Entry) (new : Entry) (now : ℕ) → IsEntries es → IsEntries (put_entries es new now)
unfolding put_entries
put_entries-IsEntries es new now h = elim (Option-cases (merge_existing es new)) [
  | inl n ↦ rw (n, put_entries) (put_new-IsEntries es new now h)
  | inr (es', s) ↦
      rw (s, put_entries)
        (elim (merge_existing-update_first es new s) [
          | inl same ↦ rw same h
          | inr merged ↦
              rw merged (
                update_first-IsEntries _ _ es (λ e. (merge-SameNode e new, reachable-merge e new))
                  h)
        ])
]

abbrev entries_of : (b : KBucket) → IsBucket b → IsEntries b.entries
entries_of b h = record { room = h.room; reached = h.reached; apart = h.apart }

abbrev with_entries :
    (b : KBucket) (es : List Entry) → IsEntries es → IsBucket (record b { entries = es })
with_entries b es h = record { room = h.room; reached = h.reached; apart = h.apart }

pub new_bucket-IsBucket : (p : Prefix) (home : Bool) → IsBucket (new_bucket p home)
unfolding new_bucket
new_bucket-IsBucket p home = record { room = omega arith; reached = tt; apart = tt }

-- `_put` of any entry, or of a null pointer, keeps a bucket at most full, its entries reached, and
-- no two of them with one id or address.
pub put-IsBucket :
    (b : KBucket) (new : Option Entry) (now : ℕ) → IsBucket b → IsBucket (put b new now)
unfolding put
put-IsBucket b none now h = h
put-IsBucket b (some new) now h =
    with_entries b _ (put_entries-IsEntries b.entries new now (entries_of b h))

-- `_removeIfBad` keeps the invariant.
pub remove_if_bad-IsBucket :
    (b : KBucket) (e : Entry) (force : Bool) (now : ℕ)
    → IsBucket b
    → IsBucket (remove_if_bad b e force now)
unfolding remove_if_bad update_entries
remove_if_bad-IsBucket b e force now h =
    if_cases IsBucket
      ((force || needs_replacement e now) && anyb (λ x. id_eq x.node_id e.node_id) b.entries)
      {x = record b { entries = remove_ref e.ref b.entries }}
      (record {
        room = omega (arith, length-remove_ref e.ref b.entries, h.room);
        reached = All-remove_ref _ e.ref b.entries h.reached;
        apart = remove_ref-IsApart e.ref b.entries h.apart;
      })
      h

-- `_update` with any entry to refresh keeps a bucket at most full, its entries reached, and no two
-- of them with one id or address.
pub refresh-IsBucket : (b : KBucket) (e : Entry) → IsBucket b → IsBucket (refresh b e)
unfolding refresh
refresh-IsBucket b e h = with_entries b _ (
    update_first-IsEntries _ _ b.entries (λ x. (merge-SameNode x e, reachable-merge x e))
      (entries_of b h))

-- `_notifyOfResponse` of any message keeps a bucket at most full, its entries reached, and no two
-- of them with one id or address.
pub notify_of_response-IsBucket :
    (b : KBucket) (is_response has_call : Bool) (id : NodeId) (now : ℕ)
    → IsBucket b
    → IsBucket (notify_of_response b is_response has_call id now)
unfolding notify_of_response signal_response
notify_of_response-IsBucket b r c id now h = if_cases IsBucket _ h (
    with_entries b _ (
      update_first-IsEntries _ _ b.entries (λ x. (signal_response-SameNode x now, λ _. refl))
        (entries_of b h)))

pub on_send-IsBucket :
    (b : KBucket) (id : NodeId) (now : ℕ) → IsBucket b → IsBucket (on_send b id now)
unfolding on_send signal_request
on_send-IsBucket b id now h = with_entries b _ (
    update_first-IsEntries _ _ b.entries (λ x. (signal_request-SameNode x now, λ r. r))
      (entries_of b h))

-- `_onTimeout` of any Id keeps a bucket at most full, its entries reached, and no two of them with
-- one id or address.
pub on_timeout-IsBucket :
    (b : KBucket) (id : NodeId) (now : ℕ) → IsBucket b → IsBucket (on_timeout b id now)
unfolding on_timeout
on_timeout-IsBucket b id now h = elim (Option-cases (find? (λ e. id_eq e.node_id id) b.entries)) [
  | inl n ↦ rw (n, on_timeout) h
  | inr (e, found) ↦
      rw (found, on_timeout)
        (remove_if_bad-IsBucket _ (signal_request_timeout e) false now (
          with_entries b _ (
            update_first-IsEntries _ _ b.entries
              (λ x. (signal_request_timeout-SameNode x, reachable-signal_request_timeout x))
              (entries_of b h))))
]
