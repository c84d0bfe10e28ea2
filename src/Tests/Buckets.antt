-- ===== src/Tests/Buckets.antt =====
-- Laws of entries and buckets at a bucket of two nodes, and runs on it.
use elastos_carrier_native.Prelude.{
  ◌+◌, ◌≡◌, refl, true, false, some, [], ◌∷◌, pos, anyb, inl, arith,
}
use elastos_carrier_native.Id.{id_eq, compare_to}
use elastos_carrier_native.Prefix.{root}
use elastos_carrier_native.Entry.{
  Entry, new_entry, backoff_shift, backoff_window_end, needs_ping, needs_replacement, matches,
  equals, address_eq,
}
use elastos_carrier_native.Entry.Backoff.{needs_ping_after_window_end}
use elastos_carrier_native.KBucket.{
  KBucket, IsBucket, new_bucket, put, put_entries, merge_existing, put_new, update_entries,
  insert_entry, unordered_insert, sort_created, insert_created, youngest_of, exists,
}
use elastos_carrier_native.KBucket.Invariant.{new_bucket-IsBucket, put-IsBucket}
use elastos_carrier_native.KBucket.Eviction.{put-keeps, put-adds}
use elastos_carrier_native.Tests.Data.{id_of, node}

-- The second is older, so that the list is sorted again.
abbrev two_nodes : KBucket
two_nodes = put (put (new_bucket root true) (some (node 5 0x50)) 100) (some (node 3 0x30)) 100

two_nodes-IsBucket : IsBucket two_nodes
two_nodes-IsBucket =
    put-IsBucket (put (new_bucket root true) (some (node 5 0x50)) 100) (some (node 3 0x30)) 100
      (put-IsBucket (new_bucket root true) (some (node 5 0x50)) 100 (new_bucket-IsBucket root true))

two_nodes_sorted : two_nodes.entries ≡ node 3 0x30 ∷ node 5 0x50 ∷ []
unfolding put new_bucket put_entries merge_existing put_new update_entries insert_entry
    unordered_insert sort_created insert_created youngest_of new_entry equals matches address_eq
    id_eq compare_to
two_nodes_sorted = refl

put-IsBucket_example : IsBucket (put two_nodes (some (node 4 0x40)) 200)
put-IsBucket_example = put-IsBucket two_nodes (some (node 4 0x40)) 200 two_nodes-IsBucket

-- A bucket whose entries are written out.
abbrev one_node : KBucket
one_node = record {
  prefix = root;
  home_bucket = true;
  entries = node 3 0x30 ∷ [];
  last_refresh = 0;
}

lives : needs_replacement (node 3 0x30) 200 ≡ false
unfolding needs_replacement new_entry
lives = refl

put-keeps_example : exists (put one_node (some (node 4 0x40)) 200) (id_of 0x30) ≡ true
unfolding new_entry
put-keeps_example =
    put-keeps one_node (node 3 0x30) (node 4 0x40) 200 (inl refl) ((λ _. refl), tt) lives
      (omega arith)

stranger : anyb (λ x. matches (node 4 0x40) x) one_node.entries ≡ false
unfolding matches new_entry address_eq id_eq compare_to
stranger = refl

put-adds_example : exists (put one_node (some (node 4 0x40)) 200) (id_of 0x40) ≡ true
unfolding new_entry
put-adds_example = put-adds one_node (node 4 0x40) 200 refl (omega arith) stranger

-- Two requests failed, the last was sent at 1000.
abbrev failed_twice : Entry
failed_twice = record (node 3 0x30) { last_send = 1000; failed_requests = pos 2 }

needs_ping_after_window_end_example :
    (backoff_window_end failed_twice ≡ pos (1000 + backoff_shift 1))
    × (needs_ping failed_twice 500000 ≡ false)
needs_ping_after_window_end_example =
    needs_ping_after_window_end failed_twice 1 500000 refl (omega arith) (omega arith) (omega arith)
      (omega arith) (omega arith)
