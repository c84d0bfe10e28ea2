-- ===== src/KClosestNodes.antt =====
-- core/kclosest_nodes.cc and core/kclosest_nodes.h: the entries of the table that are closest to a
-- target. `filter` is the function given to the constructor; `bootstrap` are the bootstrap nodes of
-- the configuration whose address the node can use, and `self` is the entry made for the node.
pub mod Nearest
pub mod Filling
use elastos_carrier_native.Prelude.{
  ℕ, zero, suc, ◌+◌, ◌-◌, ◌≤◌, ◌<◌, Ordering, Bool, true, false, not, ◌&&◌, ltb, leb, if◌then◌else◌,
  Option, none, some, List, [], ◌∷◌, ◌++◌, length, get_elem?, take, drop, filterb, ℤ, pos, negsuc,
}
use elastos_carrier_native.Id.{NodeId, three_way_compare, is_lt}
use elastos_carrier_native.Prefix.{first, last}
use elastos_carrier_native.Entry.{Entry, is_eligible_for_nodes_list}
use elastos_carrier_native.KBucket.{KBucket}
use elastos_carrier_native.RoutingTable.{index_of}

abbrev pub default_filter : Entry → Bool
unfolding is_eligible_for_nodes_list
default_filter e = is_eligible_for_nodes_list e

-- `entries` after `insertEntries(bucket)`.
unfoldable pub insert_entries : (Entry → Bool) → List Entry → KBucket → List Entry
insert_entries filter entries bucket = entries ++ filterb filter bucket.entries

-- `entries.sort`: stable, so it is insertion from the back.
unfoldable pub insert_near : NodeId → Entry → List Entry → List Entry
insert_near target x [] = x ∷ []
insert_near target x (e ∷ es) =
    if is_lt (three_way_compare target e.node_id x.node_id)
    then e ∷ insert_near target x es
    else x ∷ e ∷ es

unfoldable pub sort_near : NodeId → List Entry → List Entry
unfolding insert_near
sort_near target [] = []
sort_near target (e ∷ es) = insert_near target e (sort_near target es)

-- The entries that `shave` leaves, and `obsolete`.
unfoldable pub shave : NodeId → ℕ → List Entry → List Entry × List Entry
unfolding sort_near
shave target max_entries entries =
    if leb (length entries) max_entries
    then (entries, [])
    else (take max_entries (sort_near target entries), drop max_entries (sort_near target entries))

-- The loop of `fill` over the buckets on both sides. The guards keep the indices inside the list.
unfoldable pub fill_loop :
    List KBucket → NodeId → ℕ → (Entry → Bool) → ℕ → ℕ → ℕ → List Entry → Option (List Entry)
unfolding insert_entries
fill_loop buckets target max_entries filter zero low high entries = none
fill_loop buckets target max_entries filter (suc rounds) low high entries =
    elim (ltb (length entries) max_entries) [
      | false ↦ some entries
      | true ↦ elim (if ltb 0 low then get_elem? buckets (low - 1) else none) [
        | none ↦
            elim (if ltb high (length buckets - 1) then get_elem? buckets (high + 1) else none) [
              | none ↦ some entries
              | some high_bucket ↦
                  fill_loop buckets target max_entries filter rounds low (high + 1)
                    (insert_entries filter entries high_bucket)
            ]
        | some low_bucket ↦
            elim (if ltb high (length buckets - 1) then get_elem? buckets (high + 1) else none) [
              | none ↦
                  fill_loop buckets target max_entries filter rounds (low - 1) high
                    (insert_entries filter entries low_bucket)
              | some high_bucket ↦
                  elim (three_way_compare target (last low_bucket.prefix)
                    (first high_bucket.prefix)) [
                      | Ordering.lt ↦
                          fill_loop buckets target max_entries filter rounds (low - 1) high
                            (insert_entries filter entries low_bucket)
                      | Ordering.gt ↦
                          fill_loop buckets target max_entries filter rounds low (high + 1)
                            (insert_entries filter entries high_bucket)
                      | Ordering.eq ↦
                          fill_loop buckets target max_entries filter rounds (low - 1) (high + 1) (
                            insert_entries filter (insert_entries filter entries low_bucket)
                              high_bucket)
                    ]
            ]
      ]
    ]

abbrev pub add_bootstrap : ℕ → List Entry → List Entry → List Entry
add_bootstrap max_entries bootstrap entries =
    if ltb (length entries) max_entries then entries ++ bootstrap else entries

abbrev pub add_self : ℕ → Bool → Entry → List Entry → List Entry
add_self max_entries include_self self entries =
    if ltb (length entries) max_entries && include_self then entries ++ self ∷ [] else entries

-- The entries after `fill`. Each round of the loop takes one bucket at least, so the number of
-- buckets is enough.
unfoldable pub fill :
    List KBucket → NodeId → ℕ → (Entry → Bool) → List Entry → Bool → Entry → Option (List Entry)
unfolding fill_loop shave
fill buckets target max_entries filter bootstrap include_self self =
    elim (index_of buckets target) [
      | negsuc n ↦ none
      | pos idx ↦ elim (get_elem? buckets idx) [
        | none ↦ none
        | some kb ↦
            elim (fill_loop buckets target max_entries filter (length buckets) idx idx
              (insert_entries filter [] kb)) [
                | none ↦ none
                | some entries ↦
                    some
                      (shave target max_entries (
                        add_self max_entries include_self self
                          (add_bootstrap max_entries bootstrap entries))).0
              ]
      ]
    ]
