-- ===== src/KClosestNodes/Filling.antt =====
-- `fill` of core/kclosest_nodes.cc and its loop.
use elastos_carrier_native.Prelude.{
  ℕ, zero, suc, ◌+◌, ◌-◌, ◌≤◌, ◌<◌, ◌≡◌, refl, Ordering, Bool, true, false, ltb, ltb→lt,
  if◌then◌else◌, Option, none, some, List, [], length, get_elem?, Bool-cases, Option-cases, inl,
  inr, arith,
}
use elastos_carrier_native.Id.{NodeId, IsId, three_way_compare}
use elastos_carrier_native.Prefix.{first, last}
use elastos_carrier_native.Entry.{Entry}
use elastos_carrier_native.KBucket.{KBucket}
use elastos_carrier_native.RoutingTable.{RoutingTable, IsTable}
use elastos_carrier_native.RoutingTable.Tiling.{index_of-IsCovering}
use elastos_carrier_native.KClosestNodes.{insert_entries, fill_loop, fill, add_self, add_bootstrap}
use elastos_carrier_native.KClosestNodes.Nearest.{length-shave}

-- A bucket is found only on the side of a guard that holds.
side :
    (guard : Bool) (r : Option KBucket) (b : KBucket)
    → (if guard then r else none) ≡ some b
    → guard ≡ true
side true r b e = refl
side false r b e = absurd (ground arith)

abbrev Ends : Option (List Entry) → Type 0
Ends r = (es : List Entry) × (r ≡ some es)

module _ (buckets : List KBucket) (target : NodeId) (max_entries : ℕ) (filter : Entry → Bool) where
  fill_loop-Ends :
      (rounds low high : ℕ) (entries : List Entry)
      → high < length buckets
      → low + (length buckets - 1 - high) < rounds
      → Ends (fill_loop buckets target max_entries filter rounds low high entries)
  unfolding fill_loop
  fill_loop-Ends zero low high entries inside enough = absurd (omega arith)
  fill_loop-Ends (suc rounds) low high entries inside enough =
      elim (Bool-cases (ltb (length entries) max_entries)) [
        | inr full ↦ rw (full, fill_loop) (entries, refl)
        | inl more ↦ elim (Option-cases (if ltb 0 low then get_elem? buckets (low - 1) else none)) [
          | inl no_low ↦
              elim (Option-cases
                (if ltb high (length buckets - 1) then get_elem? buckets (high + 1) else none)) [
                  | inl no_high ↦ rw (more, no_low, no_high, fill_loop) (entries, refl)
                  | inr (hb, is_high) ↦
                      let up = ltb→lt _ _ (
                        side (ltb high (length buckets - 1)) (get_elem? buckets (high + 1)) hb
                          is_high) in
                      rw (more, no_low, is_high, fill_loop)
                        (fill_loop-Ends rounds low (high + 1) (insert_entries filter entries hb)
                          (omega arith) (omega arith))
                ]
          | inr (lb, is_low) ↦
              let down = ltb→lt _ _ (side (ltb 0 low) (get_elem? buckets (low - 1)) lb is_low) in
              elim (Option-cases
                (if ltb high (length buckets - 1) then get_elem? buckets (high + 1) else none)) [
                  | inl no_high ↦
                      rw (more, is_low, no_high, fill_loop)
                        (fill_loop-Ends rounds (low - 1) high (insert_entries filter entries lb)
                          inside (omega arith))
                  | inr (hb, is_high) ↦
                      let up = ltb→lt _ _ (
                        side (ltb high (length buckets - 1)) (get_elem? buckets (high + 1)) hb
                          is_high) in
                      rw (more, is_low, is_high, fill_loop)
                        (both (three_way_compare target (last lb.prefix) (first hb.prefix))
                          (fill_loop-Ends rounds (low - 1) high (insert_entries filter entries lb)
                            inside (omega arith))
                          (fill_loop-Ends rounds low (high + 1) (insert_entries filter entries hb)
                            (omega arith) (omega arith))
                          (fill_loop-Ends rounds (low - 1) (high + 1)
                            (insert_entries filter (insert_entries filter entries lb) hb)
                            (omega arith) (omega arith)))
                ]
        ]
      ]
    where
      both :
          {a b c : Option (List Entry)} (dir : Ordering)
          → Ends a
          → Ends b
          → Ends c
          → Ends (elim dir [ Ordering.lt ↦ a | Ordering.gt ↦ b | Ordering.eq ↦ c ])
      both Ordering.lt x y z = x
      both Ordering.gt x y z = y
      both Ordering.eq x y z = z

-- On a table in order, `fill` for a valid target ends, its loop within as many rounds as there are
-- buckets, and yields at most `maxEntries` entries, whatever the filter and the bootstrap nodes.
pub fill-bounded :
    (t : RoutingTable) (target : NodeId) (max_entries : ℕ) (filter : Entry → Bool)
    (bootstrap : List Entry) (include_self : Bool) (self : Entry)
    → IsTable t
    → IsId target
    → (es : List Entry) × (fill t.buckets target max_entries filter bootstrap include_self self
        ≡ some es)
      × (length es ≤ max_entries)
unfolding fill
fill-bounded t target max_entries filter bootstrap include_self self h ht =
    let (i, b, cover) = index_of-IsCovering t.buckets target h.tiles ht in
    let (es, ends) =
      fill_loop-Ends t.buckets target max_entries filter (length t.buckets) i i
        (insert_entries filter [] b) cover.inside (omega (arith, cover.inside)) in
    rw (cover.at, cover.found, ends, fill)
      (
        _,
        refl,
        length-shave target max_entries
            (add_self max_entries include_self self (add_bootstrap max_entries bootstrap es)),
      )
