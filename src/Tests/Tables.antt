-- ===== src/Tests/Tables.antt =====
-- Laws of the routing table at a full table of one bucket, which the ninth node splits.
use elastos_carrier_native.Prelude.{ℕ, ◌≤◌, ◌≡◌, true, some, List, [], ◌∷◌, All, length, arith}
use elastos_carrier_native.RoutingTable.{RoutingTable, IsTable, table_put, table_on_timeout}
use elastos_carrier_native.RoutingTable.Tiling.{IsCovering, index_of-IsCovering}
use elastos_carrier_native.RoutingTable.Putting.{table_put-IsTable}
use elastos_carrier_native.RoutingTable.Keeping.{table_on_timeout-IsTable}
use elastos_carrier_native.Id.{IsId}
use elastos_carrier_native.Entry.{Entry}
use elastos_carrier_native.KClosestNodes.{fill, shave, default_filter}
use elastos_carrier_native.KClosestNodes.Nearest.{IsNearest, shave-IsNearest}
use elastos_carrier_native.KClosestNodes.Filling.{fill-bounded}
use elastos_carrier_native.KBucket.{KBucket, IsBucket}
use elastos_carrier_native.RoutingTable.Merging.{merge_buckets}
use elastos_carrier_native.RoutingTable.Merging.Ends.{merge_buckets-valid}
use elastos_carrier_native.Tests.Data.{
  id_of, id_of-IsId, node, node-IsId, ninth, ninth-IsId, full_table, full_table-IsTable,
  split_table, split_table-IsTable,
}

table_put-IsTable_example :
    (t' : RoutingTable) × (table_put full_table ninth 100 ≡ some t') × IsTable t'
table_put-IsTable_example = table_put-IsTable full_table ninth 100 full_table-IsTable ninth-IsId

index_of-IsCovering_example :
    (i : ℕ) × (b : KBucket) × IsCovering split_table.buckets (id_of 0x65) i b
index_of-IsCovering_example =
    index_of-IsCovering split_table.buckets (id_of 0x65) (split_table-IsTable).tiles
      (id_of-IsId 0x65 (omega arith))

table_on_timeout-IsTable_example :
    (t' : RoutingTable) × (table_on_timeout split_table (id_of 0x97) 200 ≡ some t') × IsTable t'
table_on_timeout-IsTable_example =
    table_on_timeout-IsTable split_table (id_of 0x97) 200 split_table-IsTable
      (id_of-IsId 0x97 (omega arith))

three_nodes-AreIds : All (λ e. IsId e.node_id) (node 1 0x70 ∷ node 2 0x01 ∷ node 3 0x03 ∷ [])
three_nodes-AreIds = (
  node-IsId 1 0x70 (omega arith),
  (node-IsId 2 0x01 (omega arith), (node-IsId 3 0x03 (omega arith), tt)),
)

shave-IsNearest_example :
    IsNearest
      (id_of 0x02)
      2
      (node 1 0x70 ∷ node 2 0x01 ∷ node 3 0x03 ∷ [])
      (shave (id_of 0x02) 2 (node 1 0x70 ∷ node 2 0x01 ∷ node 3 0x03 ∷ [])).0
      (shave (id_of 0x02) 2 (node 1 0x70 ∷ node 2 0x01 ∷ node 3 0x03 ∷ [])).1
shave-IsNearest_example =
    shave-IsNearest (id_of 0x02) 2 (node 1 0x70 ∷ node 2 0x01 ∷ node 3 0x03 ∷ [])
      (id_of-IsId 0x02 (omega arith)) three_nodes-AreIds

fill-bounded_example :
    (es : List Entry) × (fill split_table.buckets (id_of 0x66) 8 default_filter [] true ninth
      ≡ some es)
    × (length es ≤ 8)
fill-bounded_example =
    fill-bounded split_table (id_of 0x66) 8 default_filter [] true ninth split_table-IsTable
      (id_of-IsId 0x66 (omega arith))

merge_buckets-valid_example :
    (t' : RoutingTable) × (merge_buckets split_table 200 ≡ some t')
    × All IsBucket t'.buckets
    × (length t'.buckets ≤ length split_table.buckets)
merge_buckets-valid_example = merge_buckets-valid split_table 200 (split_table-IsTable).valid
