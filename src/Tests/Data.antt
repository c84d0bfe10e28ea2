-- ===== src/Tests/Data.antt =====
-- The Ids, entries and tables of the tests.
use elastos_carrier_native.Prelude.{
  ℕ, ◌<◌, refl, ◌∙◌, true, Option, none, some, List, [], ◌∷◌, length-set, set, All, All-set, pos,
  arith,
}
use elastos_carrier_native.Id.{NodeId, IsId, zero_id}
use elastos_carrier_native.Prefix.Bits.{zero_id-IsId}
use elastos_carrier_native.Prefix.{Prefix, IsPrefix, prefix_of}
use elastos_carrier_native.Prefix.Split.{prefix_of-IsPrefix}
use elastos_carrier_native.Entry.{Entry, new_entry}
use elastos_carrier_native.RoutingTable.{RoutingTable, IsTable, init, table_put}
use elastos_carrier_native.RoutingTable.Halving.{init-IsTable}
use elastos_carrier_native.RoutingTable.Putting.{YieldsTable, table_put-IsTable}

pub set-IsId : (x : NodeId) (i b : ℕ) → IsId x → b < 256 → IsId (set x i b)
set-IsId x i b h small = record {
  size = length-set x i b ∙ h.size;
  bytes = All-set (λ y. y < 256) x i b h.bytes small;
}

-- The Id whose first byte is given, and whose others are 0.
abbrev pub id_of : ℕ → NodeId
id_of b = set zero_id 0 b

pub id_of-IsId : (b : ℕ) → b < 256 → IsId (id_of b)
id_of-IsId b = set-IsId zero_id 0 b zero_id-IsId

-- a5 00 ... 3c ... 00
abbrev pub mixed_id : NodeId
mixed_id = set (id_of 0xa5) 17 0x3c

pub mixed_id-IsId : IsId mixed_id
mixed_id-IsId = set-IsId (id_of 0xa5) 17 0x3c (id_of-IsId 0xa5 (omega arith)) (omega arith)

-- The keys that begin with the bits 1010.
abbrev pub four_bits : Prefix
four_bits = prefix_of (id_of 0xa5) (pos 3)

pub four_bits-IsPrefix : IsPrefix four_bits
four_bits-IsPrefix =
    prefix_of-IsPrefix (id_of 0xa5) (pos 3) (id_of-IsId 0xa5 (omega arith)) refl (omega arith)

-- A node that was reached, object `n`, created at time `n`.
abbrev pub node : ℕ → ℕ → Entry
node n b = record (new_entry n (id_of b) (record { family = 2; storage = n ∷ [] }) n) {
  reachable = true;
}

abbrev pub eight_nodes : List Entry
eight_nodes =
    node 1 0x01
    ∷ node 2 0x10
    ∷ node 3 0x21
    ∷ node 4 0x32
    ∷ node 5 0x43
    ∷ node 6 0x54
    ∷ node 7 0x65
    ∷ node 8 0x76
    ∷ []

pub node-IsId : (n b : ℕ) → b < 256 → IsId (node n b).node_id
unfolding new_entry
node-IsId n b = id_of-IsId b

eight_nodes-AreIds : All (λ e. IsId e.node_id) eight_nodes
eight_nodes-AreIds = (
  node-IsId 1 0x01 (omega arith),
  (
    node-IsId 2 0x10 (omega arith),
    (
      node-IsId 3 0x21 (omega arith),
      (
        node-IsId 4 0x32 (omega arith),
        (
          node-IsId 5 0x43 (omega arith),
          (
            node-IsId 6 0x54 (omega arith),
            (node-IsId 7 0x65 (omega arith), (node-IsId 8 0x76 (omega arith), tt)),
          ),
        ),
      ),
    ),
  ),
)

-- The nodes are put in turn.
abbrev pub put_all : List Entry → RoutingTable → Option RoutingTable
put_all [] t = some t
put_all (e ∷ es) t = elim (put_all es t) [ none ↦ none | some t' ↦ table_put t' e 100 ]

pub put_all-YieldsTable :
    (es : List Entry) (t : RoutingTable)
    → All (λ e. IsId e.node_id) es
    → IsTable t
    → YieldsTable (put_all es t)
put_all-YieldsTable [] t ids h = (t, refl, h)
put_all-YieldsTable (e ∷ es) t ids h =
    let (t', eq, ok) = put_all-YieldsTable es t ids.1 h in
    rw (eq, put_all) (table_put-IsTable t' e 100 ok ids.0)

abbrev pub table_of : Option RoutingTable → RoutingTable
table_of none = init zero_id
table_of (some t) = t

table_of-IsTable : (r : Option RoutingTable) → YieldsTable r → IsTable (table_of r)
table_of-IsTable r (t, eq, ok) = rw eq ok

-- The table of the node 0 whose one bucket is full.
abbrev pub full_table : RoutingTable
full_table = table_of (put_all eight_nodes (init zero_id))

pub full_table-IsTable : IsTable full_table
full_table-IsTable =
    table_of-IsTable (put_all eight_nodes (init zero_id))
      (put_all-YieldsTable eight_nodes (init zero_id) eight_nodes-AreIds (init-IsTable zero_id))

-- A node of the other half of the keyspace.
abbrev pub ninth : Entry
ninth = node 9 0x97

pub ninth-IsId : IsId ninth.node_id
ninth-IsId = node-IsId 9 0x97 (omega arith)

-- The full bucket is split for the ninth node.
abbrev pub split_table : RoutingTable
split_table = table_of (table_put full_table ninth 100)

pub split_table-IsTable : IsTable split_table
split_table-IsTable =
    table_of-IsTable (table_put full_table ninth 100)
      (table_put-IsTable full_table ninth 100 full_table-IsTable ninth-IsId)
