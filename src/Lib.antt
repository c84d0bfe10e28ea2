-- ===== src/Lib.antt =====
-- The Kademlia core of the carrier node: node identifiers, the key ranges of the buckets, the
-- entries, the buckets, and the routing table that splits the keyspace among them. Beside it, the
-- selection of the closest entries, the tokens of the announcements, the life of a remote call, the
-- state of a lookup and of a task; and the active proxy, which relays connections to a service.
--
-- Prelude      Boolean tests, lists and integers over the native naturals.
-- Bits         Bits of a byte and of a number: and, or, xor, shifts and masks.
-- Id           src/core/id.cc, include/carrier/id.h: an Id is its 32 bytes, most significant first.
--              `distance`, `threeWayCompare`, `compareTo`, `bitsEqual`, `bitsCopy`,
--              `getLeadingZeros` and `toBinaryString` are functions of the same names in lower case.
-- Prefix       src/core/prefix.cc, include/carrier/prefix.h: an Id with a depth from -1 to 255.
--              `IsPrefix` says that the bits below the depth are 0, as the constructors leave them.
-- Entry        src/core/kbucket_entry.cc, .h, and the comparisons of include/carrier/node_info.h and
--              socket_address.h. `ref` is the identity of the shared object that `Sp` points to.
-- KBucket      src/core/kbucket.cc, .h: `_put` is `put`, `_update(toRefresh)` is `refresh`,
--              `_update(toRemove, toInsert)` is `update_entries`, `_removeIfBad` is `remove_if_bad`.
--              `IsBucket` is the invariant: at most 8 entries, all of them reached, no two with one
--              id or address.
-- RoutingTable src/core/routing_table.cc, .h: the sorted list of buckets. `_put`, `_remove`,
--              `_onTimeout`, `_onSend` and `_refreshOnly` are `table_put`, `table_remove`,
--              `table_on_timeout`, `table_on_send` and `refresh_only`; `_split` and `_modify` are
--              `split` and `modify`; RoutingTable/Merging has `_mergeBuckets`. `IsTable`
--              is the invariant, a table in order: the buckets tile the keyspace from 0 to 2 ^ 256,
--              each is a valid bucket, and each holds only entries that its prefix covers.
-- KClosestNodes src/core/kclosest_nodes.cc, .h: `fill` walks the buckets on both sides of the
--              target's; `shave` keeps the closest entries.
-- Token        src/core/token_manager.cc, .h: `updateTokenTimestamps`, `generateToken` and
--              `verifyToken`, over any hash `sha256`.
-- RpcCall      src/core/rpccall.cc, .h: `sent`, `responsed`, `checkTimeout`, `failed`, `cancel` and
--              `stall` are `call_sent`, `call_responsed`, `check_timeout` and so on. `fire_all` is the
--              timer firing at the times of a list.
-- Lookup       src/core/task: candidate_node.h, closest_set.h, closest_candidates.cc, .h (Adding has
--              `add`) and lookup_task.cc, .h (Task), with `SocketAddress::IpCompare`.
-- Task         src/core/task/task.cc, .h: the states of a task and `serializedUpdate`.
-- Proxy        src/addons/activeproxy. PacketType: packettype.h. Framing: the part of `onRelayRead`
--              of connection.cc that cuts the bytes into packets. Connection: connection.h and the
--              rest of connection.cc, its functions under their names in lower case; Calls has
--              libuv's callbacks and the runs that they make, Lifecycle the life of a connection as
--              its proxy sees it. Active: activeproxy.cc, .h, with the handlers that `connect`
--              installs as functions `on_opened`, `on_idle` and so on.
-- Tests        The results at concrete inputs, and runs of the code.
--
-- The table calls the buckets, which call the entries; all of them compare Ids by the operations of
-- Id and Prefix. A method that writes returns the new object. A bucket is reached through the list
-- of the table, and an entry through the list of its bucket, so a change in place is a change of the
-- list. The time that `currentTimeMillis` returns is an argument `now`, one for each call of an
-- operation. A list access outside the list is `none`.
--
-- The active proxy owns its connections and learns of them by its handlers, whose calls a connection
-- lists in `statuses`; `deliver` does them to the proxy. A connection calls libuv, and lists that in
-- `outputs`. What libuv, the random generator and the cryptography answer is a parameter, `Env`; an
-- exception in these functions ends the process, and is `none`; so is a packet whose length without
-- header and MAC goes below zero where that length is used, and a read loop that does not end. A packet
-- of size 1 or 2 has its type in the bytes behind it, as `Framing.packet_view` says.
--
-- Bounds and fuel: the loop of `serializedUpdate` is given rounds by its caller; one is enough where
-- `update` is not entered again. A read of the proxy is given a round for each byte and one
-- more. The search of `indexOf` is given as many rounds as there are buckets, and each round leaves
-- fewer candidates. The loop of `KClosestNodes::fill` takes one bucket a round at
-- least, and is given as many rounds as there are buckets. The loop of `RoutingTable::_put` is
-- given 257 rounds: each split takes the bucket of the new entry one bit deeper, and a prefix of 256
-- fixed bits is not split. The loop of `_mergeBuckets` is given 2 * n + 1 rounds for n buckets: a round
-- goes one bucket on, or takes a bucket away and goes one back. Times are
-- `uint64_t`, and their differences wrap; `failedRequests` is an `int`.
--
-- Not modelled: `_maintenance` and `fillBuckets` of the table, its files, the text forms of Ids
-- and entries, and the parts of the node above the table (the kinds of task but for the state
-- of a lookup, the nested tasks and the task manager, the RPC server, messages, storage).
-- What the handlers of a remote call do, and calls of the token manager that overlap, are not
-- modelled either.
-- Of the active proxy, the configuration, the thread and its start, the counts of references and the
-- lifetime of the objects are not modelled.
pub mod Prelude
pub mod Bits
pub mod Id
pub mod Prefix
pub mod Entry
pub mod KBucket
pub mod RoutingTable
pub mod KClosestNodes
pub mod Lookup
pub mod Proxy
pub mod RpcCall
pub mod Task
pub mod Token
pub mod Tests
