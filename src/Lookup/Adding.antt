-- ===== src/Lookup/Adding.antt =====
-- `ClosestCandidates::add` of core/task/closest_candidates.cc, with the comparison of addresses of
-- core/utils/socket_address.cc by which it tells their IPs apart.
use elastos_carrier_native.Prelude.{
  ℕ, Bool, true, false, ◌&&◌, ◌||◌, not, ltb, ◌==◌, if◌then◌else◌, Option, none, some, List, [],
  ◌∷◌, length, take, drop, filterb, anyb, pos,
}
use elastos_carrier_native.Id.{NodeId, less, three_way_compare, is_lt}
use elastos_carrier_native.Entry.{Address}
use elastos_carrier_native.Lookup.{
  CandidateNode, is_in_flight, ClosestCandidates, remove_candidate, candidate_order, sort_by,
}

-- AF_INET and AF_INET6, and where the IP lies in their structures.
abbrev pub af_inet : ℕ
af_inet = 2

abbrev pub af_inet6 : ℕ
af_inet6 = 10

abbrev pub address_empty : Address → Bool
address_empty a = not (a.family == af_inet) && not (a.family == af_inet6)

abbrev pub ip_bytes : Address → List ℕ
ip_bytes a = if a.family == af_inet then take 4 (drop 4 a.storage) else take 16 (drop 8 a.storage)

unfoldable pub ip_compare : Address → Address → Bool
ip_compare a b =
    if address_empty a && address_empty b
    then true
    else if not (a.family == b.family)
    then ltb a.family b.family
    else less (ip_bytes a) (ip_bytes b)

-- What a `std::set` holds equal.
abbrev pub same_id : NodeId → NodeId → Bool
same_id a b = not (less a b) && not (less b a)

abbrev pub same_ip : Address → Address → Bool
same_ip a b = not (ip_compare a b) && not (ip_compare b a)

-- A `NodeInfo`; `reachable` is that of the `KBucketEntry`, where it is one. `ref` names the object that
-- is made of it.
pub record NodeInfo : Type 0 where
  pub ref : ℕ
  pub node_id : NodeId
  pub address : Address
  pub reachable : Option Bool

unfoldable pub candidate_of : NodeInfo → CandidateNode
candidate_of node = record {
  ref = node.ref;
  node_id = node.node_id;
  address = node.address;
  last_sent = 0;
  last_reply = 0;
  reachable = elim node.reachable [ none ↦ false | some reachable ↦ reachable ];
  pinged = 0;
  token = pos 0;
}

-- The first loop. An Id is noted also where the address is known.
unfoldable pub filter_new :
    List NodeInfo → ClosestCandidates → List CandidateNode × ClosestCandidates
unfolding candidate_of
filter_new [] s = ([], s)
filter_new (node ∷ nodes) s =
    let known_id = anyb (same_id node.node_id) s.dedup_ids in
    let known_address = anyb (same_ip node.address) s.dedup_addresses in
    let noted =
      if known_id
      then s
      else if known_address
      then record s { dedup_ids = node.node_id ∷ s.dedup_ids }
      else record s {
        dedup_ids = node.node_id ∷ s.dedup_ids;
        dedup_addresses = node.address ∷ s.dedup_addresses;
      } in
    let (filtered, left) = filter_new nodes noted in
    if known_id || known_address then (filtered, left) else (candidate_of node ∷ filtered, left)

abbrev pub nearer_node : NodeId → CandidateNode → CandidateNode → Bool
nearer_node target a b = is_lt (three_way_compare target a.node_id b.node_id)

-- `std::list::merge`: of equals, the element of the first list comes first.
unfoldable pub merge_before :
    (CandidateNode → CandidateNode → Bool)
    → CandidateNode
    → (List CandidateNode → List CandidateNode)
    → List CandidateNode
    → List CandidateNode
merge_before before a rest [] = a ∷ rest []
merge_before before a rest (b ∷ bs) =
    if before b a then b ∷ merge_before before a rest bs else a ∷ rest (b ∷ bs)

unfoldable pub merge_by :
    (CandidateNode → CandidateNode → Bool)
    → List CandidateNode
    → List CandidateNode
    → List CandidateNode
unfolding merge_before
merge_by before [] bs = bs
merge_by before (a ∷ as_) bs = merge_before before a (merge_by before as_) bs

unfoldable pub remove_each : List CandidateNode → List CandidateNode → List CandidateNode
unfolding remove_candidate
remove_each [] es = es
remove_each (c ∷ cs) es = remove_each cs (remove_candidate c.node_id es)

-- The nodes that no call is open to, and of them those behind the capacity.
unfoldable pub trim : NodeId → ℕ → List CandidateNode → List CandidateNode
unfolding remove_each sort_by
trim target capacity es =
    let idle = filterb (λ e. not (is_in_flight e)) es in
    if ltb capacity (length es) && ltb capacity (length idle)
    then remove_each (drop capacity (sort_by (candidate_order target) idle)) es
    else es

unfoldable pub candidates_add : List NodeInfo → ClosestCandidates → ClosestCandidates
unfolding filter_new merge_by sort_by trim
candidates_add nodes s =
    let (filtered, noted) = filter_new nodes s in
    let merged =
      merge_by (nearer_node s.target) noted.closest (sort_by (nearer_node s.target) filtered) in
    record noted { closest = trim s.target s.capacity merged }
