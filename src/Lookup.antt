-- ===== src/Lookup.antt =====
-- The lookups of core/task: candidate_node.h, closest_set.h, closest_candidates.cc and .h, and what
-- lookup_task.cc and .h do with them. A candidate is shared; `ref` is the identity of its object, and a
-- change of it is a change of the lists that hold it. The locks are not modelled.
pub mod Adding
pub mod Task
pub mod Closest
pub mod Holding
pub mod Next
pub mod Candidates
pub mod Moving
use elastos_carrier_native.Prelude.{
  ℕ, zero, suc, ◌+◌, ◌-◌, ◌*◌, Bool, true, false, ◌&&◌, ◌||◌, not, leb, ltb, ◌==◌, if◌then◌else◌,
  Option, none, some, List, [], ◌∷◌, ◌++◌, length, take, drop, filterb, anyb, find?, ℤ, pos,
}
use elastos_carrier_native.Id.{NodeId, less, id_eq, three_way_compare, distance, max_id, is_lt}
use elastos_carrier_native.Entry.{Address}

pub record CandidateNode : Type 0 where
  pub ref : ℕ
  pub node_id : NodeId
  pub address : Address
  pub last_sent : ℕ
  pub last_reply : ℕ
  pub reachable : Bool
  pub pinged : ℕ
  pub token : ℤ

abbrev pub is_in_flight : CandidateNode → Bool
is_in_flight c = not (c.last_sent == 0)

abbrev pub is_unreachable : CandidateNode → Bool
is_unreachable c = leb 3 c.pinged

abbrev pub is_eligible : CandidateNode → Bool
is_eligible c = c.last_sent == 0 && ltb c.pinged 3

unfoldable pub set_sent : ℕ → CandidateNode → CandidateNode
set_sent now c = record c { last_sent = now; pinged = suc c.pinged }

unfoldable pub clear_sent : CandidateNode → CandidateNode
clear_sent c = record c { last_sent = 0 }

unfoldable pub set_replied : ℕ → CandidateNode → CandidateNode
set_replied now c = record c { last_reply = now }

-- `ClosestSet`. `closest` is a `std::map` by Id: its nodes in the order of `operator<`.
pub record ClosestSet : Type 0 where
  pub target : NodeId
  pub capacity : ℕ
  pub closest : List CandidateNode
  pub attempts_since_tail : ℕ
  pub attempts_since_head : ℕ

-- `closest[id] = cn`.
unfoldable pub map_set : CandidateNode → List CandidateNode → List CandidateNode
map_set cn [] = cn ∷ []
map_set cn (e ∷ es) =
    if less e.node_id cn.node_id
    then e ∷ map_set cn es
    else if less cn.node_id e.node_id
    then cn ∷ e ∷ es
    else cn ∷ es

abbrev pub is_same : CandidateNode → CandidateNode → Bool
is_same a b = a.ref == b.ref

-- `std::prev(closest.cend())` and `closest.cbegin()`.
abbrev pub last_node : List CandidateNode → Option CandidateNode
last_node [] = none
last_node (e ∷ []) = some e
last_node (e ∷ f ∷ es) = last_node (f ∷ es)

abbrev pub first_node : List CandidateNode → Option CandidateNode
first_node [] = none
first_node (e ∷ es) = some e

abbrev pub is_node : CandidateNode → Option CandidateNode → Bool
is_node cn node = elim node [ none ↦ false | some e ↦ is_same e cn ]

-- The code compares the last node with the new one after it has erased it; here it is compared before.
-- A capacity is not 0, so that the map has a first node.
unfoldable pub closest_add : CandidateNode → ClosestSet → ClosestSet
closest_add cn s =
    let full = map_set cn s.closest in
    let over = ltb s.capacity (length full) in
    let kept = if over then take (length full - 1) full else full in
    let tail_attempts =
      if over
      then (if is_node cn (last_node full) then suc s.attempts_since_tail else 0)
      else s.attempts_since_tail in
    let head_attempts = if is_node cn (first_node kept) then 0 else suc s.attempts_since_head in
    record s {
      closest = kept;
      attempts_since_tail = tail_attempts;
      attempts_since_head = head_attempts;
    }

abbrev pub reached_capacity : ClosestSet → Bool
reached_capacity s = leb s.capacity (length s.closest)

unfoldable pub closest_contains : NodeId → ClosestSet → Bool
closest_contains id s = anyb (λ e. not (less e.node_id id) && not (less id e.node_id)) s.closest

unfoldable pub closest_tail : ClosestSet → NodeId
closest_tail s = elim (last_node s.closest) [ none ↦ distance s.target max_id | some e ↦ e.node_id ]

unfoldable pub closest_head : ClosestSet → NodeId
closest_head s = elim (first_node s.closest) [
  | none ↦ distance s.target max_id
  | some e ↦ e.node_id
]

unfoldable pub closest_is_eligible : ClosestSet → Bool
closest_is_eligible s = reached_capacity s && ltb s.capacity s.attempts_since_tail

-- `ClosestCandidates`.
pub record ClosestCandidates : Type 0 where
  pub target : NodeId
  pub capacity : ℕ
  pub dedup_ids : List NodeId
  pub dedup_addresses : List Address
  pub closest : List CandidateNode

unfoldable pub get_candidate : NodeId → List CandidateNode → Option CandidateNode
get_candidate id es = find? (λ e. id_eq id e.node_id) es

unfoldable pub remove_candidate : NodeId → List CandidateNode → List CandidateNode
remove_candidate id [] = []
remove_candidate id (e ∷ es) = if id_eq id e.node_id then es else e ∷ remove_candidate id es

-- `candidateOrder(a, b) < 0`.
unfoldable pub candidate_order : NodeId → CandidateNode → CandidateNode → Bool
candidate_order target a b =
    if ltb a.pinged b.pinged
    then true
    else if ltb b.pinged a.pinged
    then false
    else is_lt (three_way_compare target a.node_id b.node_id)

-- `std::list::sort` and `std::sort` by a comparison: the new element goes behind its equals.
unfoldable pub insert_by :
    (CandidateNode → CandidateNode → Bool) → CandidateNode → List CandidateNode → List CandidateNode
insert_by before c [] = c ∷ []
insert_by before c (e ∷ es) = if before e c then e ∷ insert_by before c es else c ∷ e ∷ es

unfoldable pub sort_by :
    (CandidateNode → CandidateNode → Bool) → List CandidateNode → List CandidateNode
unfolding insert_by
sort_by before [] = []
sort_by before (c ∷ cs) = insert_by before c (sort_by before cs)

unfoldable pub next_candidate : NodeId → List CandidateNode → Option CandidateNode
next_candidate target es = first_node (sort_by (candidate_order target) (filterb is_eligible es))
