-- ===== src/Lookup/Task.antt =====
-- core/task/lookup_task.cc and .h: what a lookup does with nodes it hears of, and with its calls.
use elastos_carrier_native.Prelude.{
  ℕ, Ordering, Bool, true, false, ◌&&◌, ◌||◌, not, ◌==◌, if◌then◌else◌, none, some, List, [], ◌∷◌,
  length, filterb, ℤ,
}
use elastos_carrier_native.Id.{NodeId, three_way_compare, distance, max_id}
use elastos_carrier_native.Lookup.{
  CandidateNode, is_unreachable, clear_sent, set_replied, ClosestSet, closest_add, closest_contains,
  closest_tail, closest_is_eligible, ClosestCandidates, get_candidate, remove_candidate, first_node,
}
use elastos_carrier_native.Lookup.Adding.{NodeInfo, candidates_add}

pub record LookupTask : Type 0 where
  pub target : NodeId
  pub closest_set : ClosestSet
  pub candidates : ClosestCandidates

-- The members' initializers; the capacities are 8 and 24.
unfoldable pub new_lookup : NodeId → LookupTask
new_lookup target = record {
  target = target;
  closest_set = record {
    target = target;
    capacity = 8;
    closest = [];
    attempts_since_tail = 0;
    attempts_since_head = 0;
  };
  candidates = record {
    target = target;
    capacity = 24;
    dedup_ids = [];
    dedup_addresses = [];
    closest = [];
  };
}

-- `refuses` are the tests of the node's address and of the node itself: `isBogonAddress`, `isSelfId`
-- and `isSelfAddress`.
unfoldable pub add_candidates : (NodeInfo → Bool) → List NodeInfo → LookupTask → LookupTask
add_candidates refuses nodes t =
    let wanted = filterb (λ n. not (refuses n || closest_contains n.node_id t.closest_set)) nodes in
    if length wanted == 0 then t else record t { candidates = candidates_add wanted t.candidates }

-- `head` of the candidates.
unfoldable pub candidates_head : ClosestCandidates → NodeId
candidates_head s = elim (first_node s.closest) [
  | none ↦ distance s.target max_id
  | some e ↦ e.node_id
]

abbrev pub is_at_most : Ordering → Bool
is_at_most Ordering.lt = true
is_at_most Ordering.eq = true
is_at_most Ordering.gt = false

-- `task_is_done` is `Task::isDone`: no call is open, or the task is over.
unfoldable pub is_done : Bool → LookupTask → Bool
unfolding candidates_head closest_tail closest_is_eligible
is_done task_is_done t =
    task_is_done
    && (length t.candidates.closest == 0
        || (closest_is_eligible t.closest_set
            && is_at_most (
                three_way_compare t.target (closest_tail t.closest_set)
                  (candidates_head t.candidates))))

unfoldable pub drop_candidate : NodeId → LookupTask → LookupTask
drop_candidate id t =
    let s = t.candidates in
    record t { candidates = record s { closest = remove_candidate id s.closest } }

unfoldable pub call_error : NodeId → LookupTask → LookupTask
unfolding drop_candidate
call_error id t = drop_candidate id t

-- The node is the call's target, with what the task knows of it; it is one object wherever it stands.
abbrev pub update_node : CandidateNode → List CandidateNode → List CandidateNode
update_node c [] = []
update_node c (e ∷ es) = if c.ref == e.ref then c ∷ es else e ∷ update_node c es

unfoldable pub call_timeout : CandidateNode → LookupTask → LookupTask
unfolding drop_candidate
call_timeout c t =
    let s = t.candidates in
    if is_unreachable c
    then drop_candidate c.node_id t
    else record t { candidates = record s { closest = update_node (clear_sent c) s.closest } }

unfoldable pub call_responsed : ℕ → NodeId → ℤ → LookupTask → LookupTask
unfolding drop_candidate
call_responsed now id token t = elim (get_candidate id t.candidates.closest) [
  | none ↦ t
  | some c ↦
      let replied = record (set_replied now c) { token = token } in
      let left = drop_candidate id t in
      record left { closest_set = closest_add replied left.closest_set }
]
