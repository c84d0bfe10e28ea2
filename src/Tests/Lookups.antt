-- ===== src/Tests/Lookups.antt =====
-- Laws of the lookups at concrete inputs.
use elastos_carrier_native.Prelude.{ℕ, ◌≡◌, refl, false, none, [], ◌∷◌, All, pos, arith}
use elastos_carrier_native.Id.{id_eq}
use elastos_carrier_native.Entry.{Address}
use elastos_carrier_native.Lookup.{
  CandidateNode, ClosestSet, ClosestCandidates, get_candidate, next_candidate,
}
use elastos_carrier_native.Lookup.Adding.{NodeInfo, candidates_add}
use elastos_carrier_native.Lookup.Task.{LookupTask, call_responsed}
use elastos_carrier_native.Lookup.Closest.{
  IsClosest, IsAmongSmallest, closest_add_all, closest_add_all-smallest,
}
use elastos_carrier_native.Lookup.Holding.{IsHeld}
use elastos_carrier_native.Lookup.Next.{IsNext, next_candidate-IsNext}
use elastos_carrier_native.Lookup.Candidates.{IsDistinct, candidates_add-IsDistinct}
use elastos_carrier_native.Lookup.Moving.{call_responsed-moved}
use elastos_carrier_native.Tests.Data.{id_of, id_of-IsId}

abbrev address : ℕ → Address
address host = record { family = 2; storage = 2 ∷ 0 ∷ 0 ∷ 80 ∷ 10 ∷ 0 ∷ 0 ∷ host ∷ [] }

abbrev node : ℕ → ℕ → CandidateNode
node first pinged = record {
  ref = first;
  node_id = id_of first;
  address = address first;
  last_sent = 0;
  last_reply = 0;
  reachable = false;
  pinged = pinged;
  token = pos 0;
}

-- The target is 0xf0...; of three nodes the two with the smallest Ids are kept, not the nearest.
abbrev two_places : ClosestSet
two_places = record {
  target = id_of 0xf0;
  capacity = 2;
  closest = [];
  attempts_since_tail = 0;
  attempts_since_head = 0;
}

two_places-IsClosest : IsClosest two_places
two_places-IsClosest = record { ids = tt; sorted = tt; bounded = omega arith }

closest_add_all-smallest_example :
    All
      (IsAmongSmallest (closest_add_all (node 0x10 0 ∷ node 0xf1 0 ∷ node 0x20 0 ∷ []) two_places))
      (node 0x10 0 ∷ node 0xf1 0 ∷ node 0x20 0 ∷ [])
closest_add_all-smallest_example =
    closest_add_all-smallest (node 0x10 0 ∷ node 0xf1 0 ∷ node 0x20 0 ∷ []) two_places
      (
        id_of-IsId 0x10 (omega arith),
        (id_of-IsId 0xf1 (omega arith), (id_of-IsId 0x20 (omega arith), tt)),
      )
      two_places-IsClosest

next_candidate-IsNext_example :
    IsNext
      (id_of 0xf0)
      (node 0xf1 1 ∷ node 0x20 0 ∷ node 0xf2 3 ∷ [])
      (next_candidate (id_of 0xf0) (node 0xf1 1 ∷ node 0x20 0 ∷ node 0xf2 3 ∷ []))
next_candidate-IsNext_example =
    next_candidate-IsNext (id_of 0xf0) (node 0xf1 1 ∷ node 0x20 0 ∷ node 0xf2 3 ∷ [])
      (id_of-IsId 0xf0 (omega arith))
      (
        id_of-IsId 0xf1 (omega arith),
        (id_of-IsId 0x20 (omega arith), (id_of-IsId 0xf2 (omega arith), tt)),
      )

abbrev info : ℕ → ℕ → NodeInfo
info first host = record {
  ref = first;
  node_id = id_of first;
  address = address host;
  reachable = none;
}

abbrev no_candidates : ClosestCandidates
no_candidates = record {
  target = id_of 0xf0;
  capacity = 2;
  dedup_ids = [];
  dedup_addresses = [];
  closest = [];
}

no_candidates-IsDistinct : IsDistinct no_candidates
no_candidates-IsDistinct = record { ids = tt; once = λ k. omega arith }

candidates_add-IsDistinct_example : IsDistinct (
    candidates_add
      (info 0x10 1 ∷ info 0x20 1 ∷ info 0x10 2 ∷ info 0x30 3 ∷ info 0x40 4 ∷ [])
      no_candidates)
candidates_add-IsDistinct_example =
    candidates_add-IsDistinct
      (info 0x10 1 ∷ info 0x20 1 ∷ info 0x10 2 ∷ info 0x30 3 ∷ info 0x40 4 ∷ []) no_candidates
      (
        id_of-IsId 0x10 (omega arith),
        (
          id_of-IsId 0x20 (omega arith),
          (
            id_of-IsId 0x10 (omega arith),
            (id_of-IsId 0x30 (omega arith), (id_of-IsId 0x40 (omega arith), tt)),
          ),
        ),
      )
      no_candidates-IsDistinct

abbrev waiting : ClosestCandidates
waiting = record no_candidates { dedup_ids = id_of 0x10 ∷ []; closest = node 0x10 1 ∷ [] }

waiting-IsDistinct : IsDistinct waiting
waiting-IsDistinct = record { ids = (id_of-IsId 0x10 (omega arith), tt); once = λ k. ground arith }

abbrev lookup : LookupTask
lookup = record { target = id_of 0xf0; closest_set = two_places; candidates = waiting }

call_responsed-moved_example :
    (get_candidate (id_of 0x10) (call_responsed 50 (id_of 0x10) (pos 7) lookup).candidates.closest
      ≡ none)
    × IsHeld
        (call_responsed 50 (id_of 0x10) (pos 7) lookup).closest_set
        (record (node 0x10 1) { last_reply = 50; token = pos 7 })
    × IsClosest (call_responsed 50 (id_of 0x10) (pos 7) lookup).closest_set
    × IsDistinct (call_responsed 50 (id_of 0x10) (pos 7) lookup).candidates
unfolding get_candidate id_eq
call_responsed-moved_example =
    call_responsed-moved 50 (id_of 0x10) (pos 7) lookup (node 0x10 1)
      (id_of-IsId 0x10 (omega arith)) (id_of-IsId 0x10 (omega arith), tt) waiting-IsDistinct
      two_places-IsClosest refl
