-- ===== src/Lookup/Next.antt =====
-- Which candidate `ClosestCandidates::next` chooses.
use elastos_carrier_native.Prelude.{
  ℕ, ◌≡◌, refl, ap, ◌∙◌, Bool, true, false, ltb, if◌then◌else◌, Option, none, some, List, [], ◌∷◌,
  filterb, ◌⊎◌, All, All-filterb, Bool-cases, inl, inr, arith,
}
use elastos_carrier_native.Id.{NodeId, IsId, three_way_compare, distance, is_lt}
use elastos_carrier_native.Id.Order.{id_value}
use elastos_carrier_native.Id.Distance.{three_way_compare-distance}
use elastos_carrier_native.Lookup.{
  CandidateNode, is_eligible, first_node, candidate_order, insert_by, sort_by, next_candidate,
}
use elastos_carrier_native.Lookup.Closest.{HasId}

abbrev from_target : NodeId → CandidateNode → ℕ
from_target target e = id_value (distance target e.node_id)

-- `candidateOrder` by numbers: first the number of pings, then the distance.
abbrev precedes : NodeId → CandidateNode → CandidateNode → Bool
precedes target a b =
    if ltb a.pinged b.pinged
    then true
    else if ltb b.pinged a.pinged
    then false
    else ltb (from_target target a) (from_target target b)

candidate_order-precedes :
    (target : NodeId) (a b : CandidateNode)
    → IsId target
    → HasId a
    → HasId b
    → candidate_order target a b ≡ precedes target a b
unfolding candidate_order
candidate_order-precedes target a b ht ha hb =
    let nearer : is_lt (three_way_compare target a.node_id b.node_id)
        ≡ ltb (from_target target a) (from_target target b) =
      ap is_lt (three_way_compare-distance target a.node_id b.node_id ht ha hb) ∙ ground arith in
    rw nearer refl

-- The node is one of a list.
abbrev pub IsIn : CandidateNode → List CandidateNode → Type 0
IsIn c [] = ⊥
IsIn c (e ∷ es) = (c ≡ e) ⊎ IsIn c es

IsIn-filterb :
    (p : CandidateNode → Bool) (c : CandidateNode) (es : List CandidateNode)
    → IsIn c (filterb p es)
    → IsIn c es
IsIn-filterb p c [] h = h
IsIn-filterb p c (e ∷ es) h = elim (Bool-cases (p e)) [
  | inr bad ↦ inr (IsIn-filterb p c es (rw bad at h))
  | inl good ↦ elim (rw good at h) [
    | inl here ↦ inl here
    | inr there ↦ inr (IsIn-filterb p c es there)
  ]
]

-- The answer for a list of candidates.
pub IsNext : NodeId → List CandidateNode → Option CandidateNode → Type 0
IsNext target es none = filterb is_eligible es ≡ []
IsNext target es (some c) =
    IsIn c es
    × (is_eligible c ≡ true)
    × All (λ e. candidate_order target e c ≡ false) (filterb is_eligible es)

module _ (target : NodeId) (ht : IsId target) where
  -- The first of a sorted list: no element comes before it, and it has what all have.
  IsLeast : List CandidateNode → Option CandidateNode → Type 0
  IsLeast es none = es ≡ []
  IsLeast es (some m) =
      HasId m
      × (is_eligible m ≡ true)
      × All (λ e. candidate_order target e m ≡ false) es
      × IsIn m es

  not_before_trans :
      (m c : CandidateNode) (es : List CandidateNode)
      → HasId m
      → HasId c
      → All HasId es
      → candidate_order target m c ≡ false
      → All (λ e. candidate_order target e m ≡ false) es
      → All (λ e. candidate_order target e c ≡ false) es
  not_before_trans m c [] hm hc ids first all = tt
  not_before_trans m c (e ∷ es) hm hc ids first all = (
    ground (
      arith,
      candidate_order-precedes target m c ht hm hc,
      candidate_order-precedes target e m ht ids.0 hm,
      candidate_order-precedes target e c ht ids.0 hc,
      first,
      all.0,
    ),
    not_before_trans m c es hm hc ids.1 first all.1,
  )

  insert_by-IsLeast :
      (c : CandidateNode) (es sorted : List CandidateNode)
      → HasId c
      → is_eligible c ≡ true
      → All HasId es
      → IsLeast es (first_node sorted)
      → IsLeast (c ∷ es) (first_node (insert_by (candidate_order target) c sorted))
  unfolding insert_by IsLeast
  insert_by-IsLeast c es [] hc good ids least =
      rw least
        (hc, good, (ground (arith, candidate_order-precedes target c c ht hc hc), tt), inl refl)
  insert_by-IsLeast c es (m ∷ rest) hc good ids least =
      elim (Bool-cases (candidate_order target m c)) [
        | inl yes_before ↦
            rw (yes_before, insert_by)
              (
                least.0,
                least.1,
                (
                  ground (
                    arith,
                    yes_before,
                    candidate_order-precedes target m c ht least.0 hc,
                    candidate_order-precedes target c m ht hc least.0,
                  ),
                  least.2,
                ),
                inr least.3,
              )
        | inr not_before ↦
            rw (not_before, insert_by)
              (
                hc,
                good,
                (
                  ground (arith, candidate_order-precedes target c c ht hc hc),
                  not_before_trans m c es least.0 hc ids not_before least.2,
                ),
                inl refl,
              )
      ]

  sort_by-IsLeast :
      (es : List CandidateNode)
      → All HasId es
      → All (λ e. is_eligible e ≡ true) es
      → IsLeast es (first_node (sort_by (candidate_order target) es))
  unfolding sort_by IsLeast
  sort_by-IsLeast [] ids good = refl
  sort_by-IsLeast (c ∷ es) ids good =
      insert_by-IsLeast c es (sort_by (candidate_order target) es) ids.0 good.0 ids.1
        (sort_by-IsLeast es ids.1 good.1)

  IsLeast-IsNext :
      (es : List CandidateNode) (m : Option CandidateNode)
      → IsLeast (filterb is_eligible es) m
      → IsNext target es m
  unfolding IsLeast IsNext
  IsLeast-IsNext es none least = least
  IsLeast-IsNext es (some m) least = (IsIn-filterb is_eligible m es least.3, least.1, least.2)

filterb-All :
    (p : CandidateNode → Bool) (es : List CandidateNode) → All (λ e. p e ≡ true) (filterb p es)
filterb-All p [] = tt
filterb-All p (e ∷ es) = elim (Bool-cases (p e)) [
  | inl good ↦ rw good (good, filterb-All p es)
  | inr bad ↦ rw bad (filterb-All p es)
]

-- `next` of candidates and a target with valid Ids is one of the candidates, with all its data, is
-- eligible, and `candidateOrder` puts no eligible candidate before it; it is null only if no
-- candidate is eligible.
pub next_candidate-IsNext :
    (target : NodeId) (es : List CandidateNode)
    → IsId target
    → All HasId es
    → IsNext target es (next_candidate target es)
unfolding next_candidate
next_candidate-IsNext target es ht ids = IsLeast-IsNext target ht es _ (
    sort_by-IsLeast target ht (filterb is_eligible es)
      (All-filterb (λ e. HasId e) is_eligible es ids) (filterb-All is_eligible es))
