-- ===== src/Lookup/Holding.antt =====
-- The object that `ClosestSet` holds for an Id after it was added.
use elastos_carrier_native.Prelude.{
  ℕ, zero, suc, ◌≡◌, refl, ◌∙◌, Bool, true, ◌&&◌, not, ◌==◌, Option, some, List, [], ◌∷◌, ◌⊎◌, inl,
  inr, length, take, find?, All, Bool-cases, arith,
}
use elastos_carrier_native.Id.{NodeId, IsId, less}
use elastos_carrier_native.Id.Order.{id_value}
use elastos_carrier_native.Lookup.{CandidateNode, ClosestSet, map_set, closest_add}
use elastos_carrier_native.Lookup.Closest.{
  HasId, key, has_key, place, has_key-take, has_key_self, map_set-AreSorted, All-map_set, All-take,
  less-id_value, less-IsBelow, IsClosest, closest_add-take,
}

-- `std::map::find`: Ids that neither precedes the other are equal.
abbrev pub equals_id : NodeId → CandidateNode → Bool
equals_id id e = not (less e.node_id id) && not (less id e.node_id)

abbrev pub closest_find : NodeId → ClosestSet → Option CandidateNode
closest_find id s = find? (equals_id id) s.closest

-- The set has this very node for its Id, or it is full of smaller Ids.
pub IsHeld : ClosestSet → CandidateNode → Type 0
IsHeld s c =
    (closest_find c.node_id s ≡ some c)
    ⊎ ((length s.closest ≡ s.capacity) × All (λ e. less e.node_id c.node_id ≡ true) s.closest)

abbrev find_key : ℕ → List CandidateNode → Option CandidateNode
find_key k = find? (λ e. key e == k)

find-find_key :
    (id : NodeId) (es : List CandidateNode)
    → IsId id
    → All HasId es
    → find? (equals_id id) es ≡ find_key (id_value id) es
find-find_key id [] hid h = refl
find-find_key id (e ∷ es) hid h = ground (
  arith,
  less-id_value e.node_id id h.0 hid,
  less-id_value id e.node_id hid h.0,
  find-find_key id es hid h.1,
)

find_key-take :
    (k n : ℕ) (es : List CandidateNode)
    → has_key k (take n es) ≡ true
    → find_key k (take n es) ≡ find_key k es
find_key-take k zero es has = absurd (cc has)
find_key-take k (suc n) [] has = refl
find_key-take k (suc n) (e ∷ es) has = elim (Bool-cases (key e == k)) [
  | inl here ↦ rw here refl
  | inr there ↦ rw there (find_key-take k n es (ground (arith, has, there)))
]

find_key_self :
    (cn : CandidateNode) (es : List CandidateNode)
    → HasId cn
    → All HasId es
    → find_key (key cn) (map_set cn es) ≡ some cn
unfolding map_set
find_key_self cn [] hc h = ground arith
find_key_self cn (e ∷ es) hc h =
    place cn hc (λ l. find_key (key cn) l ≡ some cn) e es h.0
      (λ lower. ground (arith, lower, find_key_self cn es hc h.1)) (λ higher. ground arith)
      (λ same. ground arith)

-- A node that is added to a set in order is held: a node of the same Id gives way to it.
pub closest_add-IsHeld :
    (cn : CandidateNode) (s : ClosestSet) → HasId cn → IsClosest s → IsHeld (closest_add cn s) cn
unfolding IsHeld closest_add
closest_add-IsHeld cn s hc h =
    let full = map_set cn s.closest in
    let ids = All-map_set cn hc (λ x. HasId x) s.closest h.ids hc h.ids in
    let kept_ids = All-take (λ x. HasId x) s.capacity full ids in
    rw (closest_add-take cn s hc h)
      (elim (has_key-take (key cn) s.capacity full
        (map_set-AreSorted cn hc s.closest h.ids h.sorted) (has_key_self cn hc s.closest h.ids)) [
          | inl has ↦ inl (
              find-find_key cn.node_id (take s.capacity full) hc kept_ids
              ∙ find_key-take (key cn) s.capacity full has
              ∙ find_key_self cn s.closest hc h.ids)
          | inr (filled, below) ↦
              inr (filled, less-IsBelow cn (take s.capacity full) hc kept_ids below)
        ])
