-- ===== src/Lookup/Closest.antt =====
-- What `ClosestSet` keeps of the candidates that are added to it.
use elastos_carrier_native.Prelude.{
  ℕ, zero, suc, ◌-◌, ◌≤◌, ◌<◌, ◌≡◌, refl, sym, ap, ◌∙◌, subst, Bool, true, ◌&&◌, not, ltb, ◌==◌,
  List, [], ◌∷◌, ◌⊎◌, inl, inr, length, take, anyb, All, length-take, take-all, Bool-cases, arith,
}
use elastos_carrier_native.Id.{NodeId, IsId, less, is_lt}
use elastos_carrier_native.Id.Order.{id_value, less-compare_to, compare_to-id_value}
use elastos_carrier_native.Lookup.{
  CandidateNode, ClosestSet, map_set, closest_add, closest_contains,
}

abbrev pub key : CandidateNode → ℕ
key e = id_value e.node_id

abbrev pub HasId : CandidateNode → Type 0
HasId e = IsId e.node_id

pub less-id_value : (a b : NodeId) → IsId a → IsId b → less a b ≡ ltb (id_value a) (id_value b)
less-id_value a b ha hb =
    let same : length a ≡ length b = omega (arith, ha.size, hb.size) in
    less-compare_to a b same
    ∙ ap is_lt (compare_to-id_value a b same ha.bytes hb.bytes)
    ∙ ground arith

abbrev pub IsAbove : ℕ → List CandidateNode → Type 0
IsAbove k = All (λ e. k < key e)

abbrev pub IsBelow : ℕ → List CandidateNode → Type 0
IsBelow k = All (λ e. key e < k)

abbrev pub AreSorted : List CandidateNode → Type 0
AreSorted [] = Unit
AreSorted (e ∷ es) = IsAbove (key e) es × AreSorted es

IsAbove-trans : (j k : ℕ) (es : List CandidateNode) → j ≤ k → IsAbove k es → IsAbove j es
IsAbove-trans j k [] le h = tt
IsAbove-trans j k (e ∷ es) le h = (omega (arith, h.0), IsAbove-trans j k es le h.1)

pub All-take {κ} :
    (P : CandidateNode → Type κ) (n : ℕ) (es : List CandidateNode) → All P es → All P (take n es)
All-take P zero es h = tt
All-take P (suc n) [] h = tt
All-take P (suc n) (e ∷ es) h = (h.0, All-take P n es h.1)

abbrev pub has_key : ℕ → List CandidateNode → Bool
has_key k = anyb (λ e. key e == k)

module _ (cn : CandidateNode) (hc : HasId cn) where
  -- The three ways of `map_set` at a node.
  pub place {κ} :
      (P : List CandidateNode → Type κ) (e : CandidateNode) (es : List CandidateNode)
      → HasId e
      → (key e < key cn → P (e ∷ map_set cn es))
      → (key cn < key e → P (cn ∷ e ∷ es))
      → (key cn ≡ key e → P (cn ∷ es))
      → P (map_set cn (e ∷ es))
  unfolding map_set
  place P e es he first second third = elim (Bool-cases (ltb (key e) (key cn))) [
    | inl lower ↦
        rw (less-id_value e.node_id cn.node_id he hc ∙ lower, map_set)
          (first (ground (arith, lower)))
    | inr not_lower ↦ elim (Bool-cases (ltb (key cn) (key e))) [
      | inl higher ↦
          rw
            (
              less-id_value e.node_id cn.node_id he hc ∙ not_lower,
              less-id_value cn.node_id e.node_id hc he ∙ higher,
              map_set,
            )
            (second (ground (arith, higher)))
      | inr not_higher ↦
          rw
            (
              less-id_value e.node_id cn.node_id he hc ∙ not_lower,
              less-id_value cn.node_id e.node_id hc he ∙ not_higher,
              map_set,
            )
            (third (ground (arith, not_lower, not_higher)))
    ]
  ]

  pub All-map_set {κ} :
      (P : CandidateNode → Type κ) (es : List CandidateNode)
      → All HasId es
      → P cn
      → All P es
      → All P (map_set cn es)
  unfolding map_set
  All-map_set P [] h pc all = (pc, tt)
  All-map_set P (e ∷ es) h pc all =
      place (λ l. All P l) e es h.0 (λ lt. (all.0, All-map_set P es h.1 pc all.1)) (λ gt. (pc, all))
        (λ eq. (pc, all.1))

  pub map_set-AreSorted :
      (es : List CandidateNode) → All HasId es → AreSorted es → AreSorted (map_set cn es)
  unfolding map_set
  map_set-AreSorted [] h sorted = (tt, tt)
  map_set-AreSorted (e ∷ es) h sorted =
      place (λ l. AreSorted l) e es h.0
        (λ lower. (
          All-map_set (λ x. key e < key x) es h.1 lower sorted.0,
          map_set-AreSorted es h.1 sorted.1,
        ))
        (λ higher. ((higher, IsAbove-trans (key cn) (key e) es (omega arith) sorted.0), sorted))
        (λ same. (IsAbove-trans (key cn) (key e) es (omega arith) sorted.0, sorted.1))

  length-map_set :
      (es : List CandidateNode)
      → All HasId es
      → (length es ≤ length (map_set cn es)) × (length (map_set cn es) ≤ suc (length es))
  unfolding map_set
  length-map_set [] h = (omega arith, omega arith)
  length-map_set (e ∷ es) h =
      let (least, most) = length-map_set es h.1 in
      place (λ l. (suc (length es) ≤ length l) × (length l ≤ suc (suc (length es)))) e es h.0
        (λ lower. (omega arith, omega arith)) (λ higher. (omega arith, omega arith))
        (λ same. (omega arith, omega arith))

  -- What is below a bound stays so when the new node makes the last one fall out.
  IsBelow-map_set :
      (k : ℕ) (es : List CandidateNode)
      → All HasId es
      → AreSorted es
      → IsBelow k es
      → IsBelow k (take (length es) (map_set cn es))
  unfolding map_set
  IsBelow-map_set k [] h sorted below = tt
  IsBelow-map_set k (e ∷ es) h sorted below =
      place (λ l. IsBelow k (take (suc (length es)) l)) e es h.0
        (λ lower. (below.0, IsBelow-map_set k es h.1 sorted.1 below.1))
        (λ higher. (omega (arith, below.0), All-take (λ x. key x < k) (length es) (e ∷ es) below))
        (λ same. (omega (arith, below.0), All-take (λ x. key x < k) (length es) es below.1))

  has_key-map_set :
      (k : ℕ) (es : List CandidateNode)
      → All HasId es
      → has_key k es ≡ true
      → has_key k (map_set cn es) ≡ true
  unfolding map_set
  has_key-map_set k [] h has = absurd (cc has)
  has_key-map_set k (e ∷ es) h has =
      place (λ l. has_key k l ≡ true) e es h.0
        (λ lower. ground (arith, has, has_key-map_set k es h.1)) (λ higher. ground (arith, has))
        (λ same. ground (arith, has, same))

  pub has_key_self :
      (es : List CandidateNode) → All HasId es → has_key (key cn) (map_set cn es) ≡ true
  unfolding map_set
  has_key_self [] h = ground arith
  has_key_self (e ∷ es) h =
      place (λ l. has_key (key cn) l ≡ true) e es h.0 (λ lower. ground (arith, has_key_self es h.1))
        (λ higher. ground arith) (λ same. ground arith)

AreSorted-take : (n : ℕ) (es : List CandidateNode) → AreSorted es → AreSorted (take n es)
AreSorted-take zero es h = tt
AreSorted-take (suc n) [] h = tt
AreSorted-take (suc n) (e ∷ es) h =
    (All-take (λ x. key e < key x) n es h.0, AreSorted-take n es h.1)

-- In a sorted list, what is not among the first is above all of them.
pub has_key-take :
    (k n : ℕ) (es : List CandidateNode)
    → AreSorted es
    → has_key k es ≡ true
    → (has_key k (take n es) ≡ true) ⊎ ((length (take n es) ≡ n) × IsBelow k (take n es))
has_key-take k zero es h has = inr (refl, tt)
has_key-take k (suc n) [] h has = absurd (cc has)
has_key-take k (suc n) (e ∷ es) h has = elim (Bool-cases (key e == k)) [
  | inl here ↦ inl (ground (arith, here))
  | inr there ↦ elim (has_key-take k n es h.1 (ground (arith, has, there))) [
    | inl early ↦ inl (ground (arith, early))
    | inr (full, below) ↦
        inr (ap suc full, (above_has k (key e) es h.0 (ground (arith, has, there)), below))
  ]
]
  where
    above_has : (k j : ℕ) (l : List CandidateNode) → IsAbove j l → has_key k l ≡ true → j < k
    above_has k j [] above has = absurd (cc has)
    above_has k j (x ∷ l) above has = elim (Bool-cases (key x == k)) [
      | inl here ↦ ground (arith, here, above.0)
      | inr there ↦ above_has k j l above.1 (ground (arith, has, there))
    ]

-- A set in order.
pub record IsClosest (s : ClosestSet) : Type 0 where
  pub ids : All HasId s.closest
  pub sorted : AreSorted s.closest
  pub bounded : length s.closest ≤ s.capacity

pub closest_add-take :
    (cn : CandidateNode) (s : ClosestSet)
    → HasId cn
    → IsClosest s
    → (closest_add cn s).closest ≡ take s.capacity (map_set cn s.closest)
unfolding closest_add
closest_add-take cn s hc h =
    let full = map_set cn s.closest in
    let (least, most) = length-map_set cn hc s.closest h.ids in
    elim (Bool-cases (ltb s.capacity (length full))) [
      | inl over ↦
          let one_more : length full - 1 ≡ s.capacity = ground (arith, over, most, h.bounded) in
          rw over (ap (λ n. take n full) one_more)
      | inr within ↦ rw within (sym (take-all s.capacity full (ground (arith, within))))
    ]

-- An addition keeps a set in order.
pub closest_add-IsClosest :
    (cn : CandidateNode) (s : ClosestSet) → HasId cn → IsClosest s → IsClosest (closest_add cn s)
unfolding closest_add
closest_add-IsClosest cn s hc h =
    let same = closest_add-take cn s hc h in
    let full = map_set cn s.closest in
    record {
      ids = rw same (
          All-take (λ x. HasId x) s.capacity full
            (All-map_set cn hc (λ x. HasId x) s.closest h.ids hc h.ids));
      sorted =
          rw same
            (AreSorted-take s.capacity full (map_set-AreSorted cn hc s.closest h.ids h.sorted));
      bounded = rw same (omega (arith, length-take s.capacity full));
    }

-- An Id is in the set, or above all of a full set.
IsKept : ℕ → ClosestSet → Type 0
IsKept k s = (has_key k s.closest ≡ true) ⊎ ((length s.closest ≡ s.capacity) × IsBelow k s.closest)

-- What is found in the full map is kept.
IsKept-take :
    (cn : CandidateNode) (s : ClosestSet) (k : ℕ)
    → HasId cn
    → IsClosest s
    → has_key k (map_set cn s.closest) ≡ true
    → IsKept k (closest_add cn s)
unfolding IsKept closest_add
IsKept-take cn s k hc h has = rw (closest_add-take cn s hc h) (
    has_key-take k s.capacity (map_set cn s.closest)
      (map_set-AreSorted cn hc s.closest h.ids h.sorted) has)

closest_add-IsKept :
    (cn : CandidateNode) (s : ClosestSet) (k : ℕ)
    → HasId cn
    → IsClosest s
    → IsKept k s
    → IsKept k (closest_add cn s)
unfolding IsKept closest_add
closest_add-IsKept cn s k hc h (inl has) =
    IsKept-take cn s k hc h (has_key-map_set cn hc k s.closest h.ids has)
closest_add-IsKept cn s k hc h (inr (full, below)) =
    let (least, most) = length-map_set cn hc s.closest h.ids in
    let still : IsBelow k (take s.capacity (map_set cn s.closest)) =
      subst (λ n. IsBelow k (take n (map_set cn s.closest))) full
        (IsBelow-map_set cn hc k s.closest h.ids h.sorted below) in
    rw (closest_add-take cn s hc h)
      (inr (omega (arith, length-take s.capacity (map_set cn s.closest), least, full), still))

closest_add_self :
    (cn : CandidateNode) (s : ClosestSet)
    → HasId cn
    → IsClosest s
    → IsKept (key cn) (closest_add cn s)
closest_add_self cn s hc h = IsKept-take cn s (key cn) hc h (has_key_self cn hc s.closest h.ids)

-- The candidates are added in order.
unfoldable pub closest_add_all : List CandidateNode → ClosestSet → ClosestSet
closest_add_all [] s = s
closest_add_all (cn ∷ cns) s = closest_add_all cns (closest_add cn s)

closest_add_all-IsKept :
    (cns : List CandidateNode) (s : ClosestSet) (k : ℕ)
    → All HasId cns
    → IsClosest s
    → IsKept k s
    → IsKept k (closest_add_all cns s)
unfolding closest_add_all
closest_add_all-IsKept [] s k ids h kept = kept
closest_add_all-IsKept (cn ∷ cns) s k ids h kept =
    closest_add_all-IsKept cns (closest_add cn s) k ids.1 (closest_add-IsClosest cn s ids.0 h)
      (closest_add-IsKept cn s k ids.0 h kept)

closest_add_all-IsClosest :
    (cns : List CandidateNode) (s : ClosestSet)
    → All HasId cns
    → IsClosest s
    → IsClosest (closest_add_all cns s)
unfolding closest_add_all
closest_add_all-IsClosest [] s ids h = h
closest_add_all-IsClosest (cn ∷ cns) s ids h =
    closest_add_all-IsClosest cns (closest_add cn s) ids.1 (closest_add-IsClosest cn s ids.0 h)

-- The same in the code's words.
pub IsAmongSmallest : ClosestSet → CandidateNode → Type 0
IsAmongSmallest s c =
    (closest_contains c.node_id s ≡ true)
    ⊎ ((length s.closest ≡ s.capacity) × All (λ e. less e.node_id c.node_id ≡ true) s.closest)

contains-has_key :
    (c : CandidateNode) (es : List CandidateNode)
    → HasId c
    → All HasId es
    → anyb (λ e. not (less e.node_id c.node_id) && not (less c.node_id e.node_id)) es
      ≡ has_key (key c) es
contains-has_key c [] hc h = refl
contains-has_key c (e ∷ es) hc h = ground (
  arith,
  less-id_value e.node_id c.node_id h.0 hc,
  less-id_value c.node_id e.node_id hc h.0,
  contains-has_key c es hc h.1,
)

pub less-IsBelow :
    (c : CandidateNode) (es : List CandidateNode)
    → HasId c
    → All HasId es
    → IsBelow (key c) es
    → All (λ e. less e.node_id c.node_id ≡ true) es
less-IsBelow c [] hc h below = tt
less-IsBelow c (e ∷ es) hc h below = (
  ground (arith, less-id_value e.node_id c.node_id h.0 hc, below.0),
  less-IsBelow c es hc h.1 below.1,
)

IsKept-IsAmongSmallest :
    (c : CandidateNode) (s : ClosestSet)
    → HasId c
    → IsClosest s
    → IsKept (key c) s
    → IsAmongSmallest s c
unfolding IsKept IsAmongSmallest closest_contains
IsKept-IsAmongSmallest c s hc h (inl has) = inl (contains-has_key c s.closest hc h.ids ∙ has)
IsKept-IsAmongSmallest c s hc h (inr (full, below)) =
    inr (full, less-IsBelow c s.closest hc h.ids below)

-- After candidates with valid Ids are added in turn to a closest set in order, each of them has
-- its Id in the set, or the set is full and has only smaller Ids, by `operator<`. The target of
-- the set plays no part.
pub closest_add_all-smallest :
    (cns : List CandidateNode) (s : ClosestSet)
    → All HasId cns
    → IsClosest s
    → All (IsAmongSmallest (closest_add_all cns s)) cns
unfolding closest_add_all
closest_add_all-smallest [] s ids h = tt
closest_add_all-smallest (cn ∷ cns) s ids h =
    let next = closest_add-IsClosest cn s ids.0 h in
    (
      IsKept-IsAmongSmallest cn _ ids.0
          (closest_add_all-IsClosest cns (closest_add cn s) ids.1 next)
          (closest_add_all-IsKept cns (closest_add cn s) (key cn) ids.1 next
            (closest_add_self cn s ids.0 h)),
      closest_add_all-smallest cns (closest_add cn s) ids.1 next,
    )
