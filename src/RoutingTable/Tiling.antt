-- ===== src/RoutingTable/Tiling.antt =====
-- Buckets that tile the keyspace, and `indexOf` on them.
use native.Mathlib.Nat.{one-le-pow}
use elastos_carrier_native.Prelude.{
  ◌-◌, Bool-cases, ltb→lt, ℕ, zero, suc, ◌+◌, ◌≤◌, ◌<◌, ◌≡◌, refl, sym, ◌∙◌, compare, true, none,
  some, List, [], ◌∷◌, length, get_elem?, pos, ltb, if◌then◌else◌, inl, inr, arith,
}
use elastos_carrier_native.Id.{NodeId, IsId}
use elastos_carrier_native.Id.Order.{id_value, compare_to-id_value}
use elastos_carrier_native.Id.Value.{id_value-below}
use elastos_carrier_native.Prefix.{Prefix, IsPrefix, fixed_bits, first, last, is_prefix_of}
use elastos_carrier_native.Prefix.Range.{is_prefix_of-range, last-first_width}
use elastos_carrier_native.KBucket.{KBucket}
use elastos_carrier_native.RoutingTable.{Tiles, keyspace, compare_at, index_of}
use elastos_carrier_native.RoutingTable.Search.{IsLastBelow, search-Found}

-- The number at which bucket `i` begins.
abbrev pub start_at : List KBucket → ℕ → ℕ
start_at bs i = elim (get_elem? bs i) [ none ↦ 0 | some b ↦ id_value b.prefix.bits ]

pub start_at-found :
    (bs : List KBucket) (i : ℕ) (b : KBucket)
    → get_elem? bs i ≡ some b
    → start_at bs i ≡ id_value b.prefix.bits
start_at-found bs i b e = rw (e, start_at)

pub first-le-last : (p : Prefix) → IsPrefix p → id_value (first p) ≤ id_value (last p)
first-le-last p h = omega (arith, last-first_width p h, one-le-pow (256 - fixed_bits p.depth) 2)

pub Tiles-from :
    (s : ℕ) (bs : List KBucket) (j : ℕ) → Tiles s bs → j < length bs → s ≤ start_at bs j
unfolding Tiles first
Tiles-from s [] j t h = absurd (omega arith)
Tiles-from s (b ∷ bs) zero t h = omega (arith, t.1)
Tiles-from s (b ∷ bs) (suc j) t h = omega (
  arith,
  t.1,
  first-le-last b.prefix t.0,
  Tiles-from (id_value (last b.prefix) + 1) bs j t.2 (omega arith),
)

-- Later buckets begin later.
pub start_at_grows :
    (s : ℕ) (bs : List KBucket) (i j : ℕ)
    → Tiles s bs
    → i < j
    → j < length bs
    → start_at bs i < start_at bs j
unfolding Tiles first
start_at_grows s [] i j t h g = absurd (omega arith)
start_at_grows s (b ∷ bs) i zero t h g = absurd (omega arith)
start_at_grows s (b ∷ bs) zero (suc j) t h g = omega (
  arith,
  t.1,
  first-le-last b.prefix t.0,
  Tiles-from (id_value (last b.prefix) + 1) bs j t.2 (omega arith),
)
start_at_grows s (b ∷ bs) (suc i) (suc j) t h g =
    start_at_grows (id_value (last b.prefix) + 1) bs i j t.2 (omega arith) (omega arith)

-- A bucket ends where the next begins, or the keyspace ends.
pub Tiles-end :
    (s : ℕ) (bs : List KBucket) (i : ℕ) (b : KBucket)
    → Tiles s bs
    → get_elem? bs i ≡ some b
    → id_value (last b.prefix) + 1
      ≡ (if ltb (suc i) (length bs) then start_at bs (suc i) else keyspace)
unfolding Tiles first
Tiles-end s [] i b t e = absurd (ground arith)
Tiles-end s (c ∷ []) zero b t e = let same : c ≡ b = ground arith in rw (← same) t.2
Tiles-end s (c ∷ d ∷ bs) zero b t e =
    let same : c ≡ b = ground arith in rw (← same) (ground (arith, t.2.1))
Tiles-end s (c ∷ bs) (suc i) b t e =
    ground (arith, Tiles-end (id_value (last c.prefix) + 1) bs i b t.2 e)

bucket_at :
    (s : ℕ) (bs : List KBucket) (i : ℕ)
    → Tiles s bs
    → i < length bs
    → (b : KBucket) × (get_elem? bs i ≡ some b) × IsPrefix b.prefix
unfolding Tiles
bucket_at s [] i t h = absurd (omega arith)
bucket_at s (b ∷ bs) zero t h = (b, refl, t.0)
bucket_at s (b ∷ bs) (suc i) t h = bucket_at (id_value (last b.prefix) + 1) bs i t.2 (omega arith)

Tiles-nonempty : (bs : List KBucket) → Tiles 0 bs → (0 < length bs) × (start_at bs 0 ≡ 0)
unfolding Tiles first
Tiles-nonempty [] t = absurd (omega arith)
Tiles-nonempty (b ∷ bs) t = (omega arith, t.1)

compare_at-start_at :
    (bs : List KBucket) (id : NodeId) (m : ℕ)
    → Tiles 0 bs
    → IsId id
    → m < length bs
    → compare_at bs id m ≡ compare (id_value id) (start_at bs m)
unfolding compare_at
compare_at-start_at bs id m t h inside =
    let (b, found, ok) = bucket_at 0 bs m t inside in
    rw (found, compare_at, start_at-found bs m b found)
      (compare_to-id_value id b.prefix.bits (h.size ∙ sym ok.id.size) h.bytes ok.id.bytes)

-- What the search of a table yields.
pub record IsCovering (bs : List KBucket) (id : NodeId) (i : ℕ) (b : KBucket) : Type 0 where
  pub at : index_of bs id ≡ pos i
  pub inside : i < length bs
  pub found : get_elem? bs i ≡ some b
  pub prefix : IsPrefix b.prefix
  pub covers : is_prefix_of b.prefix id ≡ true

begins :
    (bs : List KBucket) (id : NodeId) (k : ℕ) (b : KBucket)
    → get_elem? bs k ≡ some b
    → IsLastBelow (start_at bs) (id_value id) (length bs) k
    → id_value (first b.prefix) ≤ id_value id
unfolding first
begins bs id k b found place = omega (arith, start_at-found bs k b found, place.reached)

ends :
    (bs : List KBucket) (id : NodeId) (k : ℕ) (b : KBucket)
    → Tiles 0 bs
    → IsId id
    → get_elem? bs k ≡ some b
    → IsLastBelow (start_at bs) (id_value id) (length bs) k
    → id_value id ≤ id_value (last b.prefix)
ends bs id k b t h found place = elim (Bool-cases (ltb (suc k) (length bs))) [
  | inl more ↦
      let next : id_value (last b.prefix) + 1 ≡ start_at bs (suc k) =
        rw more at (Tiles-end 0 bs k b t found) in
      omega (arith, next, place.above (suc k) (omega arith) (ltb→lt _ _ more))
  | inr end ↦
      let limit : id_value (last b.prefix) + 1 ≡ keyspace =
        rw end at (Tiles-end 0 bs k b t found) in
      omega (arith, limit, id_value-below id h)
]

-- In a list of buckets that tiles the keyspace, `indexOf` of an Id yields an index inside the
-- list, of a bucket whose prefix covers the Id.
pub index_of-IsCovering :
    (bs : List KBucket) (id : NodeId)
    → Tiles 0 bs
    → IsId id
    → (i : ℕ) × (b : KBucket) × IsCovering bs id i b
unfolding index_of
index_of-IsCovering bs id t h =
    let (k, e, place) =
      search-Found (start_at bs) (id_value id) (length bs) (Tiles-nonempty bs t).0
        (omega (arith, (Tiles-nonempty bs t).1)) (λ i j. start_at_grows 0 bs i j t)
        (compare_at bs id) (λ m. compare_at-start_at bs id m t h) in
    let (b, found, ok) = bucket_at 0 bs k t place.inside in
    (
      k,
      b,
      record {
        at = e;
        inside = place.inside;
        found = found;
        prefix = ok;
        covers =
            (is_prefix_of-range b.prefix id ok h).1
              (begins bs id k b found place, ends bs id k b t h found place);
      },
    )
