-- ===== src/RoutingTable/Covering.antt =====
-- Which bucket of a table covers an Id, and a bucket that is put back in its place.
use elastos_carrier_native.Prelude.{
  ℕ, zero, suc, ◌+◌, ◌≤◌, ◌<◌, ◌≡◌, sym, ap, subst, ◌∙◌, true, some, List, [], ◌∷◌, length,
  get_elem?, set, All, All-set, lt→ltb, dec_lt, arith,
}
use elastos_carrier_native.Id.{NodeId, IsId}
use elastos_carrier_native.Id.Order.{id_value}
use elastos_carrier_native.Prefix.{IsPrefix, first, last, is_prefix_of}
use elastos_carrier_native.Prefix.Range.{is_prefix_of-range}
use elastos_carrier_native.KBucket.{KBucket, IsBucket}
use elastos_carrier_native.RoutingTable.{RoutingTable, IsTable, IsPlaced, Tiles}
use elastos_carrier_native.RoutingTable.Tiling.{start_at, start_at-found, start_at_grows, Tiles-end}

pub All-get_elem? {κ} :
    (P : KBucket → Type κ) (bs : List KBucket) (i : ℕ) (b : KBucket)
    → All P bs
    → get_elem? bs i ≡ some b
    → P b
All-get_elem? P [] i b a e = absurd (ground arith)
All-get_elem? P (c ∷ bs) zero b a e = let same : c ≡ b = ground arith in subst P same a.0
All-get_elem? P (c ∷ bs) (suc i) b a e = All-get_elem? P bs i b a.1 e

pub get_elem?-inside :
    (bs : List KBucket) (i : ℕ) (b : KBucket) → get_elem? bs i ≡ some b → i < length bs
get_elem?-inside [] i b e = absurd (ground arith)
get_elem?-inside (c ∷ bs) zero b e = omega arith
get_elem?-inside (c ∷ bs) (suc i) b e = omega (arith, get_elem?-inside bs i b e)

set-Tiles :
    (s : ℕ) (bs : List KBucket) (i : ℕ) (b c : KBucket)
    → Tiles s bs
    → get_elem? bs i ≡ some b
    → c.prefix ≡ b.prefix
    → Tiles s (set bs i c)
unfolding Tiles
set-Tiles s [] i b c t e q = absurd (ground arith)
set-Tiles s (x ∷ bs) zero b c t e q =
    let same : x ≡ b = ground arith in
    let prefixes : c.prefix ≡ x.prefix = q ∙ ap (λ y. y.prefix) (sym same) in rw prefixes t
set-Tiles s (x ∷ bs) (suc i) b c t e q =
    (t.0, t.1, set-Tiles (id_value (last x.prefix) + 1) bs i b c t.2 e q)

-- A bucket is put back with the prefix that it had.
pub set-IsTable :
    (t : RoutingTable) (i : ℕ) (b c : KBucket)
    → IsTable t
    → get_elem? t.buckets i ≡ some b
    → c.prefix ≡ b.prefix
    → IsBucket c
    → IsPlaced c
    → IsTable (record t { buckets = set t.buckets i c })
set-IsTable t i b c h e q valid placed = record {
  tiles = set-Tiles 0 t.buckets i b c h.tiles e q;
  valid = All-set IsBucket t.buckets i c h.valid valid;
  placed = All-set IsPlaced t.buckets i c h.placed placed;
}

-- No Id lies under two buckets.
pub covers_once :
    (bs : List KBucket) (id : NodeId) (i j : ℕ) (b c : KBucket)
    → Tiles 0 bs
    → IsId id
    → get_elem? bs i ≡ some b
    → get_elem? bs j ≡ some c
    → IsPrefix b.prefix
    → IsPrefix c.prefix
    → is_prefix_of b.prefix id ≡ true
    → is_prefix_of c.prefix id ≡ true
    → j ≤ i
unfolding first
covers_once bs id i j b c t h eb ec hb hc covers_b covers_c = elim (dec_lt i j) [
  | no le ↦ omega arith
  | yes lt ↦
      let inside = get_elem?-inside bs j c ec in
      let end : id_value (last b.prefix) + 1 ≡ start_at bs (suc i) =
        rw (lt→ltb (suc i) (length bs) (omega arith)) at (Tiles-end 0 bs i b t eb) in
      let b_range = (is_prefix_of-range b.prefix id hb h).0 covers_b in
      let c_range = (is_prefix_of-range c.prefix id hc h).0 covers_c in
      absurd (too_late inside end b_range.1 c_range.0 lt (dec_lt (suc i) j))
]
  where
    too_late :
        j < length bs
        → id_value (last b.prefix) + 1 ≡ start_at bs (suc i)
        → id_value id ≤ id_value (last b.prefix)
        → id_value c.prefix.bits ≤ id_value id
        → i < j
        → Dec (suc i < j)
        → ⊥
    too_late inside end hi lo lt (yes further) =
        omega (arith, start_at_grows 0 bs (suc i) j t further inside, start_at-found bs j c ec)
    too_late inside end hi lo lt (no next) =
        let e : suc i ≡ j = omega arith in
        omega (arith, ap (start_at bs) e, start_at-found bs j c ec)
