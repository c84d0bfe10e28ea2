-- ===== src/RoutingTable/Splice.antt =====
-- What the sort of `_modify` yields after a split: the halves where the bucket stood.
use elastos_carrier_native.Prelude.{
  ℕ, zero, suc, ◌+◌, ◌<◌, ◌≡◌, refl, sym, ap, subst, ◌∙◌, true, false, some, List, [], ◌∷◌, ◌++◌,
  length, get_elem?, All, arith,
}
use elastos_carrier_native.Id.{compare_to, is_lt}
use elastos_carrier_native.Id.Order.{id_value, compare_to-id_value}
use elastos_carrier_native.Prefix.{Prefix, IsPrefix, first, last}
use elastos_carrier_native.KBucket.{KBucket}
use elastos_carrier_native.RoutingTable.{Tiles, insert_bucket, sort_buckets, remove_at}
use elastos_carrier_native.RoutingTable.Tiling.{first-le-last}
use elastos_carrier_native.RoutingTable.Splitting.{AreHalves}

abbrev pub splice_at : ℕ → KBucket → KBucket → List KBucket → List KBucket
splice_at i l h [] = []
splice_at zero l h (b ∷ bs) = l ∷ h ∷ bs
splice_at (suc i) l h (b ∷ bs) = b ∷ splice_at i l h bs

before :
    (a b : KBucket)
    → IsPrefix a.prefix
    → IsPrefix b.prefix
    → id_value (first a.prefix) < id_value (first b.prefix)
    → is_lt (compare_to a.prefix.bits b.prefix.bits) ≡ true
unfolding first
before a b ha hb h =
    rw
      (compare_to-id_value a.prefix.bits b.prefix.bits (ha.id.size ∙ sym hb.id.size) ha.id.bytes
        hb.id.bytes)
      (ground arith)

not_before :
    (a b : KBucket)
    → IsPrefix a.prefix
    → IsPrefix b.prefix
    → id_value (first a.prefix) < id_value (first b.prefix)
    → is_lt (compare_to b.prefix.bits a.prefix.bits) ≡ false
unfolding first
not_before a b ha hb h =
    rw
      (compare_to-id_value b.prefix.bits a.prefix.bits (hb.id.size ∙ sym ha.id.size) hb.id.bytes
        ha.id.bytes)
      (ground arith)

-- A bucket that lies before a tiling goes to its front.
insert_front :
    (x : KBucket) (s : ℕ) (bs : List KBucket)
    → IsPrefix x.prefix
    → id_value (first x.prefix) < s
    → Tiles s bs
    → insert_bucket x bs ≡ x ∷ bs
unfolding insert_bucket Tiles
insert_front x s [] hx lt t = refl
insert_front x s (b ∷ bs) hx lt t = rw (not_before x b hx t.0 (omega (arith, t.1, lt)))

insert_after :
    (x b : KBucket) (bs : List KBucket)
    → IsPrefix x.prefix
    → IsPrefix b.prefix
    → id_value (first b.prefix) < id_value (first x.prefix)
    → insert_bucket x (b ∷ bs) ≡ b ∷ insert_bucket x bs
unfolding insert_bucket
insert_after x b bs hx hb lt = rw (before b x hb hx lt)

held : (a b : KBucket) → some a ≡ some b → a ≡ b
held a b e = ground arith

module _ (l h : KBucket) (p : Prefix) (halves : AreHalves p l.prefix h.prefix) where
  low_first : id_value (first l.prefix) < id_value (first h.prefix)
  low_first = omega (arith, halves.meets, first-le-last l.prefix halves.low)

  insert_bucket-pair : sort_buckets (l ∷ h ∷ []) ≡ l ∷ h ∷ []
  unfolding sort_buckets insert_bucket
  insert_bucket-pair = rw (not_before l h halves.low halves.high low_first)

  -- The halves move before all that follows.
  sort_behind :
      (s : ℕ) (bs : List KBucket)
      → id_value (first h.prefix) < s
      → Tiles s bs
      → sort_buckets (bs ++ l ∷ h ∷ []) ≡ l ∷ h ∷ bs
  unfolding sort_buckets Tiles
  sort_behind s [] lt t = insert_bucket-pair
  sort_behind s (b ∷ bs) lt t =
      ap (insert_bucket b) (
        sort_behind (id_value (last b.prefix) + 1) bs
          (omega (arith, t.1, lt, first-le-last b.prefix t.0)) t.2)
      ∙ insert_after b l (h ∷ bs) t.0 halves.low (omega (arith, t.1, lt, low_first))
      ∙ ap (◌∷◌ l) (
          insert_after b h bs t.0 halves.high (omega (arith, t.1, lt))
          ∙ ap (◌∷◌ h) (
              insert_front b (id_value (last b.prefix) + 1) bs t.0
                (omega (arith, first-le-last b.prefix t.0)) t.2))

  halves_after : id_value (first h.prefix) < id_value (last p) + 1
  halves_after = omega (arith, halves.ends, first-le-last h.prefix halves.high)

  pub splice_at-Tiles :
      (s : ℕ) (bs : List KBucket) (i : ℕ) (b : KBucket)
      → Tiles s bs
      → get_elem? bs i ≡ some b
      → b.prefix ≡ p
      → Tiles s (splice_at i l h bs)
  unfolding Tiles
  splice_at-Tiles s [] i b t e q = absurd (ground arith)
  splice_at-Tiles s (c ∷ bs) zero b t e q =
      let same : c.prefix ≡ p = ap (λ x. x.prefix) (held c b e) ∙ q in
      let start : id_value (first p) ≡ s = rw same at t.1 in
      let rest : Tiles (id_value (last p) + 1) bs = rw same at t.2 in
      (
        halves.low,
        halves.begins ∙ start,
        (
          halves.high,
          halves.meets,
          subst (λ n. Tiles n bs) (ap (λ n. n + 1) (sym halves.ends)) rest,
        ),
      )
  splice_at-Tiles s (c ∷ bs) (suc i) b t e q =
      (t.0, t.1, splice_at-Tiles (id_value (last c.prefix) + 1) bs i b t.2 e q)

  -- The sort puts the halves where the bucket stood.
  pub sort_buckets-splice_at :
      (s : ℕ) (bs : List KBucket) (i : ℕ) (b : KBucket)
      → Tiles s bs
      → get_elem? bs i ≡ some b
      → b.prefix ≡ p
      → sort_buckets (remove_at i bs ++ l ∷ h ∷ []) ≡ splice_at i l h bs
  unfolding sort_buckets Tiles remove_at
  sort_buckets-splice_at s [] i b t e q = absurd (ground arith)
  sort_buckets-splice_at s (c ∷ bs) zero b t e q =
      let same : c.prefix ≡ p = ap (λ x. x.prefix) (held c b e) ∙ q in
      let rest : Tiles (id_value (last p) + 1) bs = rw same at t.2 in
      sort_behind (id_value (last p) + 1) bs halves_after rest
  sort_buckets-splice_at s (c ∷ bs) (suc i) b t e q =
      ap (insert_bucket c) (sort_buckets-splice_at (id_value (last c.prefix) + 1) bs i b t.2 e q)
      ∙ insert_front c (id_value (last c.prefix) + 1) (splice_at i l h bs) t.0
          (omega (arith, first-le-last c.prefix t.0))
          (splice_at-Tiles (id_value (last c.prefix) + 1) bs i b t.2 e q)

pub get_elem?-splice_at :
    (l h : KBucket) (bs : List KBucket) (i : ℕ)
    → i < length bs
    → (get_elem? (splice_at i l h bs) i ≡ some l)
      × (get_elem? (splice_at i l h bs) (suc i) ≡ some h)
get_elem?-splice_at l h [] i g = absurd (omega arith)
get_elem?-splice_at l h (b ∷ bs) zero g = (refl, refl)
get_elem?-splice_at l h (b ∷ bs) (suc i) g = get_elem?-splice_at l h bs i (omega arith)

pub All-splice_at {κ} :
    (P : KBucket → Type κ) (l h : KBucket) (bs : List KBucket) (i : ℕ)
    → All P bs
    → P l
    → P h
    → All P (splice_at i l h bs)
All-splice_at P l h [] i a pl ph = tt
All-splice_at P l h (b ∷ bs) zero a pl ph = (pl, (ph, a.1))
All-splice_at P l h (b ∷ bs) (suc i) a pl ph = (a.0, All-splice_at P l h bs i a.1 pl ph)
