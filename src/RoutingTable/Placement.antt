-- ===== src/RoutingTable/Placement.antt =====
-- Under which prefix the entries of a bucket stand, through `_put` and `_split`.
use elastos_carrier_native.Prelude.{
  ℕ, ◌≡◌, refl, ◌∙◌, Bool, true, false, not, Option, none, some, List, [], ◌∷◌, length, find?, All,
  ltb, Bool-cases, Option-cases, if_cases, inl, inr, anyb,
}
use elastos_carrier_native.Id.{IsId}
use elastos_carrier_native.Prefix.{Prefix, IsPrefix, is_prefix_of, is_splittable, split_branch}
use elastos_carrier_native.Prefix.Split.{split_branch-partition}
use elastos_carrier_native.Entry.{Entry, merge, needs_replacement}
use elastos_carrier_native.Entry.Laws.{SameNode, merge-SameNode}
use elastos_carrier_native.KBucket.{
  KBucket, IsBucket, new_bucket, youngest_of, update_entries, merge_existing, replace_bad_entry,
  put_new, put_entries, put, max_entries,
}
use elastos_carrier_native.KBucket.Apart.{All-remove_ref, All-insert_entry, All-update_first}
use elastos_carrier_native.KBucket.Merge.{merge_existing-update_first}
use elastos_carrier_native.KBucket.Invariant.{put-IsBucket, new_bucket-IsBucket}
use elastos_carrier_native.KBucket.Eviction.{put_entries-none, put_entries-some}
use elastos_carrier_native.RoutingTable.{IsPlaced, distribute}

module _ {κ} (P : Entry → Type κ) (keeps : (a b : Entry) → SameNode a b → P a → P b) where
  All-update_entries :
      (es : List Entry) (old : Option Entry) (new : Entry)
      → P new
      → All P es
      → All P (update_entries es old (some new))
  unfolding update_entries
  All-update_entries es none new hn h =
      if_cases (All P) (anyb _ es) h (All-insert_entry P es new h hn)
  All-update_entries es (some old) new hn h =
      if_cases (All P) (anyb _ es) h (All-insert_entry P _ new (All-remove_ref P old.ref es h) hn)

  All-put_new :
      (es : List Entry) (new : Entry) (now : ℕ) → P new → All P es → All P (put_new es new now)
  unfolding put_new replace_bad_entry
  All-put_new es new now hn h = if_cases (All P) (not new.reachable) h (
      if_cases (All P) (ltb (length es) max_entries) (All-update_entries es none new hn h)
        (elim (Option-cases (find? (λ x. needs_replacement x now) es)) [
          | inr (bad, found) ↦ rw found (All-update_entries es (some bad) new hn h)
          | inl fine ↦ rw fine (elim (Option-cases (youngest_of es)) [
            | inl nobody ↦ rw nobody h
            | inr (y, last) ↦ rw last (
                if_cases (All P) (ltb new.created y.created)
                  (All-update_entries es (some y) new hn h) h)
          ])
        ]))

  -- What a bucket's entries share, and the offered one has, they share after `_put`.
  pub All-put_entries :
      (es : List Entry) (new : Entry) (now : ℕ) → P new → All P es → All P (put_entries es new now)
  All-put_entries es new now hn h = elim (Option-cases (merge_existing es new)) [
    | inl n ↦ rw (put_entries-none es new now n) (All-put_new es new now hn h)
    | inr (es', s) ↦
        rw (put_entries-some es es' new now s) (elim (merge_existing-update_first es new s) [
          | inl same ↦ rw same h
          | inr merged ↦
              rw merged
                (All-update_first P _ _ es (λ e. keeps e (merge e new) (merge-SameNode e new)) h)
        ])
  ]

-- The entry belongs to the range of a prefix.
abbrev pub IsUnder : Prefix → Entry → Type 0
IsUnder p e = IsId e.node_id × (is_prefix_of p e.node_id ≡ true)

pub IsUnder-SameNode : (p : Prefix) (a b : Entry) → SameNode a b → IsUnder p a → IsUnder p b
IsUnder-SameNode p a b same h = rw same.id h

pub put-prefix : (b : KBucket) (new : Entry) (now : ℕ) → (put b (some new) now).prefix ≡ b.prefix
unfolding put
put-prefix b new now = refl

pub put-IsPlaced :
    (b : KBucket) (new : Entry) (now : ℕ)
    → IsPlaced b
    → IsUnder b.prefix new
    → IsPlaced (put b (some new) now)
unfolding put
put-IsPlaced b new now h hn =
    All-put_entries (IsUnder b.prefix) (IsUnder-SameNode b.prefix) b.entries new now hn h

-- A half of the bucket that is split, filled so far.
pub record IsHalf (p : Prefix) (b : KBucket) : Type 0 where
  pub prefix : b.prefix ≡ p
  pub valid : IsBucket b
  pub placed : All (IsUnder p) b.entries

half_entries :
    (p : Prefix) (b : KBucket) (e : Entry) (now : ℕ)
    → IsHalf p b
    → IsUnder p e
    → All (IsUnder p) (put b (some e) now).entries
unfolding put
half_entries p b e now h u =
    All-put_entries (IsUnder p) (IsUnder-SameNode p) b.entries e now u h.placed

IsHalf-put :
    (p : Prefix) (b : KBucket) (e : Entry) (now : ℕ)
    → IsHalf p b
    → IsUnder p e
    → IsHalf p (put b (some e) now)
IsHalf-put p b e now h u = record {
  prefix = put-prefix b e now ∙ h.prefix;
  valid = put-IsBucket b (some e) now h.valid;
  placed = half_entries p b e now h u;
}

pub distribute-IsHalf :
    (p : Prefix) (l h : KBucket) (es : List Entry) (now : ℕ)
    → IsPrefix p
    → is_splittable p ≡ true
    → All (IsUnder p) es
    → IsHalf (split_branch p false) l
    → IsHalf (split_branch p true) h
    → IsHalf (split_branch p false) (distribute l h es now).0
      × IsHalf (split_branch p true) (distribute l h es now).1
unfolding distribute
distribute-IsHalf p l h [] now ok s under hl hh = (hl, hh)
distribute-IsHalf p l h (e ∷ es) now ok s under hl hh =
    elim (Bool-cases (is_prefix_of l.prefix e.node_id)) [
      | inl low ↦
          rw (low, distribute)
            (distribute-IsHalf p (put l (some e) now) h es now ok s under.1
              (IsHalf-put (split_branch p false) l e now hl (under.0.0, rw hl.prefix at low)) hh)
      | inr high ↦
          rw (high, distribute)
            (distribute-IsHalf p l (put h (some e) now) es now ok s under.1 hl (
              IsHalf-put (split_branch p true) h e now hh (
                under.0.0,
                (split_branch-partition p true e.node_id ok under.0.0 s).1
                    (under.0.1, rw hl.prefix at high),
              )))
    ]

pub new_bucket-IsHalf : (p : Prefix) (home : Bool) → IsHalf p (new_bucket p home)
unfolding new_bucket
new_bucket-IsHalf p home = record { prefix = refl; valid = new_bucket-IsBucket p home; placed = tt }
