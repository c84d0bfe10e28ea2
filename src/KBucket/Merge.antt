-- ===== src/KBucket/Merge.antt =====
-- The loops of core/kbucket.cc that change one entry in place.
use elastos_carrier_native.Prelude.{
  ◌≡◌, refl, ◌∙◌, Bool, true, false, some, List, [], ◌∷◌, length, Option-cases, if_split, ◌⊎◌, inl,
  inr, arith,
}
use elastos_carrier_native.Entry.{Entry, equals, matches, merge}
use elastos_carrier_native.Entry.Laws.{SameNode, matches_comm, matches-SameNode}
use elastos_carrier_native.KBucket.{IsApart, merge_existing, update_first}
use elastos_carrier_native.KBucket.Replace.{IsEntries}
use elastos_carrier_native.KBucket.Apart.{Stranger, All-update_first}

-- What `merge` and the signals keep, over a list.
abbrev pub Keeps : (Entry → Entry) → Type 0
Keeps f = (e : Entry) → SameNode e (f e) × (e.reachable ≡ true → (f e).reachable ≡ true)

All-matches_cong : (e f : Entry) (es : List Entry) → SameNode e f → Stranger e es → Stranger f es
All-matches_cong e f [] s h = tt
All-matches_cong e f (x ∷ es) s h = (matches-SameNode x s ∙ h.0, All-matches_cong e f es s h.1)

update_first-IsApart :
    (p : Entry → Bool) (f : Entry → Entry) (es : List Entry)
    → Keeps f
    → IsApart es
    → IsApart (update_first p f es)
unfolding update_first
update_first-IsApart p f [] k h = tt
update_first-IsApart p f (e ∷ es) k h =
    if_split IsApart (p e) (λ _. (All-matches_cong e (f e) es (k e).0 h.0, h.1))
      (λ _. (
        All-update_first (λ x. matches e x ≡ false) p f es
            (λ x m. matches_comm e (f x) ∙ matches-SameNode e (k x).0 ∙ matches_comm x e ∙ m) h.0,
        update_first-IsApart p f es k h.1,
      ))

pub length-update_first :
    (p : Entry → Bool) (f : Entry → Entry) (es : List Entry)
    → length (update_first p f es) ≡ length es
unfolding update_first
length-update_first p f [] = refl
length-update_first p f (e ∷ es) = ground (arith, length-update_first p f es)

pub update_first-IsEntries :
    (p : Entry → Bool) (f : Entry → Entry) (es : List Entry)
    → Keeps f
    → IsEntries es
    → IsEntries (update_first p f es)
update_first-IsEntries p f es k h = record {
  room = omega (arith, length-update_first p f es, h.room);
  reached = All-update_first _ p f es (λ e. (k e).1) h.reached;
  apart = update_first-IsApart p f es k h.apart;
}

-- The first loop of `_put` changes one entry by a merge, or nothing.
pub merge_existing-update_first :
    (es : List Entry) (new : Entry) {es' : List Entry}
    → merge_existing es new ≡ some es'
    → (es' ≡ es) ⊎ (es' ≡ update_first (λ e. equals e new) (λ e. merge e new) es)
unfolding merge_existing update_first
merge_existing-update_first [] new h = absurd (ground arith)
merge_existing-update_first (e ∷ es) new h = elim (Option-cases (merge_existing es new)) [
  | inl n ↦ ground arith
  | inr (rest, s) ↦ ground (arith, merge_existing-update_first es new {es' = rest} s)
]
