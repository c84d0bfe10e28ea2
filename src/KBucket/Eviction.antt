-- ===== src/KBucket/Eviction.antt =====
-- Who leaves a bucket when an entry is offered to it, and who gets in.
use elastos_carrier_native.Prelude.{
  ℕ, ◌≤◌, ◌<◌, ◌≡◌, refl, sym, ap, inl, inr, Bool, true, false, not, ltb, ltb→lt, none, some, List,
  [], ◌∷◌, length, anyb, find?, Option-cases, if_cases, if_split, arith,
}
use elastos_carrier_native.Id.{NodeId, id_eq, is_eq}
use elastos_carrier_native.Id.Order.{compare_to_refl}
use elastos_carrier_native.Entry.{Entry, matches, merge, equals, needs_replacement}
use elastos_carrier_native.Entry.Laws.{merge-SameNode, matches_comm}
use elastos_carrier_native.KBucket.{
  KBucket, max_entries, exists, youngest_of, insert_entry, update_entries, merge_existing,
  replace_bad_entry, put_new, put_entries, put, update_first,
}
use elastos_carrier_native.KBucket.Holds.{
  Holds, OneObject, one_entry, Holds-found, Holds-youngest, Holds-replaced, Holds-insert_entry,
  Holds-inserted,
}
use elastos_carrier_native.KBucket.Merge.{merge_existing-update_first}

pub id_eq_refl : (x : NodeId) → id_eq x x ≡ true
unfolding id_eq
id_eq_refl x = ap is_eq (compare_to_refl x)

Holds-put_new :
    (e new : Entry) (es : List Entry) (now : ℕ)
    → Holds e es
    → OneObject e es
    → needs_replacement e now ≡ false
    → e.created ≤ new.created
    → Holds e (put_new es new now)
unfolding put_new replace_bad_entry update_entries
Holds-put_new e new es now h o fine older = if_cases (Holds e) (not new.reachable) h (
    if_cases (Holds e) (ltb (length es) max_entries)
      (if_cases (Holds e) (anyb (λ x. matches new x) es) h (Holds-insert_entry e new es h))
      (elim (Option-cases (find? (λ x. needs_replacement x now) es)) [
        | inr (bad, found) ↦
            let facts = Holds-found _ es bad found in
            rw found (
              Holds-replaced e bad new es
                (λ r. ground (
                  arith,
                  facts.1,
                  ap (λ x. needs_replacement x now) (one_entry e bad es o facts.0 (sym r)),
                ))
                h)
        | inl n ↦ rw n (elim (Option-cases (youngest_of es)) [
          | inl nobody ↦ rw nobody h
          | inr (y, last) ↦ rw last (
              if_split (Holds e) (ltb new.created y.created)
                (λ t.
                  Holds-replaced e y new es
                    (λ r. ground (
                      arith,
                      ap (λ x. x.created) (one_entry e y es o (Holds-youngest es y last) (sym r)),
                      ltb→lt _ _ t,
                    ))
                    h)
                (λ _. h))
        ])
      ]))

anyb-Holds :
    (p : Entry → Bool) (e : Entry) (es : List Entry) → Holds e es → p e ≡ true → anyb p es ≡ true
anyb-Holds p e [] h t = absurd h
anyb-Holds p e (x ∷ es) (inl h) t = rw (h, t)
anyb-Holds p e (x ∷ es) (inr h) t = ground (arith, anyb-Holds p e es h t)

anyb-update_first :
    (p q : Entry → Bool) (f : Entry → Entry) (es : List Entry)
    → ((e : Entry) → p (f e) ≡ p e)
    → anyb p (update_first q f es) ≡ anyb p es
unfolding update_first
anyb-update_first p q f [] same = refl
anyb-update_first p q f (x ∷ es) same = ground (arith, same x, anyb-update_first p q f es same)

pub put_entries-none :
    (es : List Entry) (new : Entry) (now : ℕ)
    → merge_existing es new ≡ none
    → put_entries es new now ≡ put_new es new now
unfolding put_entries
put_entries-none es new now n = rw (n, put_entries)

pub put_entries-some :
    (es es' : List Entry) (new : Entry) (now : ℕ)
    → merge_existing es new ≡ some es'
    → put_entries es new now ≡ es'
unfolding put_entries
put_entries-some es es' new now n = rw (n, put_entries)

abbrev is_node : Entry → Entry → Bool
is_node e x = id_eq x.node_id e.node_id

exists-put_entries :
    (e new : Entry) (es : List Entry) (now : ℕ)
    → Holds e es
    → OneObject e es
    → needs_replacement e now ≡ false
    → e.created ≤ new.created
    → anyb (is_node e) (put_entries es new now) ≡ true
exists-put_entries e new es now h o fine older = elim (Option-cases (merge_existing es new)) [
  | inl n ↦ rw (put_entries-none es new now n) (
      anyb-Holds (is_node e) e _ (Holds-put_new e new es now h o fine older) (id_eq_refl e.node_id))
  | inr (es', s) ↦
      rw (put_entries-some es es' new now s) (elim (merge_existing-update_first es new s) [
        | inl same ↦ rw same (anyb-Holds (is_node e) e es h (id_eq_refl e.node_id))
        | inr merged ↦
            rw
              (
                merged,
                anyb-update_first (is_node e) (λ x. equals x new) (λ x. merge x new) es
                    (λ x. ap (λ i. id_eq i e.node_id) (merge-SameNode x new).id),
              )
              (anyb-Holds (is_node e) e es h (id_eq_refl e.node_id))
      ])
]

-- An entry of a bucket that needs no replacement, and shares its identity with no other entry,
-- still has its id in the bucket after `_put` of an entry that was not created before it.
pub put-keeps :
    (b : KBucket) (e new : Entry) (now : ℕ)
    → Holds e b.entries
    → OneObject e b.entries
    → needs_replacement e now ≡ false
    → e.created ≤ new.created
    → exists (put b (some new) now) e.node_id ≡ true
unfolding put exists
put-keeps b e new now = exists-put_entries e new b.entries now

merge_existing_stranger :
    (es : List Entry) (new : Entry)
    → anyb (λ x. matches new x) es ≡ false
    → merge_existing es new ≡ none
unfolding merge_existing equals matches
merge_existing_stranger [] new h = refl
merge_existing_stranger (e ∷ es) new h =
    ground (arith, matches_comm e new, merge_existing_stranger es new)

put_new_added :
    (es : List Entry) (new : Entry) (now : ℕ)
    → new.reachable ≡ true
    → length es < max_entries
    → anyb (λ x. matches new x) es ≡ false
    → put_new es new now ≡ insert_entry es new
unfolding put_new update_entries
put_new_added es new now r room strange = ground (arith, strange)

-- A reached entry that has the id or address of no entry of a bucket with room is in the bucket
-- after `_put`.
pub put-adds :
    (b : KBucket) (new : Entry) (now : ℕ)
    → new.reachable ≡ true
    → length b.entries < max_entries
    → anyb (λ x. matches new x) b.entries ≡ false
    → exists (put b (some new) now) new.node_id ≡ true
unfolding put exists
put-adds b new now r room strange =
    rw (put_entries-none b.entries new now (merge_existing_stranger b.entries new strange)) (
      rw (put_new_added b.entries new now r room strange) (
        anyb-Holds (is_node new) new _ (Holds-inserted new b.entries room)
          (id_eq_refl new.node_id)))
