-- ===== src/KBucket/Replace.antt =====
-- A new entry in a bucket's list, in a free place or in the place of another, keeps the list few,
-- reached and apart.
use elastos_carrier_native.Prelude.{
  ℕ, ◌≤◌, ◌<◌, ◌≡◌, Bool, true, not, ltb, ◌==◌, ==_refl, ltb→lt, none, some, List, [], ◌∷◌, length,
  anyb, find?, All, Bool-cases, Option-cases, if_split, inl, inr, arith,
}
use elastos_carrier_native.Entry.{Entry, matches, needs_replacement}
use elastos_carrier_native.KBucket.{
  IsApart, remove_ref, youngest_of, update_entries, replace_bad_entry, put_new, max_entries,
}
use elastos_carrier_native.KBucket.Apart.{
  Stranger-anyb, All-remove_ref, All-insert_entry, remove_ref-IsApart, insert_entry-IsApart,
  length-remove_ref, length-insert_entry,
}

-- The same of a list of entries.
pub record IsEntries (es : List Entry) : Type 0 where
  pub room : length es ≤ max_entries
  pub reached : All (λ e. e.reachable ≡ true) es
  pub apart : IsApart es

-- An object of the list is gone after its removal: the list is shorter.
pub length-remove_ref_held :
    (p : Entry → Bool) (es : List Entry) (e : Entry)
    → find? p es ≡ some e
    → length (remove_ref e.ref es) < length es
unfolding remove_ref
length-remove_ref_held p [] e h = absurd (ground arith)
length-remove_ref_held p (x ∷ es) e h = elim (Bool-cases (x.ref == e.ref)) [
  | inl t ↦ rw t (omega (arith, length-remove_ref e.ref es))
  | inr f ↦ elim (Bool-cases (p x)) [
    | inl hit ↦ absurd (ground (arith, ==_refl e.ref))
    | inr miss ↦ rw f (omega (arith, length-remove_ref_held p es e (rw miss at h)))
  ]
]

length-remove_ref_youngest :
    (es : List Entry) (e : Entry)
    → youngest_of es ≡ some e
    → length (remove_ref e.ref es) < length es
unfolding remove_ref youngest_of
length-remove_ref_youngest [] e h = absurd (ground arith)
length-remove_ref_youngest (x ∷ es) e h = elim (Option-cases (youngest_of es)) [
  | inl n ↦ ground (arith, length-remove_ref e.ref es)
  | inr (y, s) ↦
      ground (arith, length-remove_ref_youngest es e (ground arith), length-remove_ref e.ref es)
]

-- A new entry in the place of a held one, or in a free place.
replaced-IsEntries :
    (es : List Entry) (old new : Entry)
    → IsEntries es
    → new.reachable ≡ true
    → length (remove_ref old.ref es) < length es
    → IsEntries (update_entries es (some old) (some new))
unfolding update_entries
replaced-IsEntries es old new h r shorter = elim (Bool-cases (anyb (λ e. matches new e) es)) [
  | inl t ↦ rw t h
  | inr f ↦ rw f (record {
    room = length-insert_entry _ new (omega (arith, h.room));
    reached = All-insert_entry _ _ new (All-remove_ref _ old.ref es h.reached) r;
    apart =
        insert_entry-IsApart _ new (All-remove_ref _ old.ref es (Stranger-anyb new es f))
          (remove_ref-IsApart old.ref es h.apart);
  })
]

added-IsEntries :
    (es : List Entry) (new : Entry)
    → IsEntries es
    → new.reachable ≡ true
    → length es < max_entries
    → IsEntries (update_entries es none (some new))
unfolding update_entries
added-IsEntries es new h r free = elim (Bool-cases (anyb (λ e. matches new e) es)) [
  | inl t ↦ rw t h
  | inr f ↦ rw f (record {
    room = length-insert_entry es new free;
    reached = All-insert_entry _ es new h.reached r;
    apart = insert_entry-IsApart es new (Stranger-anyb new es f) h.apart;
  })
]

pub put_new-IsEntries :
    (es : List Entry) (new : Entry) (now : ℕ) → IsEntries es → IsEntries (put_new es new now)
unfolding put_new replace_bad_entry
put_new-IsEntries es new now h =
    if_split IsEntries (not new.reachable) (λ _. h)
      λ reached.
        let r : new.reachable ≡ true = ground arith in
        if_split IsEntries (ltb (length es) max_entries)
          (λ free. added-IsEntries es new h r (ltb→lt _ _ free))
          λ full. elim (Option-cases (find? (λ e. needs_replacement e now) es)) [
            | inr (bad, found) ↦
                rw found (replaced-IsEntries es bad new h r (length-remove_ref_held _ es bad found))
            | inl fine ↦ rw fine (elim (Option-cases (youngest_of es)) [
              | inl nobody ↦ rw nobody h
              | inr (y, last) ↦ rw last (
                  if_split IsEntries (ltb new.created y.created)
                    (λ older.
                      replaced-IsEntries es y new h r (length-remove_ref_youngest es y last))
                    (λ younger. h))
            ])
          ]
