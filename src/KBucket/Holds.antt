-- ===== src/KBucket/Holds.antt =====
-- An entry of a bucket's list, through the operations on the list.
use elastos_carrier_native.Prelude.{
  ℕ, ◌<◌, ◌≡◌, refl, sym, ap, ◌∙◌, ◌≢◌, ◌⊎◌, inl, inr, Bool, true, false, ltb, leb, ◌==◌, ==→≡,
  some, List, [], ◌∷◌, ◌++◌, length, anyb, find?, All, Bool-cases, Option-cases, if_cases, if_split,
  arith,
}
use elastos_carrier_native.Entry.{Entry, matches}
use elastos_carrier_native.KBucket.{
  max_entries, remove_ref, insert_created, sort_created, youngest_of, unordered_insert,
  insert_entry, update_entries,
}
use elastos_carrier_native.KBucket.Apart.{insert_entry_cases}

-- The entry stands in the list.
abbrev pub Holds : Entry → List Entry → Type 0
Holds e [] = ⊥
Holds e (x ∷ xs) = (x ≡ e) ⊎ Holds e xs

-- Entries of the list that are one object are one entry.
abbrev pub OneObject : Entry → List Entry → Type 0
OneObject e = All (λ x. x.ref ≡ e.ref → x ≡ e)

pub Holds-remove_ref :
    (e : Entry) (r : ℕ) (es : List Entry) → e.ref ≢ r → Holds e es → Holds e (remove_ref r es)
unfolding remove_ref
Holds-remove_ref e r [] ne h = h
Holds-remove_ref e r (x ∷ es) ne (inl h) =
    if_split (Holds e) (x.ref == r) (λ t. absurd (ne (sym (ap (λ y. y.ref) h) ∙ ==→≡ x.ref r t)))
      (λ _. inl h)
Holds-remove_ref e r (x ∷ es) ne (inr h) =
    if_split (Holds e) (x.ref == r) (λ _. Holds-remove_ref e r es ne h)
      (λ _. inr (Holds-remove_ref e r es ne h))

pub Holds-insert_created :
    (e x : Entry) (es : List Entry) → Holds e (x ∷ es) → Holds e (insert_created x es)
unfolding insert_created
Holds-insert_created e x [] h = h
Holds-insert_created e x (y ∷ es) (inl h) =
    if_cases (Holds e) (ltb y.created x.created) (inr (Holds-insert_created e x es (inl h))) (inl h)
Holds-insert_created e x (y ∷ es) (inr (inl h)) =
    if_cases (Holds e) (ltb y.created x.created) (inl h) (inr (inl h))
Holds-insert_created e x (y ∷ es) (inr (inr h)) =
    if_cases (Holds e) (ltb y.created x.created) (inr (Holds-insert_created e x es (inr h)))
      (inr (inr h))

pub Holds-sort_created : (e : Entry) (es : List Entry) → Holds e es → Holds e (sort_created es)
unfolding sort_created
Holds-sort_created e (x ∷ es) (inl h) = Holds-insert_created e x _ (inl h)
Holds-sort_created e (x ∷ es) (inr h) = Holds-insert_created e x _ (inr (Holds-sort_created e es h))
Holds-sort_created e [] h = h

pub Holds-append : (e new : Entry) (es : List Entry) → Holds e es → Holds e (es ++ new ∷ [])
Holds-append e new [] h = absurd h
Holds-append e new (x ∷ es) (inl h) = inl h
Holds-append e new (x ∷ es) (inr h) = inr (Holds-append e new es h)

pub Holds-last : (new : Entry) (es : List Entry) → Holds new (es ++ new ∷ [])
Holds-last new [] = inl refl
Holds-last new (x ∷ es) = inr (Holds-last new es)

pub Holds-insert_entry :
    (e new : Entry) (es : List Entry) → Holds e es → Holds e (insert_entry es new)
Holds-insert_entry e new es h =
    insert_entry_cases (Holds e) es new (Holds-sort_created e) h (Holds-append e new es h)

pub Holds-found :
    (p : Entry → Bool) (es : List Entry) (e : Entry)
    → find? p es ≡ some e
    → Holds e es × (p e ≡ true)
Holds-found p [] e h = absurd (ground arith)
Holds-found p (x ∷ es) e h = elim (Bool-cases (p x)) [
  | inl t ↦ let same : x ≡ e = ground arith in (inl same, ap p (sym same) ∙ t)
  | inr f ↦ let rest = Holds-found p es e (rw f at h) in (inr rest.0, rest.1)
]

pub Holds-youngest : (es : List Entry) (e : Entry) → youngest_of es ≡ some e → Holds e es
unfolding youngest_of
Holds-youngest [] e h = absurd (ground arith)
Holds-youngest (x ∷ es) e h = elim (Option-cases (youngest_of es)) [
  | inl n ↦ inl (ground arith)
  | inr (y, s) ↦ inr (Holds-youngest es e (ground arith))
]

pub one_entry :
    (e x : Entry) (es : List Entry) → OneObject e es → Holds x es → x.ref ≡ e.ref → x ≡ e
one_entry e x [] o h r = absurd h
one_entry e x (y ∷ es) o (inl h) r = sym h ∙ o.0 (ap (λ z. z.ref) h ∙ r)
one_entry e x (y ∷ es) o (inr h) r = one_entry e x es o.1 h r

pub Holds-replaced :
    (e old new : Entry) (es : List Entry)
    → e.ref ≢ old.ref
    → Holds e es
    → Holds e (update_entries es (some old) (some new))
unfolding update_entries
Holds-replaced e old new es ne h =
    if_cases (Holds e) (anyb (λ x. matches new x) es) h
      (Holds-insert_entry e new _ (Holds-remove_ref e old.ref es ne h))

pub Holds-inserted :
    (new : Entry) (es : List Entry) → length es < max_entries → Holds new (insert_entry es new)
unfolding insert_entry
Holds-inserted new es room =
    let free : leb max_entries (length es) ≡ false = ground arith in
    rw (free, insert_entry)
      (if_cases (Holds new) (unordered_insert es new) (Holds-sort_created new _ (Holds-last new es))
        (Holds-last new es))
