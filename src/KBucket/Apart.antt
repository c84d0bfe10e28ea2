-- ===== src/KBucket/Apart.antt =====
-- How the list operations of a bucket keep its entries apart, reached and few.
use elastos_carrier_native.Prelude.{
  ℕ, suc, ◌≤◌, ◌<◌, ◌≡◌, refl, ◌∙◌, Bool, false, ltb, ◌==◌, List, [], ◌∷◌, ◌++◌, length,
  length-append, anyb, All, All-append, Bool-cases, if_cases, inl, inr, arith,
}
use elastos_carrier_native.Entry.{Entry, matches}
use elastos_carrier_native.Entry.Laws.{matches_comm}
use elastos_carrier_native.KBucket.{
  IsApart, remove_ref, insert_created, sort_created, insert_entry, update_first, max_entries,
}

-- `e` matches none of the entries.
abbrev pub Stranger : Entry → List Entry → Type 0
Stranger e = All (λ x. matches e x ≡ false)

pub Stranger-anyb :
    (e : Entry) (es : List Entry) → anyb (λ x. matches e x) es ≡ false → Stranger e es
Stranger-anyb e [] h = tt
Stranger-anyb e (x ∷ es) h = ground (arith, Stranger-anyb e es)

module _ {κ} (P : Entry → Type κ) where
  pub All-remove_ref : (r : ℕ) (es : List Entry) → All P es → All P (remove_ref r es)
  unfolding remove_ref
  All-remove_ref r [] h = tt
  All-remove_ref r (e ∷ es) h = elim (Bool-cases (e.ref == r)) [
    | inl t ↦ rw t (All-remove_ref r es h.1)
    | inr f ↦ rw f (h.0, All-remove_ref r es h.1)
  ]

  pub All-insert_created :
      (x : Entry) (es : List Entry) → P x → All P es → All P (insert_created x es)
  unfolding insert_created
  All-insert_created x [] px h = (px, tt)
  All-insert_created x (e ∷ es) px h = elim (Bool-cases (ltb e.created x.created)) [
    | inl t ↦ rw t (h.0, All-insert_created x es px h.1)
    | inr f ↦ rw f (px, h)
  ]

  pub All-sort_created : (es : List Entry) → All P es → All P (sort_created es)
  unfolding sort_created
  All-sort_created [] h = tt
  All-sort_created (e ∷ es) h = All-insert_created e _ h.0 (All-sort_created es h.1)

  pub All-update_first :
      (p : Entry → Bool) (f : Entry → Entry) (es : List Entry)
      → ((e : Entry) → P e → P (f e))
      → All P es
      → All P (update_first p f es)
  unfolding update_first
  All-update_first p f [] keep h = tt
  All-update_first p f (e ∷ es) keep h = elim (Bool-cases (p e)) [
    | inl t ↦ rw t (keep e h.0, h.1)
    | inr n ↦ rw n (h.0, All-update_first p f es keep h.1)
  ]

pub remove_ref-IsApart : (r : ℕ) (es : List Entry) → IsApart es → IsApart (remove_ref r es)
unfolding remove_ref
remove_ref-IsApart r [] h = tt
remove_ref-IsApart r (e ∷ es) h = elim (Bool-cases (e.ref == r)) [
  | inl t ↦ rw t (remove_ref-IsApart r es h.1)
  | inr f ↦ rw f (All-remove_ref _ r es h.0, remove_ref-IsApart r es h.1)
]

insert_created-IsApart :
    (x : Entry) (es : List Entry) → Stranger x es → IsApart es → IsApart (insert_created x es)
unfolding insert_created
insert_created-IsApart x [] s h = (tt, tt)
insert_created-IsApart x (e ∷ es) s h = elim (Bool-cases (ltb e.created x.created)) [
  | inl t ↦
      rw t (
        All-insert_created _ x es (matches_comm e x ∙ s.0) h.0,
        insert_created-IsApart x es s.1 h.1,
      )
  | inr f ↦ rw f (s, h)
]

pub sort_created-IsApart : (es : List Entry) → IsApart es → IsApart (sort_created es)
unfolding sort_created
sort_created-IsApart [] h = tt
sort_created-IsApart (e ∷ es) h =
    insert_created-IsApart e _ (All-sort_created _ es h.0) (sort_created-IsApart es h.1)

-- An insertion appends, and sorts or not.
pub insert_entry_cases {κ} :
    (Q : List Entry → Type κ) (es : List Entry) (new : Entry)
    → ((l : List Entry) → Q l → Q (sort_created l))
    → Q es
    → Q (es ++ new ∷ [])
    → Q (insert_entry es new)
unfolding insert_entry
insert_entry_cases Q es new sorts old longer =
    if_cases Q _ (sorts _ (if_cases Q _ longer old)) (if_cases Q _ longer old)

pub All-insert_entry {κ} :
    (P : Entry → Type κ) (es : List Entry) (new : Entry)
    → All P es
    → P new
    → All P (insert_entry es new)
All-insert_entry P es new h hn =
    insert_entry_cases (All P) es new (All-sort_created P) h (All-append P es (new ∷ []) h (hn, tt))

append-IsApart :
    (es : List Entry) (new : Entry) → Stranger new es → IsApart es → IsApart (es ++ new ∷ [])
append-IsApart [] new s h = (tt, tt)
append-IsApart (e ∷ es) new s h =
    (All-append _ es (new ∷ []) h.0 (matches_comm e new ∙ s.0, tt), append-IsApart es new s.1 h.1)

pub insert_entry-IsApart :
    (es : List Entry) (new : Entry) → Stranger new es → IsApart es → IsApart (insert_entry es new)
insert_entry-IsApart es new s h =
    insert_entry_cases IsApart es new sort_created-IsApart h (append-IsApart es new s h)

-- Lengths.
pub length-insert_created :
    (x : Entry) (es : List Entry) → length (insert_created x es) ≡ suc (length es)
unfolding insert_created
length-insert_created x [] = refl
length-insert_created x (e ∷ es) = ground (arith, length-insert_created x es)

pub length-sort_created : (es : List Entry) → length (sort_created es) ≡ length es
unfolding sort_created
length-sort_created [] = refl
length-sort_created (e ∷ es) =
    omega (arith, length-insert_created e (sort_created es), length-sort_created es)

pub length-remove_ref : (r : ℕ) (es : List Entry) → length (remove_ref r es) ≤ length es
unfolding remove_ref
length-remove_ref r [] = omega arith
length-remove_ref r (e ∷ es) = ground (arith, length-remove_ref r es)

pub length-insert_entry :
    (es : List Entry) (new : Entry)
    → length es < max_entries
    → length (insert_entry es new) ≤ max_entries
unfolding insert_entry
length-insert_entry es new h =
    ground (arith, length-append es (new ∷ []), length-sort_created (es ++ new ∷ []))
