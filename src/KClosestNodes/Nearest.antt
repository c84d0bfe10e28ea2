-- ===== src/KClosestNodes/Nearest.antt =====
-- `shave` of core/kclosest_nodes.cc, and the distances of what it keeps.
use mathlib.Core.List.{Perm}
use mathlib.Core.List.Perm
use elastos_carrier_native.Prelude.{
  ℕ, zero, suc, ◌≤◌, ◌≡◌, refl, sym, ap, ◌∙◌, compare, true, false, ltb, leb, List, [], ◌∷◌, ◌++◌,
  length, take, drop, All, Bool-cases, if_split, ltb→lt, subst, inl, inr, arith,
}
use elastos_carrier_native.Id.{NodeId, IsId, three_way_compare, distance, is_lt}
use elastos_carrier_native.Id.Order.{id_value}
use elastos_carrier_native.Id.Distance.{three_way_compare-distance}
use elastos_carrier_native.Entry.{Entry}
use elastos_carrier_native.KClosestNodes.{insert_near, sort_near, shave}

-- How far an entry is from the target, as a number.
abbrev pub distance_to : NodeId → Entry → ℕ
distance_to target e = id_value (distance target e.node_id)

abbrev HasId : Entry → Type 0
HasId e = IsId e.node_id

is_lt-compare : (a b : ℕ) → is_lt (compare a b) ≡ ltb a b
is_lt-compare a b = ground arith

abbrev AreFurther : NodeId → Entry → List Entry → Type 0
AreFurther target e = All (λ x. distance_to target e ≤ distance_to target x)

module _ (target : NodeId) (ht : IsId target) where
  nearer :
      (a b : Entry)
      → HasId a
      → HasId b
      → is_lt (three_way_compare target a.node_id b.node_id)
        ≡ ltb (distance_to target a) (distance_to target b)
  nearer a b ha hb =
      ap is_lt (three_way_compare-distance target a.node_id b.node_id ht ha hb)
      ∙ is_lt-compare (distance_to target a) (distance_to target b)

  abbrev AreSorted : List Entry → Type 0
  AreSorted [] = Unit
  AreSorted (e ∷ es) = AreFurther target e es × AreSorted es

  AreFurther-trans :
      (a b : Entry) (es : List Entry)
      → distance_to target a ≤ distance_to target b
      → AreFurther target b es
      → AreFurther target a es
  AreFurther-trans a b [] le h = tt
  AreFurther-trans a b (e ∷ es) le h = (omega (arith, h.0), AreFurther-trans a b es le h.1)

  All-insert_near {κ} :
      (P : Entry → Type κ) (x : Entry) (es : List Entry)
      → P x
      → All P es
      → All P (insert_near target x es)
  unfolding insert_near
  All-insert_near P x [] px h = (px, tt)
  All-insert_near P x (e ∷ es) px h =
      elim (Bool-cases (is_lt (three_way_compare target e.node_id x.node_id))) [
        | inl t ↦ rw t (h.0, All-insert_near P x es px h.1)
        | inr f ↦ rw f (px, h)
      ]

  insert_near-AreSorted :
      (x : Entry) (es : List Entry)
      → HasId x
      → All HasId es
      → AreSorted es
      → AreSorted (insert_near target x es)
  unfolding insert_near
  insert_near-AreSorted x [] hx ids h = (tt, tt)
  insert_near-AreSorted x (e ∷ es) hx ids h =
      elim (Bool-cases (ltb (distance_to target e) (distance_to target x))) [
        | inl t ↦
            rw (nearer e x ids.0 hx, t)
              (
                All-insert_near _ x es (omega (arith, ltb→lt _ _ t)) h.0,
                insert_near-AreSorted x es hx ids.1 h.1,
              )
        | inr f ↦
            rw (nearer e x ids.0 hx, f)
              ((not_nearer f, AreFurther-trans x e es (not_nearer f) h.0), h)
      ]
    where
      not_nearer :
          ltb (distance_to target e) (distance_to target x) ≡ false
          → distance_to target x ≤ distance_to target e
      not_nearer f = ground arith

  sort_near-HasId : (es : List Entry) → All HasId es → All HasId (sort_near target es)
  unfolding sort_near
  sort_near-HasId [] h = tt
  sort_near-HasId (e ∷ es) h =
      All-insert_near HasId e (sort_near target es) h.0 (sort_near-HasId es h.1)

  sort_near-AreSorted : (es : List Entry) → All HasId es → AreSorted (sort_near target es)
  unfolding sort_near
  sort_near-AreSorted [] h = tt
  sort_near-AreSorted (e ∷ es) h =
      insert_near-AreSorted e (sort_near target es) h.0 (sort_near-HasId es h.1)
        (sort_near-AreSorted es h.1)

  AreFurther-drop :
      (e : Entry) (n : ℕ) (es : List Entry)
      → AreFurther target e es
      → AreFurther target e (drop n es)
  AreFurther-drop e zero es h = h
  AreFurther-drop e (suc n) [] h = h
  AreFurther-drop e (suc n) (x ∷ es) h = AreFurther-drop e n es h.1

  take-AreSorted :
      (n : ℕ) (es : List Entry)
      → AreSorted es
      → All (λ k. AreFurther target k (drop n es)) (take n es)
  take-AreSorted zero es h = tt
  take-AreSorted (suc n) [] h = tt
  take-AreSorted (suc n) (e ∷ es) h = (AreFurther-drop e n es h.0, take-AreSorted n es h.1)

insert_near-Perm :
    (target : NodeId) (x : Entry) (es : List Entry) → Perm (x ∷ es) (insert_near target x es)
unfolding insert_near
insert_near-Perm target x [] = Perm.refl _
insert_near-Perm target x (e ∷ es) =
    elim (Bool-cases (is_lt (three_way_compare target e.node_id x.node_id))) [
      | inl t ↦ rw t (Perm.trans (Perm.swap e x es) (Perm.cons e (insert_near-Perm target x es)))
      | inr f ↦ rw f (Perm.refl _)
    ]

sort_near-Perm : (target : NodeId) (es : List Entry) → Perm es (sort_near target es)
unfolding sort_near
sort_near-Perm target [] = Perm.refl _
sort_near-Perm target (e ∷ es) =
    Perm.trans (Perm.cons e (sort_near-Perm target es))
      (insert_near-Perm target e (sort_near target es))

take-drop : (n : ℕ) (es : List Entry) → take n es ++ drop n es ≡ es
take-drop zero es = refl
take-drop (suc n) [] = refl
take-drop (suc n) (e ∷ es) = ap (λ rest. e ∷ rest) (take-drop n es)

length-take : (n : ℕ) (es : List Entry) → length (take n es) ≤ n
length-take zero es = omega arith
length-take (suc n) [] = omega arith
length-take (suc n) (e ∷ es) = omega (arith, length-take n es)

append_nil : (es : List Entry) → es ++ [] ≡ es
append_nil [] = refl
append_nil (e ∷ es) = ap (λ rest. e ∷ rest) (append_nil es)

further_than_none : (target : NodeId) (es : List Entry) → All (λ k. AreFurther target k []) es
further_than_none target [] = tt
further_than_none target (e ∷ es) = (tt, further_than_none target es)

-- What a cut of the entries into those kept and those given up is to be.
pub record IsNearest (target : NodeId) (max_entries : ℕ) (es kept obsolete : List Entry)
    : Type 0 where
  pub all_entries : Perm es (kept ++ obsolete)
  pub bounded : length kept ≤ max_entries
  pub nearest : All (λ k. All (λ r. distance_to target k ≤ distance_to target r) obsolete) kept

-- `shave` splits the entries, whose ids and target are valid Ids, into those it keeps and those it
-- gives up: no entry is lost or doubled, at most `maxEntries` are kept, and none that is kept is
-- further from the target than one given up.
pub shave-IsNearest :
    (target : NodeId) (max_entries : ℕ) (es : List Entry)
    → IsId target
    → All (λ e. IsId e.node_id) es
    → IsNearest target max_entries es
        (shave target max_entries es).0
        (shave target max_entries es).1
unfolding shave
shave-IsNearest target max_entries es ht ids =
    if_split (λ (cut : List Entry × List Entry). IsNearest target max_entries es cut.0 cut.1)
      (leb (length es) max_entries)
      (λ small. record {
        all_entries = subst (Perm es) (sym (append_nil es)) (Perm.refl es);
        bounded = leb→le (length es) max_entries small;
        nearest = further_than_none target es;
      })
      (λ _. record {
        all_entries =
            subst (Perm es) (sym (take-drop max_entries (sort_near target es)))
              (sort_near-Perm target es);
        bounded = length-take max_entries (sort_near target es);
        nearest =
            take-AreSorted target ht max_entries (sort_near target es)
              (sort_near-AreSorted target ht es ids);
      })
  where
    leb→le : (a b : ℕ) → leb a b ≡ true → a ≤ b
    leb→le a b h = ground arith

pub length-shave :
    (target : NodeId) (max_entries : ℕ) (es : List Entry)
    → length (shave target max_entries es).0 ≤ max_entries
unfolding shave
length-shave target max_entries es =
    if_split (λ (cut : List Entry × List Entry). length cut.0 ≤ max_entries)
      (leb (length es) max_entries) (λ small. leb→le (length es) max_entries small)
      (λ _. length-take max_entries (sort_near target es))
  where
    leb→le : (a b : ℕ) → leb a b ≡ true → a ≤ b
    leb→le a b h = ground arith
