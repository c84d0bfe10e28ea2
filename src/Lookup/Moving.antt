-- ===== src/Lookup/Moving.antt =====
-- An answered call moves its node from the candidates of a lookup to its closest set.
use elastos_carrier_native.Prelude.{
  ℕ, suc, ◌≤◌, ◌≡◌, refl, sym, ap, subst, ◌∙◌, ◌==◌, none, some, List, [], ◌∷◌, All, Bool-cases,
  inl, inr, ℤ, arith,
}
use elastos_carrier_native.Id.{NodeId, IsId, id_eq, is_eq}
use elastos_carrier_native.Id.Order.{id_value, compare_to-id_value}
use elastos_carrier_native.Lookup.{CandidateNode, set_replied, get_candidate, remove_candidate}
use elastos_carrier_native.Lookup.Closest.{HasId, IsClosest, closest_add-IsClosest}
use elastos_carrier_native.Lookup.Holding.{IsHeld, closest_add-IsHeld}
use elastos_carrier_native.Lookup.Candidates.{
  one_if, tally, noted, IsDistinct, tally-remove_candidate,
}
use elastos_carrier_native.Lookup.Task.{LookupTask, drop_candidate, call_responsed}

id_eq-id_value : (a b : NodeId) → IsId a → IsId b → id_eq a b ≡ (id_value b == id_value a)
unfolding id_eq
id_eq-id_value a b ha hb =
    ap is_eq (compare_to-id_value a b (omega (arith, ha.size, hb.size)) ha.bytes hb.bytes)
    ∙ ground arith

module _ (id : NodeId) (hid : IsId id) where
  -- The first node with the Id, and what is left without it.
  record Removes (es : List CandidateNode) (c : CandidateNode) : Type 0 where
    valid : HasId c
    one_less : suc (tally (id_value id) (remove_candidate id es)) ≡ tally (id_value id) es

  removes :
      (es : List CandidateNode) (c : CandidateNode)
      → All HasId es
      → get_candidate id es ≡ some c
      → Removes es c
  unfolding get_candidate remove_candidate
  removes [] c h e = absurd (cc e)
  removes (x ∷ es) c h e =
      let same = id_eq-id_value id x.node_id hid h.0 in
      elim (Bool-cases (id_eq id x.node_id)) [
        | inl found ↦
            let it : x ≡ c = ground (arith, e, found) in
            let counted : one_if (id_value x.node_id == id_value id) ≡ 1 =
              ap one_if (sym same ∙ found) in
            record {
              valid = subst (λ n. HasId n) it h.0;
              one_less = rw found (omega (arith, counted));
            }
        | inr other ↦
            let r = removes es c h.1 (ground (arith, e, other)) in
            record { valid = r.valid; one_less = rw other (omega (arith, r.one_less)) }
      ]

  absent :
      (es : List CandidateNode)
      → All HasId es
      → tally (id_value id) es ≡ 0
      → get_candidate id es ≡ none
  unfolding get_candidate
  absent [] h e = refl
  absent (x ∷ es) h e =
      let same = id_eq-id_value id x.node_id hid h.0 in
      elim (Bool-cases (id_eq id x.node_id)) [
        | inl found ↦
            let counted : one_if (id_value x.node_id == id_value id) ≡ 1 =
              ap one_if (sym same ∙ found) in
            absurd (omega (arith, e, counted))
        | inr other ↦ rw other (absent es h.1 (omega (arith, e)))
      ]

  All-remove_candidate :
      (es : List CandidateNode) → All HasId es → All HasId (remove_candidate id es)
  unfolding remove_candidate
  All-remove_candidate [] h = tt
  All-remove_candidate (x ∷ es) h = elim (Bool-cases (id_eq id x.node_id)) [
    | inl found ↦ rw found h.1
    | inr other ↦ rw other (h.0, All-remove_candidate es h.1)
  ]

noted-bounded : (k : ℕ) (ids : List NodeId) → noted k ids ≤ 1
noted-bounded k ids = ground arith

-- The answer of a candidate of a lookup, whose candidates are distinct and whose closest set is in
-- order, takes its Id from the candidates. The closest set holds for the Id the object that was
-- the candidate, with the time of the reply and the token set and all else as before, or it is
-- full of smaller Ids. The candidates stay distinct and the set in order.
pub call_responsed-moved :
    (now : ℕ) (id : NodeId) (token : ℤ) (t : LookupTask) (c : CandidateNode)
    → IsId id
    → All HasId t.candidates.closest
    → IsDistinct t.candidates
    → IsClosest t.closest_set
    → get_candidate id t.candidates.closest ≡ some c
    → (get_candidate id (call_responsed now id token t).candidates.closest ≡ none)
      × IsHeld
          (call_responsed now id token t).closest_set
          (record c { last_reply = now; token = token })
      × IsClosest (call_responsed now id token t).closest_set
      × IsDistinct (call_responsed now id token t).candidates
unfolding call_responsed drop_candidate set_replied
call_responsed-moved now id token t c hid ids distinct closest found =
    let es = t.candidates.closest in
    let r = removes id hid es c ids found in
    let replied = record (set_replied now c) { token = token } in
    let gone : tally (id_value id) (remove_candidate id es) ≡ 0 = omega (
      arith,
      r.one_less,
      distinct.once (id_value id),
      noted-bounded (id_value id) t.candidates.dedup_ids,
    ) in
    rw (found, call_responsed)
      (
        absent id hid (remove_candidate id es) (All-remove_candidate id hid es ids) gone,
        closest_add-IsHeld replied t.closest_set r.valid closest,
        closest_add-IsClosest replied t.closest_set r.valid closest,
        record {
          ids = distinct.ids;
          once = λ k. omega (arith, distinct.once k, tally-remove_candidate k id es);
        },
      )
