-- ===== src/Lookup/Candidates.antt =====
-- That no Id stands twice among the candidates of a lookup.
use elastos_carrier_native.Prelude.{
  ℕ, ◌+◌, ◌≤◌, ◌≡◌, refl, sym, ap, ◌∙◌, Bool, false, ◌&&◌, not, ltb, ◌==◌, if◌then◌else◌, List, [],
  ◌∷◌, length, drop, filterb, anyb, All, Bool-cases, inl, inr, arith,
}
use elastos_carrier_native.Id.{NodeId, IsId, id_eq}
use elastos_carrier_native.Id.Order.{id_value}
use elastos_carrier_native.Lookup.{
  CandidateNode, is_in_flight, ClosestCandidates, remove_candidate, candidate_order, insert_by,
  sort_by,
}
use elastos_carrier_native.Lookup.Adding.{
  NodeInfo, same_id, same_ip, candidate_of, filter_new, nearer_node, merge_before, merge_by,
  remove_each, trim, candidates_add,
}
use elastos_carrier_native.Lookup.Closest.{less-id_value}

abbrev pub one_if : Bool → ℕ
one_if b = if b then 1 else 0

-- How many candidates have the Id with a number, and whether it is noted.
abbrev pub tally : ℕ → List CandidateNode → ℕ
tally k [] = 0
tally k (e ∷ es) = one_if (id_value e.node_id == k) + tally k es

abbrev pub noted : ℕ → List NodeId → ℕ
noted k ids = one_if (anyb (λ id. id_value id == k) ids)

-- No Id twice, and each is noted.
pub record IsDistinct (s : ClosestCandidates) : Type 0 where
  pub ids : All IsId s.dedup_ids
  pub once : (k : ℕ) → tally k s.closest ≤ noted k s.dedup_ids

module _ (before : CandidateNode → CandidateNode → Bool) (k : ℕ) where
  tally-insert_by :
      (c : CandidateNode) (es : List CandidateNode)
      → tally k (insert_by before c es) ≡ tally k (c ∷ es)
  unfolding insert_by
  tally-insert_by c [] = refl
  tally-insert_by c (e ∷ es) = elim (Bool-cases (before e c)) [
    | inl yes_before ↦ rw yes_before (omega (arith, tally-insert_by c es))
    | inr not_before ↦ rw not_before refl
  ]

  tally-sort_by : (es : List CandidateNode) → tally k (sort_by before es) ≡ tally k es
  unfolding sort_by
  tally-sort_by [] = refl
  tally-sort_by (c ∷ es) = tally-insert_by c (sort_by before es) ∙ omega (arith, tally-sort_by es)

  tally-merge_before :
      (a : CandidateNode) (rest : List CandidateNode → List CandidateNode) (n : ℕ)
      (bs : List CandidateNode)
      → ((l : List CandidateNode) → tally k (rest l) ≡ n + tally k l)
      → tally k (merge_before before a rest bs) ≡ tally k (a ∷ []) + n + tally k bs
  unfolding merge_before
  tally-merge_before a rest n [] h = omega (arith, h [])
  tally-merge_before a rest n (b ∷ bs) h = elim (Bool-cases (before b a)) [
    | inl yes_before ↦ rw yes_before (omega (arith, tally-merge_before a rest n bs h))
    | inr not_before ↦ rw not_before (omega (arith, h (b ∷ bs)))
  ]

  tally-merge_by :
      (xs ys : List CandidateNode) → tally k (merge_by before xs ys) ≡ tally k xs + tally k ys
  unfolding merge_by
  tally-merge_by [] ys = omega arith
  tally-merge_by (x ∷ xs) ys =
      omega (
        arith,
        tally-merge_before x (merge_by before xs) (tally k xs) ys (λ l. tally-merge_by xs l),
      )

pub tally-remove_candidate :
    (k : ℕ) (id : NodeId) (es : List CandidateNode) → tally k (remove_candidate id es) ≤ tally k es
unfolding remove_candidate
tally-remove_candidate k id [] = omega arith
tally-remove_candidate k id (e ∷ es) = elim (Bool-cases (id_eq id e.node_id)) [
  | inl found ↦ rw found (omega arith)
  | inr other ↦ rw other (omega (arith, tally-remove_candidate k id es))
]

tally-remove_each : (k : ℕ) (cs es : List CandidateNode) → tally k (remove_each cs es) ≤ tally k es
unfolding remove_each
tally-remove_each k [] es = omega arith
tally-remove_each k (c ∷ cs) es = omega (
  arith,
  tally-remove_each k cs (remove_candidate c.node_id es),
  tally-remove_candidate k c.node_id es,
)

tally-trim :
    (k : ℕ) (target : NodeId) (capacity : ℕ) (es : List CandidateNode)
    → tally k (trim target capacity es) ≤ tally k es
unfolding trim
tally-trim k target capacity es =
    let idle = filterb (λ (e : CandidateNode). not (is_in_flight e)) es in
    let extra = drop capacity (sort_by (candidate_order target) idle) in
    elim (Bool-cases (ltb capacity (length es) && ltb capacity (length idle))) [
      | inl over ↦ rw over (tally-remove_each k extra es)
      | inr within ↦ rw within (omega arith)
    ]

known-noted :
    (id : NodeId) (ids : List NodeId)
    → IsId id
    → All IsId ids
    → anyb (same_id id) ids ≡ anyb (λ x. id_value x == id_value id) ids
known-noted id [] h hs = refl
known-noted id (x ∷ ids) h hs =
    ground (arith, less-id_value id x h hs.0, less-id_value x id hs.0 h, known-noted id ids h hs.1)

-- One more noted Id.
noted-grows : (k : ℕ) (id : NodeId) (ids : List NodeId) → noted k ids ≤ noted k (id ∷ ids)
noted-grows k id ids = ground arith

noted-new :
    (k : ℕ) (id : NodeId) (ids : List NodeId)
    → anyb (λ x. id_value x == id_value id) ids ≡ false
    → one_if (id_value id == k) + noted k ids ≤ noted k (id ∷ ids)
noted-new k id ids fresh = elim (Bool-cases (id_value id == k)) [
  | inl same ↦
      let e : id_value id ≡ k = ground (arith, same) in
      let none_yet : anyb (λ x. id_value x == k) ids ≡ false = rw e at fresh in
      rw (same, none_yet) (ground arith)
  | inr other ↦
      let nothing : one_if (id_value id == k) ≡ 0 = ap one_if other in
      omega (arith, nothing, noted-grows k id ids)
]

-- What the first loop of `add` leaves of the set.
record Filters (s : ClosestCandidates) (r : List CandidateNode × ClosestCandidates) : Type 0 where
  ids : All IsId r.1.dedup_ids
  same_closest : r.1.closest ≡ s.closest
  same_target : r.1.target ≡ s.target
  new_once : (k : ℕ) → tally k r.0 + noted k s.dedup_ids ≤ noted k r.1.dedup_ids

filter_new-Filters :
    (nodes : List NodeInfo) (s : ClosestCandidates)
    → All (λ n. IsId n.node_id) nodes
    → All IsId s.dedup_ids
    → Filters s (filter_new nodes s)
unfolding filter_new candidate_of
filter_new-Filters [] s hn hs = record {
  ids = hs;
  same_closest = refl;
  same_target = refl;
  new_once = λ k. omega arith;
}
filter_new-Filters (node ∷ nodes) s hn hs =
    elim (Bool-cases (anyb (same_id node.node_id) s.dedup_ids)) [
      | inl known ↦
          let f = filter_new-Filters nodes s hn.1 hs in
          rw (known, filter_new)
            (record {
              ids = f.ids;
              same_closest = f.same_closest;
              same_target = f.same_target;
              new_once = f.new_once;
            })
      | inr fresh ↦
          let fresh_key = sym (known-noted node.node_id s.dedup_ids hn.0 hs) ∙ fresh in
          elim (Bool-cases (anyb (same_ip node.address) s.dedup_addresses)) [
            | inl known_address ↦
                let noted_id = record s { dedup_ids = node.node_id ∷ s.dedup_ids } in
                let f = filter_new-Filters nodes noted_id hn.1 (hn.0, hs) in
                rw (fresh, known_address, filter_new)
                  (record {
                    ids = f.ids;
                    same_closest = f.same_closest;
                    same_target = f.same_target;
                    new_once =
                        λ k. omega (arith, f.new_once k, noted-grows k node.node_id s.dedup_ids);
                  })
            | inr fresh_address ↦
                let noted_both = record s {
                  dedup_ids = node.node_id ∷ s.dedup_ids;
                  dedup_addresses = node.address ∷ s.dedup_addresses;
                } in
                let f = filter_new-Filters nodes noted_both hn.1 (hn.0, hs) in
                rw (fresh, fresh_address, filter_new)
                  (record {
                    ids = f.ids;
                    same_closest = f.same_closest;
                    same_target = f.same_target;
                    new_once = λ k.
                        omega (arith, f.new_once k, noted-new k node.node_id s.dedup_ids fresh_key);
                  })
          ]
    ]

-- `add` of any nodes with valid Ids keeps the candidates distinct: no Id stands twice among them,
-- and each is among the Ids that were noted.
pub candidates_add-IsDistinct :
    (nodes : List NodeInfo) (s : ClosestCandidates)
    → All (λ n. IsId n.node_id) nodes
    → IsDistinct s
    → IsDistinct (candidates_add nodes s)
unfolding candidates_add
candidates_add-IsDistinct nodes s hn h =
    let f = filter_new-Filters nodes s hn h.ids in
    let r = filter_new nodes s in
    let sorted = sort_by (nearer_node s.target) r.0 in
    let merged = merge_by (nearer_node s.target) r.1.closest sorted in
    record {
      ids = f.ids;
      once = λ k. omega (
        arith,
        tally-trim k s.target s.capacity merged,
        tally-merge_by (nearer_node s.target) k r.1.closest sorted,
        tally-sort_by (nearer_node s.target) k r.0,
        ap (tally k) f.same_closest,
        f.new_once k,
        h.once k,
      );
    }
