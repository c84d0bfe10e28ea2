-- ===== src/RoutingTable/Search.antt =====
-- The binary search of `indexOf`, over any comparison with a strictly growing sequence.
use elastos_carrier_native.Prelude.{
  ℕ, zero, suc, ◌+◌, ◌-◌, ◌/◌, ◌≤◌, ◌<◌, ◌≡◌, refl, ◌⊎◌, inl, inr, compare, Ordering, ltb, ltb→lt,
  ℤ, pos, pred_ℤ, Bool-cases, dec_lt, arith,
}
use elastos_carrier_native.RoutingTable.{index_loop, compare_int}

-- `k` is the last place whose key is not above `v`.
pub record IsLastBelow (f : ℕ → ℕ) (v n k : ℕ) : Type 0 where
  pub inside : k < n
  pub reached : f k ≤ v
  pub above : (j : ℕ) → k < j → j < n → v < f j

-- What holds before each round.
record IsSearch (f : ℕ → ℕ) (v n low upper mid : ℕ) (cmp : Ordering) : Type 0 where
  ordered : low ≤ upper
  within : upper ≤ n
  lower : (j : ℕ) → j < low → f j ≤ v
  higher : (j : ℕ) → upper ≤ j → j < n → v < f j
  cursor :
      ((cmp ≡ Ordering.eq) × (low ≡ 0) × (upper ≡ n))
      ⊎ (((cmp ≡ Ordering.gt) × (low ≡ mid + 1)) ⊎ ((cmp ≡ Ordering.lt) × (upper ≡ mid)))

three :
    (a b : ℕ)
    → ((compare a b ≡ Ordering.lt) × (a < b))
      ⊎ (((compare a b ≡ Ordering.gt) × (b < a)) ⊎ ((compare a b ≡ Ordering.eq) × (a ≡ b)))
three a b = ground arith

module _ (f : ℕ → ℕ) (v n : ℕ) (some_bucket : 0 < n) (start : f 0 ≤ v) where
  abbrev pub Found : ℤ → Type 0
  Found r = (k : ℕ) × (r ≡ pos k) × IsLastBelow f v n k

  -- Where the candidates have run out, the loop's result is the last place below.
  finish :
      (low upper mid : ℕ) (cmp : Ordering)
      → upper ≤ low
      → IsSearch f v n low upper mid cmp
      → Found (compare_int cmp (pred_ℤ (pos mid)) (pos mid))
  finish low upper mid cmp stop s = elim s.cursor [
    | inl fresh ↦ absurd (omega (arith, fresh.1, fresh.2))
    | inr (inl above) ↦ rw above.0 (
      mid,
      refl,
      record {
        inside = omega (arith, above.1, s.within, s.ordered);
        reached = s.lower mid (omega (arith, above.1));
        above = λ j hj hn. s.higher j (omega (arith, above.1)) hn;
      },
    )
    | inr (inr below) ↦ rw below.0 (last_below mid below.1)
  ]
    where
      last_below : (m : ℕ) → upper ≡ m → Found (pred_ℤ (pos m))
      last_below zero e = absurd (ends (omega (arith, s.ordered)))
        where
          ends : low ≡ 0 → ⊥
          ends l = omega (arith, s.higher 0 (omega arith) some_bucket)
      last_below (suc m) e = (
        m,
        refl,
        record {
          inside = omega (arith, s.within);
          reached = s.lower m (omega (arith, s.ordered));
          above = λ j hj hn. s.higher j (omega arith) hn;
        },
      )

  module _ (grows : (i j : ℕ) → i < j → j < n → f i < f j) (cmp_at : ℕ → Ordering)
      (compares : (m : ℕ) → m < n → cmp_at m ≡ compare v (f m)) where
    go_up :
        (low upper mid m : ℕ) (cmp : Ordering)
        → IsSearch f v n low upper mid cmp
        → low ≤ m
        → m < upper
        → f m ≤ v
        → IsSearch f v n (m + 1) upper m Ordering.gt
    go_up low upper mid m cmp s lo hi le = record {
      ordered = omega arith;
      within = s.within;
      lower = λ j hj. elim (dec_lt j m) [
        | yes lt ↦ omega (arith, grows j m lt (omega (arith, s.within)))
        | no ge ↦ let e : j ≡ m = omega arith in rw e le
      ];
      higher = s.higher;
      cursor = inr (inl (refl, refl));
    }

    go_down :
        (low upper mid m : ℕ) (cmp : Ordering)
        → IsSearch f v n low upper mid cmp
        → low ≤ m
        → m < upper
        → v < f m
        → IsSearch f v n low m m Ordering.lt
    go_down low upper mid m cmp s lo hi lt = record {
      ordered = lo;
      within = omega (arith, s.within);
      lower = s.lower;
      higher = λ j hj hn. elim (dec_lt m j) [
        | yes further ↦ omega (arith, grows m j further hn)
        | no same ↦ let e : j ≡ m = omega arith in rw e lt
      ];
      cursor = inr (inr (refl, refl));
    }

    hit : (m : ℕ) → m < n → f m ≡ v → Found (pos m)
    hit m inside e = (
      m,
      refl,
      record {
        inside = inside;
        reached = omega (arith, e);
        above = λ j hj hn. omega (arith, e, grows m j hj hn);
      },
    )

    -- The search ends within its rounds at the last place whose key is not above `v`.
    index_loop-Found :
        (rounds low upper mid : ℕ) (cmp : Ordering)
        → upper ≤ low + rounds
        → IsSearch f v n low upper mid cmp
        → Found (index_loop cmp_at rounds low upper mid cmp)
    unfolding index_loop
    index_loop-Found zero low upper mid cmp enough s = finish low upper mid cmp (omega arith) s
    index_loop-Found (suc rounds) low upper mid cmp enough s = elim (Bool-cases (ltb low upper)) [
      | inr stop ↦ rw (stop, index_loop) (finish low upper mid cmp (ground arith) s)
      | inl going ↦
          let m : ℕ = (low + upper - 1) / 2 in
          let lt : low < upper = ltb→lt low upper going in
          let lo : low ≤ m = omega arith in
          let hi : m < upper = omega arith in
          rw (going, index_loop, compares m (omega (arith, s.within)))
            (elim (three v (f m)) [
              | inl (e, below) ↦ rw e (
                  index_loop-Found rounds low m m Ordering.lt (omega arith)
                    (go_down low upper mid m cmp s lo hi below))
              | inr (inl (e, above)) ↦ rw e (
                  index_loop-Found rounds (m + 1) upper m Ordering.gt (omega arith)
                    (go_up low upper mid m cmp s lo hi (omega arith)))
              | inr (inr (e, same)) ↦ rw e (hit m (omega (arith, s.within)) (omega arith))
            ])
    ]

    pub search-Found : Found (index_loop cmp_at n 0 n 0 Ordering.eq)
    search-Found = index_loop-Found n 0 n 0 Ordering.eq (omega arith) (record {
      ordered = omega arith;
      within = omega arith;
      lower = λ j hj. absurd (omega arith);
      higher = λ j hj hn. absurd (omega arith);
      cursor = inl (refl, refl, refl);
    })
