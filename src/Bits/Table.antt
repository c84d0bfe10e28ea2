-- ===== src/Bits/Table.antt =====
-- Checking every value below a bound: for the byte operations, which range over 256 values.
use elastos_carrier_native.Prelude.{ℕ, zero, suc, ◌<◌, ◌≡◌, Bool, true, ◌&&◌, arith}

-- A test holds at each of the numbers below `bound`.
unfoldable pub table_of_truth : ℕ → (ℕ → Bool) → Bool
table_of_truth zero test = true
table_of_truth (suc bound) test = test bound && table_of_truth bound test

pub true_below :
    (bound : ℕ) (test : ℕ → Bool) (value : ℕ)
    → table_of_truth bound test ≡ true
    → value < bound
    → test value ≡ true
unfolding table_of_truth
true_below (suc bound) test value table below = ground (arith, true_below bound test value)
true_below zero test value table below = absurd (omega arith)
