-- ===== src/Entry/Backoff.antt =====
-- How long an entry is left alone after failures, and when it may be replaced.
use elastos_carrier_native.Prelude.{
  ℕ, zero, suc, ◌+◌, ◌-◌, ◌*◌, ◌^◌, ◌≤◌, ◌<◌, ◌≡◌, refl, min, max, true, false, ◌&&◌, ltb, lt→ltb,
  pos, arith,
}
use elastos_carrier_native.Entry.{
  Entry, sub64, backoff_window_end, within_backoff_window, needs_ping, needs_replacement,
  signal_response, signal_request_timeout, backoff_shift,
}

sub64-le : (now t : ℕ) → t ≤ now → now < 2 ^ 64 → sub64 now t ≡ now - t
sub64-le now t h g = omega arith

-- The six windows that `backoff_window_end` can give.
window_le : (n : ℕ) → n ≤ 5 → 60000 * 2 ^ n ≤ 1920000
window_le zero h = omega arith
window_le (suc zero) h = omega arith
window_le (suc (suc zero)) h = omega arith
window_le (suc (suc (suc zero))) h = omega arith
window_le (suc (suc (suc (suc zero)))) h = omega arith
window_le (suc (suc (suc (suc (suc zero))))) h = omega arith
window_le (suc (suc (suc (suc (suc (suc n)))))) h = absurd (omega arith)

-- After one to six failures, `withinBackoffWindow` tests whether 32 minutes have passed since the
-- last request, however many the failures were.
pub within_backoff_window-constant :
    (e : Entry) (n now : ℕ)
    → e.failed_requests ≡ pos (suc n)
    → n ≤ 5
    → within_backoff_window e now ≡ ltb (sub64 now e.last_send) (32 * 60 * 1000)
unfolding within_backoff_window
within_backoff_window-constant e n now f h =
    let m : max 5 n ≡ 5 = omega arith in rw (f, m) (ground arith)

window_end :
    (e : Entry) (n : ℕ)
    → e.failed_requests ≡ pos (suc n)
    → n ≤ 5
    → 0 < e.last_send
    → backoff_window_end e ≡ pos (e.last_send + backoff_shift n)
unfolding backoff_window_end
window_end e n f h sent = let m : min 5 n ≡ n = omega arith in rw (f, m) (ground arith)

-- After one to five failures, at a time when the window that `backoffWindowEnd` gives is over and
-- 32 minutes have not passed since the last request, `needsPing` is false.
pub needs_ping_after_window_end :
    (e : Entry) (n now : ℕ)
    → e.failed_requests ≡ pos (suc n)
    → n < 5
    → 0 < e.last_send
    → e.last_send + backoff_shift n ≤ now
    → now < e.last_send + backoff_shift 5
    → now < 2 ^ 64
    → (backoff_window_end e ≡ pos (e.last_send + backoff_shift n)) × (needs_ping e now ≡ false)
unfolding needs_ping
needs_ping_after_window_end e n now f h sent over before fits = (
  window_end e n f (omega arith) sent,
  (let difference : sub64 now e.last_send ≡ now - e.last_send =
        sub64-le now e.last_send (omega arith) fits in
      let inside : within_backoff_window e now ≡ true =
        rw (within_backoff_window-constant e n now f (omega arith), difference)
          (lt→ltb _ _ (omega arith)) in
      ground arith),
)

-- `n` timeouts in a row.
pub timeouts : ℕ → Entry → Entry
timeouts zero e = e
timeouts (suc n) e = signal_request_timeout (timeouts n e)

record AfterTimeouts (n seen : ℕ) (e : Entry) : Type 0 where
  failures : e.failed_requests ≡ pos n
  silent : e.last_seen ≡ seen
  known : e.reachable ≡ true

timeouts-AfterTimeouts :
    (n now : ℕ) (e : Entry) → AfterTimeouts n now (timeouts n (signal_response e now))
unfolding timeouts signal_response signal_request_timeout
timeouts-AfterTimeouts zero now e = record { failures = refl; silent = refl; known = refl }
timeouts-AfterTimeouts (suc n) now e = ground (arith, timeouts-AfterTimeouts n now e)

-- A node that answered, and then let `n` requests time out, needs replacement exactly if `n` is 6
-- at least and the answer is more than 15 minutes old.
pub needs_replacement-timeouts :
    (e : Entry) (n seen now : ℕ)
    → needs_replacement (timeouts n (signal_response e seen)) now
      ≡ (ltb 5 n && ltb (15 * 60 * 1000) (sub64 now seen))
unfolding needs_replacement
needs_replacement-timeouts e n seen now =
    let t = timeouts-AfterTimeouts n seen e in rw (t.failures, t.silent, t.known) (ground arith)
