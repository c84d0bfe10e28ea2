-- ===== src/RpcCall/Timeouts.antt =====
-- The timer of core/rpccall.cc: `checkTimeout`, once and many times.
use elastos_carrier_native.Prelude.{
  ℕ, ◌+◌, ◌-◌, ◌%◌, ◌^◌, ◌≤◌, ◌<◌, ◌≡◌, refl, true, false, not, ltb, lt→ltb, if◌then◌else◌, none,
  some, List, [], ◌∷◌, All, ap, ◌∙◌, pos, ltb_ℤ, Bool-cases, if_split, inl, inr, arith,
}
use elastos_carrier_native.Entry.{sub64}
use elastos_carrier_native.RpcCall.{
  CallState, stalled, timed_out, RpcCall, rpc_call_timeout_max, update_state, call_sent, to_int,
  remaining_of, awaits, check_timeout, fire_all, count_timeouts,
}

elapsed_lem :
    (start now : ℕ)
    → start ≤ now
    → now < start + 2 ^ 31
    → now < 2 ^ 64
    → to_int (sub64 now start) ≡ pos (now - start)
elapsed_lem start now after soon small =
    let difference : sub64 now start ≡ now - start = omega arith in
    let low : (now - start) % 2 ^ 32 ≡ now - start = omega arith in
    rw (difference, low, lt→ltb (now - start) (2 ^ 31) (omega arith)) refl

remaining_early :
    (c : RpcCall) (now : ℕ)
    → c.sent_time ≤ now
    → now < c.sent_time + rpc_call_timeout_max
    → now < 2 ^ 64
    → remaining_of c now ≡ pos (rpc_call_timeout_max - (now - c.sent_time))
unfolding remaining_of
remaining_early c now after early small =
    rw (elapsed_lem c.sent_time now after (omega arith) small) (ground arith)

remaining_late :
    (c : RpcCall) (now : ℕ)
    → c.sent_time + rpc_call_timeout_max ≤ now
    → now < c.sent_time + 2 ^ 31
    → now < 2 ^ 64
    → ltb_ℤ (pos 0) (remaining_of c now) ≡ false
unfolding remaining_of
remaining_late c now late soon small =
    rw (elapsed_lem c.sent_time now (omega arith) soon small) (ground arith)

-- Before the time is over, the timer is set to its end.
check_timeout-early :
    (c : RpcCall) (now : ℕ)
    → awaits c.state ≡ true
    → c.has_scheduler ≡ true
    → c.sent_time ≤ now
    → now < c.sent_time + rpc_call_timeout_max
    → now < 2 ^ 64
    → ((check_timeout c now).state ≡ stalled)
      × ((check_timeout c now).timer ≡ some (c.sent_time + rpc_call_timeout_max))
unfolding check_timeout update_state
check_timeout-early c now w s after early small =
    let left = remaining_early c now after early small in
    let positive : ltb 0 (rpc_call_timeout_max - (now - c.sent_time)) ≡ true =
      lt→ltb _ _ (omega arith) in
    let end : now + (rpc_call_timeout_max - (now - c.sent_time))
        ≡ c.sent_time + rpc_call_timeout_max =
      omega arith in
    rw (w, left, positive, s, end) (refl, refl)

-- When it is over, the call is timed out.
check_timeout-late :
    (c : RpcCall) (now : ℕ)
    → awaits c.state ≡ true
    → c.sent_time + rpc_call_timeout_max ≤ now
    → now < c.sent_time + 2 ^ 31
    → now < 2 ^ 64
    → (check_timeout c now).state ≡ timed_out
unfolding check_timeout update_state
check_timeout-late c now w late soon small = rw (w, remaining_late c now late soon small) refl

check_timeout-sent_time : (c : RpcCall) (now : ℕ) → (check_timeout c now).sent_time ≡ c.sent_time
unfolding check_timeout update_state
check_timeout-sent_time c now =
    if_split (λ (x : RpcCall). x.sent_time ≡ c.sent_time) (not (awaits c.state)) (λ _. refl)
      (λ _.
        if_split (λ (x : RpcCall). x.sent_time ≡ c.sent_time) (ltb_ℤ (pos 0) (remaining_of c now))
          (λ _. refl) (λ _. refl))

-- If the timer of a sent call fires once before 10 seconds have passed, the call is stalled and
-- the timer is set for the end of the 10 seconds; if it fires again then or later, within 2 ^ 31
-- ms and below time 2 ^ 64, the call is timed out.
pub call_sent-check_timeout :
    (c : RpcCall) (t first_fire second_fire : ℕ)
    → t ≤ first_fire
    → first_fire < t + rpc_call_timeout_max
    → t + rpc_call_timeout_max ≤ second_fire
    → second_fire < t + 2 ^ 31
    → second_fire < 2 ^ 64
    → ((check_timeout (call_sent c t) first_fire).state ≡ stalled)
      × ((check_timeout (call_sent c t) first_fire).timer ≡ some (t + rpc_call_timeout_max))
      × ((fire_all (call_sent c t) (first_fire ∷ second_fire ∷ [])).state ≡ timed_out)
unfolding fire_all call_sent update_state
call_sent-check_timeout c t first_fire second_fire after early late soon small =
    let (is_stalled, timer) =
      check_timeout-early (call_sent c t) first_fire refl refl after early (omega arith) in
    let start = check_timeout-sent_time (call_sent c t) first_fire in
    let waits : awaits (check_timeout (call_sent c t) first_fire).state ≡ true =
      rw is_stalled refl in
    (
      is_stalled,
      timer,
      check_timeout-late (check_timeout (call_sent c t) first_fire) second_fire waits
          (rw start late) (rw start soon) small,
    )

-- 1 for a call that waits for its response.
abbrev pub pending : CallState → ℕ
pending state = if awaits state then 1 else 0

check_timeout-idle :
    (c : RpcCall) (now : ℕ)
    → awaits c.state ≡ false
    → check_timeout c now ≡ record c { timer = none }
unfolding check_timeout
check_timeout-idle c now over = rw (over, check_timeout) refl

check_timeout-count :
    (c : RpcCall) (now : ℕ)
    → count_timeouts (check_timeout c now).events + pending (check_timeout c now).state
      ≡ count_timeouts c.events + pending c.state
unfolding check_timeout update_state count_timeouts
check_timeout-count c now = elim (Bool-cases (awaits c.state)) [
  | inr over ↦
      ap (λ (x : RpcCall). count_timeouts x.events + pending x.state)
        (check_timeout-idle c now over)
  | inl waits ↦ elim (Bool-cases (ltb_ℤ (pos 0) (remaining_of c now))) [
    | inl early ↦ rw (waits, early) refl
    | inr late ↦ rw (waits, late) (omega arith)
  ]
]

-- Through any firings of the timer, the number of calls of the timeout handler, plus 1 while the
-- call waits for its response, stays the same: a call that waits gets the timeout handler called
-- once at most.
pub fire_all-count_timeouts :
    (c : RpcCall) (times : List ℕ)
    → count_timeouts (fire_all c times).events + pending (fire_all c times).state
      ≡ count_timeouts c.events + pending c.state
unfolding fire_all
fire_all-count_timeouts c [] = refl
fire_all-count_timeouts c (now ∷ times) =
    fire_all-count_timeouts (check_timeout c now) times ∙ check_timeout-count c now

-- Every time lies from `start` to before `end`.
abbrev pub Between : ℕ → ℕ → List ℕ → Type 0
Between start end = All (λ now. (start ≤ now) × (now < end))

check_timeout-awaits :
    (c : RpcCall) (now : ℕ)
    → awaits c.state ≡ true
    → ltb_ℤ (pos 0) (remaining_of c now) ≡ true
    → awaits (check_timeout c now).state ≡ true
unfolding check_timeout update_state
check_timeout-awaits c now waits early = rw (waits, early) refl

-- A call that waits for its response still waits after any firings of the timer that come from its
-- sending to before 10 seconds have passed, where these end by time 2 ^ 64.
pub fire_all-awaits :
    (c : RpcCall) (times : List ℕ)
    → awaits c.state ≡ true
    → c.sent_time + rpc_call_timeout_max ≤ 2 ^ 64
    → Between c.sent_time (c.sent_time + rpc_call_timeout_max) times
    → awaits (fire_all c times).state ≡ true
unfolding fire_all
fire_all-awaits c [] waits small between = waits
fire_all-awaits c (now ∷ times) waits small between =
    let start = check_timeout-sent_time c now in
    let left = remaining_early c now between.0.0 between.0.1 (omega (arith, between.0.1)) in
    let early : ltb_ℤ (pos 0) (remaining_of c now) ≡ true =
      rw left
        (lt→ltb 0 (rpc_call_timeout_max - (now - c.sent_time)) (omega (arith, between.0.1))) in
    fire_all-awaits (check_timeout c now) times (check_timeout-awaits c now waits early)
      (rw start small) (rw start between.1)
