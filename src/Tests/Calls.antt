-- ===== src/Tests/Calls.antt =====
-- Laws of remote calls and of tokens at concrete inputs, and runs of them.
use elastos_carrier_native.Prelude.{ℕ, ◌+◌, ◌≡◌, refl, true, some, List, [], ◌∷◌, arith}
use elastos_carrier_native.Token.{
  Endpoint, TokenManager, Call, generate, verify, generate_token, verify_token, serve_all, Ordered,
  call_time,
}
use elastos_carrier_native.Token.Lifetime.{verify_token-generate_token}
use elastos_carrier_native.RpcCall.{
  stalled, timed_out, new_call, rpc_call_timeout_max, call_sent, check_timeout, fire_all,
  count_timeouts, awaits, update_state, remaining_of,
}
use elastos_carrier_native.RpcCall.Timeouts.{
  pending, call_sent-check_timeout, fire_all-count_timeouts, fire_all-awaits,
}
use elastos_carrier_native.Tests.Data.{id_of}

-- A hash whose first byte chooses the bytes of the token, and whose others depend on the input.
abbrev rotate : List ℕ → List ℕ
rotate bytes = 3 ∷ bytes

abbrev manager : TokenManager
manager = record { timestamp = 1000; previous_timestamp = 0; session_secret = 7 ∷ 8 ∷ 9 ∷ [] }

abbrev endpoint : Endpoint
endpoint = record { inaddr = 10 ∷ 0 ∷ 0 ∷ 1 ∷ []; port = 39001 }

-- The second call comes more than five minutes after the manager's timestamp.
abbrev between_calls : List Call
between_calls =
    generate (id_of 5) endpoint (id_of 6) 250000
    ∷ verify 77 (id_of 7) endpoint (id_of 6) 350000
    ∷ []

between_calls-Ordered : Ordered 200000 between_calls 450000
unfolding call_time Ordered
between_calls-Ordered = (omega arith, (omega arith, omega arith))

verify_token-generate_token_example :
    (verify_token rotate
      (serve_all rotate
        (generate_token rotate manager (id_of 1) endpoint (id_of 2) 200000).1
        between_calls)
      (generate_token rotate manager (id_of 1) endpoint (id_of 2) 200000).0
      (id_of 1)
      endpoint
      (id_of 2)
      450000).0
    ≡ true
verify_token-generate_token_example =
    verify_token-generate_token rotate manager (id_of 1) endpoint (id_of 2) 200000 450000
      between_calls (omega arith) between_calls-Ordered (omega arith) (omega arith)

call_sent-check_timeout_example :
    ((check_timeout (call_sent new_call 5000) 7001).state ≡ stalled)
    × ((check_timeout (call_sent new_call 5000) 7001).timer ≡ some (5000 + rpc_call_timeout_max))
    × ((fire_all (call_sent new_call 5000) (7001 ∷ 15002 ∷ [])).state ≡ timed_out)
call_sent-check_timeout_example =
    call_sent-check_timeout new_call 5000 7001 15002 (omega arith) (omega arith) (omega arith)
      (omega arith) (omega arith)

fire_all-count_timeouts_example :
    count_timeouts (fire_all (call_sent new_call 5000) (7001 ∷ 15002 ∷ 20000 ∷ [])).events
      + pending (fire_all (call_sent new_call 5000) (7001 ∷ 15002 ∷ 20000 ∷ [])).state
    ≡ count_timeouts (call_sent new_call 5000).events + pending (call_sent new_call 5000).state
fire_all-count_timeouts_example =
    fire_all-count_timeouts (call_sent new_call 5000) (7001 ∷ 15002 ∷ 20000 ∷ [])

one_timeout :
    count_timeouts (fire_all (call_sent new_call 5000) (7001 ∷ 15002 ∷ 20000 ∷ [])).events ≡ 1
unfolding count_timeouts fire_all call_sent check_timeout update_state remaining_of new_call
one_timeout = refl

fire_all-awaits_example :
    awaits (fire_all (call_sent new_call 5000) (7001 ∷ 14999 ∷ [])).state ≡ true
unfolding call_sent update_state
fire_all-awaits_example =
    fire_all-awaits (call_sent new_call 5000) (7001 ∷ 14999 ∷ []) refl (omega arith)
      ((omega arith, omega arith), ((omega arith, omega arith), tt))
