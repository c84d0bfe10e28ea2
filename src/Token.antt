-- ===== src/Token.antt =====
-- core/token_manager.cc and core/token_manager.h: the tokens that a node hands out with its answers
-- and asks back with an announcement. `sha256` is the hash of the crypto library, of all the bytes
-- given to `update` in turn. A token is the bits of a 32-bit `int`. A call has the time at which it
-- reads the clock, and calls do not overlap, so that the exchange of the timestamp succeeds.
pub mod Lifetime
use elastos_carrier_native.Prelude.{
  ℕ, zero, suc, ◌+◌, ◌*◌, ◌/◌, ◌%◌, ◌^◌, ◌≤◌, ◌<◌, ◌≡◌, bit_and, bit_or, Bool, true, false, ltb,
  ◌==◌, if◌then◌else◌, List, [], ◌∷◌, ◌++◌,
}
use elastos_carrier_native.Id.{NodeId, byte_at}
use elastos_carrier_native.Entry.{sub64}

abbrev pub token_timeout : ℕ
token_timeout = 5 * 60 * 1000

-- `addr.inaddr()` and `addr.port()` of the `SocketAddress`.
pub record Endpoint : Type 0 where
  pub inaddr : List ℕ
  pub port : ℕ

pub record TokenManager : Type 0 where
  pub timestamp : ℕ
  pub previous_timestamp : ℕ
  pub session_secret : List ℕ

unfoldable pub update_token_timestamps : TokenManager → ℕ → TokenManager
update_token_timestamps tm now =
    if ltb token_timeout (sub64 now tm.timestamp)
    then record tm { timestamp = now; previous_timestamp = tm.timestamp }
    else tm

-- The `n` low bytes of a number, the most significant first.
unfoldable pub big_endian : ℕ → ℕ → List ℕ
big_endian zero x = []
big_endian (suc n) x = x / 2 ^ (8 * n) % 256 ∷ big_endian n x

-- The four bytes of the digest from `pos`, which wrap at its end.
abbrev pub token_of : List ℕ → ℕ
token_of digest =
    let pos = bit_and (byte_at digest 0) 0x1f in
    let b0 = byte_at digest pos in
    let b1 = byte_at digest (bit_and (pos + 1) 0x1f) in
    let b2 = byte_at digest (bit_and (pos + 2) 0x1f) in
    let b3 = byte_at digest (bit_and (pos + 3) 0x1f) in
    bit_or (bit_or (bit_or (b0 * 2 ^ 24) (b1 * 2 ^ 16)) (b2 * 2 ^ 8)) b3

-- The static `generateToken`.
unfoldable pub token_at : (List ℕ → List ℕ) → NodeId → Endpoint → NodeId → ℕ → List ℕ → ℕ
unfolding big_endian
token_at sha256 node_id addr target_id timestamp session_secret = token_of (
    sha256 (
      node_id
      ++ addr.inaddr
      ++ big_endian 2 addr.port
      ++ target_id
      ++ big_endian 8 timestamp
      ++ session_secret))

-- The token, and the manager after the call.
unfoldable pub generate_token :
    (List ℕ → List ℕ) → TokenManager → NodeId → Endpoint → NodeId → ℕ → ℕ × TokenManager
unfolding update_token_timestamps
generate_token sha256 tm node_id addr target_id now =
    let tm' = update_token_timestamps tm now in
    (token_at sha256 node_id addr target_id tm'.timestamp tm'.session_secret, tm')

unfoldable pub verify_token :
    (List ℕ → List ℕ) → TokenManager → ℕ → NodeId → Endpoint → NodeId → ℕ → Bool × TokenManager
unfolding update_token_timestamps
verify_token sha256 tm token node_id addr target_id now =
    let tm' = update_token_timestamps tm now in
    let current_token = token_at sha256 node_id addr target_id tm'.timestamp tm'.session_secret in
    let previous_token =
      token_at sha256 node_id addr target_id tm'.previous_timestamp tm'.session_secret in
    (if token == current_token then true else if token == previous_token then true else false, tm')

-- A call of the manager, with its time last.
pub data Call : Type 0 where
  generate : NodeId → Endpoint → NodeId → ℕ → Call
  verify : ℕ → NodeId → Endpoint → NodeId → ℕ → Call

unfoldable pub call_time : Call → ℕ
call_time (generate node_id addr target_id now) = now
call_time (verify token node_id addr target_id now) = now

unfoldable pub serve : (List ℕ → List ℕ) → TokenManager → Call → TokenManager
unfolding generate_token verify_token
serve sha256 tm (generate node_id addr target_id now) =
    (generate_token sha256 tm node_id addr target_id now).1
serve sha256 tm (verify token node_id addr target_id now) =
    (verify_token sha256 tm token node_id addr target_id now).1

unfoldable pub serve_all : (List ℕ → List ℕ) → TokenManager → List Call → TokenManager
unfolding serve
serve_all sha256 tm [] = tm
serve_all sha256 tm (c ∷ cs) = serve_all sha256 (serve sha256 tm c) cs

-- The calls come in order, from time `start` to time `end`.
unfoldable pub Ordered : ℕ → List Call → ℕ → Type 0
Ordered start [] end = start ≤ end
Ordered start (c ∷ cs) end = (start ≤ call_time c) × Ordered (call_time c) cs end
