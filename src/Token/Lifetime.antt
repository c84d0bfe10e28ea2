-- ===== src/Token/Lifetime.antt =====
-- How long a token is accepted.
use elastos_carrier_native.Prelude.{
  ℕ, ◌+◌, ◌-◌, ◌^◌, ◌≤◌, ◌<◌, ◌≡◌, ◌⊎◌, refl, true, false, ltb, ◌==◌, if◌then◌else◌, List, [], ◌∷◌,
  if_split, ltb→lt, inl, inr, arith,
}
use elastos_carrier_native.Id.{NodeId}
use elastos_carrier_native.Entry.{sub64}
use elastos_carrier_native.Token.{
  Endpoint, TokenManager, token_timeout, update_token_timestamps, token_at, generate_token,
  verify_token, Call, generate, verify, call_time, serve, serve_all, Ordered,
}

-- The manager at time `now` still knows timestamp `stamp`, of a token issued at time `issued`.
record Recalls (secret : List ℕ) (stamp issued now : ℕ) (tm : TokenManager) : Type 0 where
  same_secret : tm.session_secret ≡ secret
  past : tm.timestamp ≤ now
  known : (tm.timestamp ≡ stamp) ⊎ ((tm.previous_timestamp ≡ stamp) × (issued ≤ tm.timestamp))

sub64_lem : (a b : ℕ) → b ≤ a → a < 2 ^ 64 → sub64 a b ≡ a - b
sub64_lem a b h small = omega arith

module _ (secret : List ℕ) (stamp issued : ℕ) where
  update-Recalls :
      (tm : TokenManager) (s now : ℕ)
      → Recalls secret stamp issued s tm
      → s ≤ now
      → issued ≤ now
      → now ≤ issued + token_timeout
      → now < 2 ^ 64
      → Recalls secret stamp issued now (update_token_timestamps tm now)
  unfolding update_token_timestamps
  update-Recalls tm s now h later after soon small =
      let age : sub64 now tm.timestamp ≡ now - tm.timestamp =
        sub64_lem now tm.timestamp (omega (arith, h.past)) small in
      if_split (Recalls secret stamp issued now) (ltb token_timeout (sub64 now tm.timestamp))
        (λ old. record {
          same_secret = h.same_secret;
          past = omega arith;
          known = shifted old age h.known;
        })
        (λ _. record { same_secret = h.same_secret; past = omega (arith, h.past); known = h.known })
    where
      shifted :
          ltb token_timeout (sub64 now tm.timestamp) ≡ true
          → sub64 now tm.timestamp ≡ now - tm.timestamp
          → (tm.timestamp ≡ stamp) ⊎ ((tm.previous_timestamp ≡ stamp) × (issued ≤ tm.timestamp))
          → (now ≡ stamp) ⊎ ((tm.timestamp ≡ stamp) × (issued ≤ now))
      shifted old age (inl current) = inr (current, after)
      shifted old age (inr (previous, behind)) = absurd (omega (arith, ltb→lt _ _ old, age, behind))

  serve-Recalls :
      (sha256 : List ℕ → List ℕ) (tm : TokenManager) (c : Call) (s : ℕ)
      → Recalls secret stamp issued s tm
      → s ≤ call_time c
      → issued ≤ call_time c
      → call_time c ≤ issued + token_timeout
      → call_time c < 2 ^ 64
      → Recalls secret stamp issued (call_time c) (serve sha256 tm c)
  unfolding serve call_time
  serve-Recalls sha256 tm (generate node_id addr target_id now) s = update-Recalls tm s now
  serve-Recalls sha256 tm (verify token node_id addr target_id now) s = update-Recalls tm s now

Ordered-le : (s t : ℕ) (cs : List Call) → Ordered s cs t → s ≤ t
unfolding Ordered
Ordered-le s t [] h = h
Ordered-le s t (c ∷ cs) h = omega (arith, h.0, Ordered-le (call_time c) t cs h.1)

serve_all-Recalls :
    (sha256 : List ℕ → List ℕ) (secret : List ℕ) (stamp issued : ℕ) (tm : TokenManager)
    (cs : List Call) (s t : ℕ)
    → Recalls secret stamp issued s tm
    → Ordered s cs t
    → issued ≤ s
    → t ≤ issued + token_timeout
    → t < 2 ^ 64
    → Recalls secret stamp issued t (serve_all sha256 tm cs)
unfolding serve_all Ordered
serve_all-Recalls sha256 secret stamp issued tm [] s t h order after soon small = record {
  same_secret = h.same_secret;
  past = omega (arith, h.past);
  known = h.known;
}
serve_all-Recalls sha256 secret stamp issued tm (c ∷ cs) s t h order after soon small =
    let end = Ordered-le (call_time c) t cs order.1 in
    serve_all-Recalls sha256 secret stamp issued (serve sha256 tm c) cs (call_time c) t
      (serve-Recalls secret stamp issued sha256 tm c s h order.0 (omega (arith, order.0))
        (omega (arith, end)) (omega (arith, end)))
      order.1 (omega (arith, order.0)) soon small

update_now :
    (tm : TokenManager) (now : ℕ)
    → tm.timestamp ≤ now
    → (update_token_timestamps tm now).timestamp ≤ now
unfolding update_token_timestamps
update_now tm now h =
    if_split (λ (x : TokenManager). x.timestamp ≤ now) (ltb token_timeout (sub64 now tm.timestamp))
      (λ _. omega arith) (λ _. h)

-- A token of a known timestamp is accepted.
accepted :
    (f : ℕ → ℕ) (token stamp a b : ℕ)
    → token ≡ f stamp
    → (a ≡ stamp) ⊎ (b ≡ stamp)
    → (if token == f a then true else if token == f b then true else false) ≡ true
accepted f token stamp a b e (inl h) = rw (h, e) (ground arith)
accepted f token stamp a b e (inr h) = rw (h, e) (ground arith)

-- For any hash: a token that a manager issued, whose timestamp was not in the future, is accepted
-- for the same node, address and target until 5 minutes after its issue, whatever tokens were
-- issued and checked in between, at times in order below 2 ^ 64.
pub verify_token-generate_token :
    (sha256 : List ℕ → List ℕ) (tm : TokenManager) (node_id : NodeId) (addr : Endpoint)
    (target_id : NodeId) (issued now : ℕ) (calls : List Call)
    → tm.timestamp ≤ issued
    → Ordered issued calls now
    → now ≤ issued + token_timeout
    → now < 2 ^ 64
    → (verify_token sha256
        (serve_all sha256 (generate_token sha256 tm node_id addr target_id issued).1 calls)
        (generate_token sha256 tm node_id addr target_id issued).0
        node_id
        addr
        target_id
        now).0
      ≡ true
unfolding generate_token verify_token
verify_token-generate_token sha256 tm node_id addr target_id issued now calls past order soon
      small =
    let m0 = update_token_timestamps tm issued in
    let end = Ordered-le issued now calls order in
    let first_known : Recalls m0.session_secret m0.timestamp issued issued m0 = record {
      same_secret = refl;
      past = update_now tm issued past;
      known = inl refl;
    } in
    let last_known =
      update-Recalls m0.session_secret m0.timestamp issued (serve_all sha256 m0 calls) now now
        (serve_all-Recalls sha256 m0.session_secret m0.timestamp issued m0 calls issued now
          first_known order (omega arith) soon small)
        (omega arith) end soon small in
    rw last_known.same_secret (
      accepted (λ t. token_at sha256 node_id addr target_id t m0.session_secret) _ m0.timestamp _ _
        refl (either last_known.known))
  where
    either : {A B C : Type 0} → A ⊎ (B × C) → A ⊎ B
    either (inl a) = inl a
    either (inr b) = inr b.0
