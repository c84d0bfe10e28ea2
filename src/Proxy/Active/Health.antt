-- ===== src/Proxy/Active/Health.antt =====
-- The health check of the proxy when a connection is dead.
use elastos_carrier_native.Prelude.{
  ℕ, zero, suc, ◌-◌, ◌*◌, ◌≤◌, ◌≡◌, refl, ap, ◌∙◌, Bool, true, false, leb, if◌then◌else◌, Option,
  none, List, [], ◌∷◌, ◌++◌, length, take, arith,
}
use elastos_carrier_native.Entry.{sub64}
use elastos_carrier_native.Proxy.Connection.{
  relaying, closed, is_state, Status, is_closed, Env, Connection, keep_alive_interval,
  max_keep_alive_retry,
}
use elastos_carrier_native.Proxy.Connection.Sending.{begin_close, close, periodic_check}
use elastos_carrier_native.Proxy.Connection.Sending.{release_relay, release_upstream}
use elastos_carrier_native.Proxy.Connection.Lifecycle.Closing.{
  IsQuiet-trans, release_upstream-IsQuiet, release_relay-IsQuiet,
}
use elastos_carrier_native.Proxy.Active.{Member, ActiveProxy, news}
use elastos_carrier_native.Proxy.Active.Iteration.{is_ended, health_loop, health_check}

-- Not in a session, not closed, and silent for three intervals.
pub record IsDead (now : ℕ) (c : Connection) : Type 0 where
  pub out : is_state c.state relaying ≡ false
  pub up : is_state c.state closed ≡ false
  pub silent : max_keep_alive_retry * keep_alive_interval ≤ sub64 now c.keep_alive_timestamp

is_ended-take : (n : ℕ) (h : List Status) → 1 ≤ n → is_ended (take n (is_closed ∷ h)) ≡ true
unfolding is_ended
is_ended-take zero h e = absurd (omega arith)
is_ended-take (suc n) h e = refl

length-begin_close : (c : Connection) → length c.statuses ≤ length (begin_close c).statuses
length-begin_close c = ground arith

is_ended-close :
    (c : Connection) → is_state c.state closed ≡ false → is_ended (news c (close c)) ≡ true
unfolding close news
is_ended-close c up =
    let d = begin_close c in
    let r = release_relay (release_upstream d) in
    let q =
      IsQuiet-trans d _ r (release_upstream-IsQuiet d)
        (release_relay-IsQuiet (release_upstream d)) in
    let longer : length c.statuses ≤ length r.statuses =
      omega (arith, length-begin_close c, ap (λ (h : List Status). length h) q.same_statuses) in
    rw up (is_ended-take (suc (length r.statuses) - length c.statuses) r.statuses (omega arith))

periodic_check-IsDead :
    (env : Env) (c : Connection) → IsDead env.now c → periodic_check env c ≡ close c
unfolding periodic_check
periodic_check-IsDead env c dead =
    let old : leb (max_keep_alive_retry * keep_alive_interval)
          (sub64 env.now c.keep_alive_timestamp)
        ≡ true =
      ground (arith, dead.silent) in
    rw (dead.out, old) refl

if-none : (b : Bool) (r : Option ActiveProxy) → r ≡ none → (if b then none else r) ≡ none
if-none true r e = refl
if-none false r e = e

health_loop-none :
    (envs : ℕ → Env) (now : ℕ) (front back : List Member) (m : Member) (p : ActiveProxy)
    → (envs m.number).now ≡ now
    → IsDead now m.connection
    → health_loop envs now (front ++ (m ∷ back)) p ≡ none
unfolding health_loop
health_loop-none envs now [] back m p clock dead =
    let same = periodic_check-IsDead (envs m.number) m.connection (rw clock dead) in
    let over =
      ap (λ c. is_ended (news m.connection c)) same ∙ is_ended-close m.connection dead.up in
    rw over refl
health_loop-none envs now (x ∷ front) back m p clock dead =
    if-none _ _ (health_loop-none envs now front back m _ clock dead)

-- If any connection of the proxy is not in Relaying, not closed, and has been silent for three
-- keep-alive intervals, `healthCheck` erases an element of the list that its loop goes over.
pub health_check-none :
    (envs : ℕ → Env) (now : ℕ) (p : ActiveProxy) (front back : List Member) (m : Member)
    → p.connections ≡ front ++ (m ∷ back)
    → (envs m.number).now ≡ now
    → IsDead now m.connection
    → health_check envs now p ≡ none
unfolding health_check
health_check-none envs now p front back m e clock dead =
    ap (λ l. health_loop envs now l p) e ∙ health_loop-none envs now front back m p clock dead
