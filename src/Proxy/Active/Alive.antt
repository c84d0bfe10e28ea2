-- ===== src/Proxy/Active/Alive.antt =====
-- An iteration of the proxy when no connection is dead.
use elastos_carrier_native.Prelude.{
  ℕ, ◌-◌, ◌*◌, ◌≤◌, ◌<◌, ◌≡◌, refl, sym, ap, subst, Bool, true, false, ◌&&◌, ◌||◌, not, leb, ltb,
  ◌==◌, if◌then◌else◌, some, List, [], ◌∷◌, ◌⊎◌, inl, inr, length, All, All-append, Bool-cases,
  arith,
}
use elastos_carrier_native.Entry.{sub64}
use elastos_carrier_native.Proxy.Connection.{
  relaying, idling, is_state, Status, Env, Connection, new_connection, keep_alive_interval,
  max_keep_alive_retry,
}
use elastos_carrier_native.Proxy.Connection.Sending.{connect_server, ping_interval, periodic_check}
use elastos_carrier_native.Proxy.Connection.Calls.{IsReliable}
use elastos_carrier_native.Proxy.Connection.Lifecycle.Closing.{send_ping_request-IsQuiet}
use elastos_carrier_native.Proxy.Active.{
  Member, ActiveProxy, deliver, news, uint64_max, max_idle_time, idle_check_interval,
  health_check_interval,
}
use elastos_carrier_native.Proxy.Active.Iteration.{
  needs_new_connection, connect, dismiss_last, idle_check, update_member, is_ended, health_loop,
  health_check, connect_if_needed, idle_check_if_due, health_check_if_due, announce_if_due,
  on_iteration,
}
use elastos_carrier_native.Proxy.Active.Bounds.{
  Fits, needs_new_connection-Fits, on_iteration-bounded,
}

-- In Relaying, or heard of in the last three keep-alive intervals.
unfoldable pub IsAlive : ℕ → Member → Type 0
IsAlive now m =
    (is_state m.connection.state relaying ≡ true)
    ⊎ (sub64 now m.connection.keep_alive_timestamp < max_keep_alive_retry * keep_alive_interval)

if-statuses :
    (b : Bool) (x y : Connection) (h : List Status)
    → x.statuses ≡ h
    → y.statuses ≡ h
    → (if b then x else y).statuses ≡ h
if-statuses true x y h p q = p
if-statuses false x y h p q = q

periodic_check-IsAlive :
    (env : Env) (m : Member)
    → IsReliable env
    → IsAlive env.now m
    → (periodic_check env m.connection).statuses ≡ m.connection.statuses
unfolding periodic_check IsAlive
periodic_check-IsAlive env m sure (inl at_work) = rw at_work refl
periodic_check-IsAlive env m sure (inr heard) =
    let c = m.connection in
    let age = sub64 env.now c.keep_alive_timestamp in
    let young : leb (max_keep_alive_retry * keep_alive_interval) age ≡ false =
      ground (arith, heard) in
    rw young (
      if-statuses (is_state c.state relaying) c _ c.statuses refl (
        if-statuses
          (is_state c.state idling && leb (ping_interval (env.random c.outputs 10000)) age) _ c
          c.statuses (send_ping_request-IsQuiet env sure c).same_statuses refl))

not_ended : (c d : Connection) → d.statuses ≡ c.statuses → is_ended (news c d) ≡ false
unfolding is_ended news
not_ended c d e =
    let none_new : length d.statuses - length c.statuses ≡ 0 =
      omega (arith, ap (λ (h : List Status). length h) e) in
    rw none_new refl

connect_server-clock :
    (env : Env) (now : ℕ) → (connect_server env (new_connection now)).keep_alive_timestamp ≡ now
unfolding connect_server new_connection
connect_server-clock env now = ground arith

if-All :
    (P : Member → Type 0) (b : Bool) (x y : ActiveProxy)
    → All P x.connections
    → All P y.connections
    → All P (if b then x else y).connections
if-All P true x y p q = p
if-All P false x y p q = q

module _ (envs : ℕ → Env) (now : ℕ) (sure : (n : ℕ) → IsReliable (envs n))
    (clock : (n : ℕ) → (envs n).now ≡ now) where
  health_loop-some :
      (members : List Member) (p : ActiveProxy)
      → All (IsAlive now) members
      → (q : ActiveProxy) × (health_loop envs now members p ≡ some q)
  unfolding health_loop
  health_loop-some [] p alive = (p, refl)
  health_loop-some (m ∷ members) p alive =
      let checked = periodic_check (envs m.number) m.connection in
      let moved = record p { connections = update_member m.number checked p.connections } in
      let told = deliver now m.number (news m.connection checked) moved in
      let here : IsAlive (envs m.number).now m =
        subst (λ t. IsAlive t m) (sym (clock m.number)) alive.0 in
      let goes_on =
        not_ended m.connection checked
          (periodic_check-IsAlive (envs m.number) m (sure m.number) here) in
      let (q, e) = health_loop-some members told alive.1 in (q, rw goes_on e)

  health_check_if_due-some :
      (p : ActiveProxy)
      → All (IsAlive now) p.connections
      → (q : ActiveProxy) × (health_check_if_due envs now p ≡ some q)
  unfolding health_check_if_due health_check
  health_check_if_due-some p alive =
      elim (Bool-cases (leb health_check_interval (sub64 now p.last_health_check_timestamp))) [
        | inl due ↦
            let (q, e) =
              health_loop-some p.connections (record p { last_health_check_timestamp = now })
                alive in
            (q, rw due e)
        | inr early ↦ (p, rw early refl)
      ]

  connect_if_needed-IsAlive :
      (p : ActiveProxy)
      → All (IsAlive now) p.connections
      → All (IsAlive now) (connect_if_needed envs now p).connections
  unfolding connect_if_needed connect IsAlive
  connect_if_needed-IsAlive p alive =
      decide (needs_new_connection now p) (needs_new_connection-Fits now p)
    where
      fresh :
          (env : Env)
          → sub64 now (connect_server env (new_connection now)).keep_alive_timestamp
            < max_keep_alive_retry * keep_alive_interval
      fresh env = omega (arith, connect_server-clock env now)

      decide :
          (r : Bool × ActiveProxy)
          → Fits p r
          → All (IsAlive now) (if r.0 then connect envs now r.1 else r.1).connections
      decide (true, left) f =
          All-append (IsAlive now) left.connections _ (rw f.same_connections alive)
            (inr (fresh (envs left.last_connection)), tt)
      decide (false, left) f = rw f.same_connections alive

  idle_check-IsAlive :
      (p : ActiveProxy)
      → All (IsAlive now) p.connections
      → All (IsAlive now) (idle_check now p).connections
  unfolding idle_check
  idle_check-IsAlive p alive =
      if-All (IsAlive now)
        (p.idle_timestamp == uint64_max || ltb (sub64 now p.idle_timestamp) max_idle_time) p _ alive
        (if-All (IsAlive now) (not (p.in_flights == 0)) p _ alive (first p.connections alive))
    where
      first :
          (l : List Member)
          → All (IsAlive now) l
          → All
              (IsAlive now)
              (elim l as (λ x. ActiveProxy) [
                | [] ↦ p
                | m ∷ members ↦ record (dismiss_last now members p) { connections = m ∷ [] }
              ]).connections
      first [] h = alive
      first (m ∷ members) h = (h.0, tt)

  idle_check_if_due-IsAlive :
      (p : ActiveProxy)
      → All (IsAlive now) p.connections
      → All (IsAlive now) (idle_check_if_due now p).connections
  unfolding idle_check_if_due
  idle_check_if_due-IsAlive p alive =
      if-All (IsAlive now) (leb idle_check_interval (sub64 now p.last_idle_check_timestamp)) _ p
        (idle_check-IsAlive (record p { last_idle_check_timestamp = now }) alive) alive

-- `onIteration` of a proxy with at most `maxConnections` connections, each in Relaying or heard of
-- less than three keep-alive intervals ago, returns, and leaves at most `maxConnections`
-- connections and the same `maxConnections`. libuv accepts every write to the relay and every new
-- handle at once.
pub on_iteration-IsAlive :
    (envs : ℕ → Env) (now : ℕ) (p : ActiveProxy)
    → ((n : ℕ) → IsReliable (envs n))
    → ((n : ℕ) → (envs n).now ≡ now)
    → All (IsAlive now) p.connections
    → length p.connections ≤ p.max_connections
    → (q : ActiveProxy) × (on_iteration envs now p ≡ some q)
      × (q.max_connections ≡ p.max_connections)
      × (length q.connections ≤ q.max_connections)
unfolding on_iteration
on_iteration-IsAlive envs now p sure clock alive h =
    let joined = connect_if_needed-IsAlive envs now sure clock p alive in
    let checked =
      idle_check_if_due-IsAlive envs now sure clock (connect_if_needed envs now p) joined in
    let (s, e) =
      health_check_if_due-some envs now sure clock
        (idle_check_if_due now (connect_if_needed envs now p)) checked in
    let found : on_iteration envs now p ≡ some (announce_if_due now s) =
      rw (e, on_iteration) refl in
    let (bound, fewer) = on_iteration-bounded envs now p (announce_if_due now s) h found in
    (announce_if_due now s, found, bound, fewer)
