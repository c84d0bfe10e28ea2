-- ===== src/Proxy/Active/Bounds.antt =====
-- The number of the proxy's connections.
use elastos_carrier_native.Prelude.{
  ℕ, ◌≤◌, ◌<◌, ◌≡◌, refl, ap, ◌∙◌, subst, Bool, true, false, ◌&&◌, not, leb, ltb, ◌==◌,
  if◌then◌else◌, Option, none, some, List, length, length-append, arith,
}
use elastos_carrier_native.Entry.{sub64}
use elastos_carrier_native.Proxy.Connection.{Env}
use elastos_carrier_native.Proxy.Active.{Member, ActiveProxy, reset}
use elastos_carrier_native.Proxy.Active.Iteration.{
  needs_new_connection, connect, connect_if_needed, idle_check_if_due, health_check_if_due,
  announce_if_due, on_iteration,
}
use elastos_carrier_native.Proxy.Active.Keeping.{
  Keeps, Keeps-trans, some-inj, health_check_if_due-Keeps, announce_if_due-Keeps,
  idle_check_if_due-Keeps,
}

-- A new connection only below the bound.
pub record Fits (p : ActiveProxy) (r : Bool × ActiveProxy) : Type 0 where
  pub room : r.0 ≡ true → length p.connections < p.max_connections
  pub same_bound : r.1.max_connections ≡ p.max_connections
  pub same_connections : r.1.connections ≡ p.connections

if-Fits :
    (p : ActiveProxy) (b : Bool) (x y : Bool × ActiveProxy)
    → (b ≡ true → Fits p x)
    → (b ≡ false → Fits p y)
    → Fits p (if b then x else y)
if-Fits p true x y f g = f refl
if-Fits p false x y f g = g refl

refused : (p : ActiveProxy) → Fits p (false, p)
refused p = record { room = λ e. absurd (cc e); same_bound = refl; same_connections = refl }

pub needs_new_connection-Fits : (now : ℕ) (p : ActiveProxy) → Fits p (needs_new_connection now p)
unfolding needs_new_connection reset
needs_new_connection-Fits now p =
    if-Fits p (leb p.max_connections (length p.connections)) (false, p) _ (λ e. refused p)
      (λ e.
        let room : length p.connections < p.max_connections = ground (arith, e) in
        if-Fits p
          (not (p.reconnect_delay == 0)
            && ltb (sub64 now p.last_connect_timestamp) p.reconnect_delay)
          (false, p) _ (λ e2. refused p)
          (λ e2.
            if-Fits p (length p.connections == 0) _ _
              (λ e3. record {
                room = λ e4. room;
                same_bound = ground arith;
                same_connections = ground arith;
              })
              (λ e3. record { room = λ e4. room; same_bound = refl; same_connections = refl })))

connect_if_needed-bounded :
    (envs : ℕ → Env) (now : ℕ) (p : ActiveProxy)
    → length p.connections ≤ p.max_connections
    → ((connect_if_needed envs now p).max_connections ≡ p.max_connections)
      × (length (connect_if_needed envs now p).connections ≤ p.max_connections)
unfolding connect_if_needed connect
connect_if_needed-bounded envs now p h =
    let f = needs_new_connection-Fits now p in decide (needs_new_connection now p) f
  where
    decide :
        (r : Bool × ActiveProxy)
        → Fits p r
        → ((if r.0 then connect envs now r.1 else r.1).max_connections ≡ p.max_connections)
          × (length (if r.0 then connect envs now r.1 else r.1).connections ≤ p.max_connections)
    decide (true, left) f = (
      f.same_bound,
      omega (
        arith,
        f.room refl,
        ap (λ (l : List Member). length l) f.same_connections,
        length-append {0},
      ),
    )
    decide (false, left) f =
        (f.same_bound, omega (arith, h, ap (λ (l : List Member). length l) f.same_connections))

-- A proxy with at most `maxConnections` connections has at most as many after `onIteration`, where
-- that returns, and `maxConnections` is the same.
pub on_iteration-bounded :
    (envs : ℕ → Env) (now : ℕ) (p q : ActiveProxy)
    → length p.connections ≤ p.max_connections
    → on_iteration envs now p ≡ some q
    → (q.max_connections ≡ p.max_connections) × (length q.connections ≤ q.max_connections)
unfolding on_iteration
on_iteration-bounded envs now p q h e =
    let joined = connect_if_needed envs now p in
    let (bound, fewer) = connect_if_needed-bounded envs now p h in
    let k = idle_check_if_due-Keeps now joined in
    let all = checked (health_check_if_due envs now (idle_check_if_due now joined)) refl e k in
    (all.bound ∙ bound, omega (arith, all.fewer, all.bound, bound, fewer))
  where
    checked :
        (r : Option ActiveProxy)
        → health_check_if_due envs now (idle_check_if_due now (connect_if_needed envs now p)) ≡ r
        → elim r [ none ↦ none | some s ↦ some (announce_if_due now s) ] ≡ some q
        → Keeps
            (connect_if_needed envs now p)
            (idle_check_if_due now (connect_if_needed envs now p))
        → Keeps (connect_if_needed envs now p) q
    checked none same e k = absurd (cc e)
    checked (some s) same e k =
        let after = Keeps-trans _ _ s k (health_check_if_due-Keeps envs now _ s same) in
        let last = some-inj (announce_if_due now s) q e in
        subst (λ r. Keeps (connect_if_needed envs now p) r) last
          (Keeps-trans _ s _ after (announce_if_due-Keeps now s))
