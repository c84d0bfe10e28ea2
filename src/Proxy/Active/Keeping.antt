-- ===== src/Proxy/Active/Keeping.antt =====
-- The steps of `onIteration` that add no connection.
use elastos_carrier_native.Prelude.{
  ℕ, ◌≤◌, ◌≡◌, refl, ap, ◌∙◌, subst, Bool, true, false, ◌||◌, not, leb, ltb, ◌==◌, if◌then◌else◌,
  Option, none, some, List, [], ◌∷◌, length, Bool-cases, inl, inr, arith,
}
use elastos_carrier_native.Entry.{sub64}
use elastos_carrier_native.Proxy.Connection.{
  Status, authorized, opened, open_failed, is_closed, busy, idle, Env, Connection,
}
use elastos_carrier_native.Proxy.Connection.Sending.{periodic_check}
use elastos_carrier_native.Proxy.Active.{
  Member, ActiveProxy, uint64_max, max_idle_time, idle_check_interval, health_check_interval,
  on_authorized, on_opened, on_open_failed, erase, on_closed, on_busy, on_idle, on_status, deliver,
  news,
}
use elastos_carrier_native.Proxy.Active.Iteration.{
  dismiss, dismiss_last, idle_check, update_member, is_ended, health_loop, health_check,
  announce_peer, idle_check_if_due, health_check_if_due, announce_if_due,
}

-- No more connections than before, and the same bound.
pub record Keeps (p q : ActiveProxy) : Type 0 where
  pub bound : q.max_connections ≡ p.max_connections
  pub fewer : length q.connections ≤ length p.connections

keeps : (p : ActiveProxy) → Keeps p p
keeps p = record { bound = refl; fewer = omega arith }

pub Keeps-trans : (p q r : ActiveProxy) → Keeps p q → Keeps q r → Keeps p r
Keeps-trans p q r k l = record {
  bound = l.bound ∙ k.bound;
  fewer = omega (arith, k.fewer, l.fewer);
}

if-Keeps :
    (p : ActiveProxy) (b : Bool) (x y : ActiveProxy)
    → Keeps p x
    → Keeps p y
    → Keeps p (if b then x else y)
if-Keeps p true x y k l = k
if-Keeps p false x y k l = l

length-erase : (number : ℕ) (members : List Member) → length (erase number members) ≤ length members
unfolding erase
length-erase number [] = omega arith
length-erase number (m ∷ members) = ground (arith, length-erase number members)

length-update_member :
    (number : ℕ) (c : Connection) (members : List Member)
    → length (update_member number c members) ≡ length members
unfolding update_member
length-update_member number c [] = refl
length-update_member number c (m ∷ members) = ground (arith, length-update_member number c members)

on_status-Keeps :
    (now number : ℕ) (status : Status) (p : ActiveProxy) → Keeps p (on_status now number status p)
unfolding on_status on_authorized on_opened on_open_failed on_closed on_busy on_idle
on_status-Keeps now number (authorized pk port domain) p =
    if-Keeps p p.has_peer_keypair _ _ (record { bound = refl; fewer = omega arith })
      (record { bound = refl; fewer = omega arith })
on_status-Keeps now number opened p = record { bound = refl; fewer = omega arith }
on_status-Keeps now number open_failed p =
    if-Keeps p (ltb p.reconnect_delay 64) _ _ (record { bound = refl; fewer = omega arith })
      (record { bound = refl; fewer = omega arith })
on_status-Keeps now number is_closed p = record {
  bound = refl;
  fewer = length-erase number p.connections;
}
on_status-Keeps now number busy p = record { bound = refl; fewer = omega arith }
on_status-Keeps now number idle p = record { bound = refl; fewer = omega arith }

deliver-Keeps :
    (now number : ℕ) (h : List Status) (p : ActiveProxy) → Keeps p (deliver now number h p)
unfolding deliver
deliver-Keeps now number [] p = keeps p
deliver-Keeps now number (status ∷ before) p =
    Keeps-trans p _ _ (deliver-Keeps now number before p)
      (on_status-Keeps now number status (deliver now number before p))

dismiss_last-Keeps :
    (now : ℕ) (members : List Member) (p : ActiveProxy) → Keeps p (dismiss_last now members p)
unfolding dismiss_last dismiss
dismiss_last-Keeps now [] p = keeps p
dismiss_last-Keeps now (m ∷ members) p =
    Keeps-trans p _ _ (dismiss_last-Keeps now members p) (deliver-Keeps now m.number _ _)

idle_check-Keeps : (now : ℕ) (p : ActiveProxy) → Keeps p (idle_check now p)
unfolding idle_check
idle_check-Keeps now p =
    if-Keeps p (p.idle_timestamp == uint64_max || ltb (sub64 now p.idle_timestamp) max_idle_time) p
      _ (keeps p)
      (if-Keeps p (not (p.in_flights == 0)) p _ (keeps p) (shortened p.connections refl))
  where
    shortened :
        (l : List Member)
        → l ≡ p.connections
        → Keeps p (elim l [
          | [] ↦ p
          | m ∷ members ↦ record (dismiss_last now members p) { connections = m ∷ [] }
        ])
    shortened [] e = keeps p
    shortened (m ∷ members) e = record {
      bound = (dismiss_last-Keeps now members p).bound;
      fewer = omega (arith, ap (λ (x : List Member). length x) e);
    }

not_none :
    (b : Bool) (r : Option ActiveProxy) (q : ActiveProxy)
    → (if b then none else r) ≡ some q
    → r ≡ some q
not_none true r q e = absurd (cc e)
not_none false r q e = e

health_loop-Keeps :
    (envs : ℕ → Env) (now : ℕ) (members : List Member) (p q : ActiveProxy)
    → health_loop envs now members p ≡ some q
    → Keeps p q
unfolding health_loop
health_loop-Keeps envs now [] p q e =
    let same : p ≡ q = ground (arith, e) in subst (λ r. Keeps p r) same (keeps p)
health_loop-Keeps envs now (m ∷ members) p q e =
    let checked = periodic_check (envs m.number) m.connection in
    let told = news m.connection checked in
    let moved = record p { connections = update_member m.number checked p.connections } in
    let told_proxy = deliver now m.number told moved in
    let updated : Keeps p moved = record {
      bound = refl;
      fewer = omega (arith, length-update_member m.number checked p.connections);
    } in
    let rest : health_loop envs now members told_proxy ≡ some q = not_none (is_ended told) _ q e in
    Keeps-trans p moved q updated (
      Keeps-trans moved told_proxy q (deliver-Keeps now m.number told moved)
        (health_loop-Keeps envs now members told_proxy q rest))

pub some-inj : (p q : ActiveProxy) → ◌≡◌ {A = Option ActiveProxy} (some p) (some q) → p ≡ q
some-inj p q e = ground (arith, e)

pub health_check_if_due-Keeps :
    (envs : ℕ → Env) (now : ℕ) (p q : ActiveProxy)
    → health_check_if_due envs now p ≡ some q
    → Keeps p q
unfolding health_check_if_due health_check
health_check_if_due-Keeps envs now p q e =
    elim (Bool-cases (leb health_check_interval (sub64 now p.last_health_check_timestamp))) [
      | inl due ↦
          let stamped = record p { last_health_check_timestamp = now } in
          let k = health_loop-Keeps envs now p.connections stamped q (rw due at e) in
          record { bound = k.bound; fewer = k.fewer }
      | inr early ↦ subst (λ r. Keeps p r) (some-inj p q (rw early at e)) (keeps p)
    ]

pub announce_if_due-Keeps : (now : ℕ) (p : ActiveProxy) → Keeps p (announce_if_due now p)
unfolding announce_if_due announce_peer
announce_if_due-Keeps now p = record { bound = ground arith; fewer = ground arith }

pub idle_check_if_due-Keeps : (now : ℕ) (p : ActiveProxy) → Keeps p (idle_check_if_due now p)
unfolding idle_check_if_due
idle_check_if_due-Keeps now p =
    let stamped = record p { last_idle_check_timestamp = now } in
    let k = idle_check-Keeps now stamped in
    if-Keeps p (leb idle_check_interval (sub64 now p.last_idle_check_timestamp)) _ p
      (record { bound = k.bound; fewer = k.fewer }) (keeps p)
