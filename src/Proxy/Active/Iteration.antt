-- ===== src/Proxy/Active/Iteration.antt =====
-- `onIteration` of activeproxy.cc with its checks, and the closings of `onStop`.
use elastos_carrier_native.Prelude.{
  ℕ, suc, ◌%◌, ◌^◌, Bool, true, false, ◌&&◌, ◌||◌, not, leb, ltb, ◌==◌, if◌then◌else◌, Option, none,
  some, List, [], ◌∷◌, ◌++◌, length,
}
use elastos_carrier_native.Entry.{sub64}
use elastos_carrier_native.Proxy.Connection.{Status, is_closed, Env, Connection, new_connection}
use elastos_carrier_native.Proxy.Connection.Sending.{close, connect_server, periodic_check}
use elastos_carrier_native.Proxy.Active.{
  idle_check_interval, max_idle_time, re_announce_interval, health_check_interval, uint64_max,
  Member, ActiveProxy, reset, deliver, detached, news,
}

-- `needsNewConnection`, with the proxy that it leaves.
unfoldable pub needs_new_connection : ℕ → ActiveProxy → Bool × ActiveProxy
needs_new_connection now p =
    if leb p.max_connections (length p.connections)
    then (false, p)
    else if not (p.reconnect_delay == 0)
        && ltb (sub64 now p.last_connect_timestamp) p.reconnect_delay
    then (false, p)
    else if length p.connections == 0
    then (true, elim p.server_pk [ none ↦ p | some pk ↦ reset p ])
    else (p.in_flights == length p.connections, p)

unfoldable pub connect : (ℕ → Env) → ℕ → ActiveProxy → ActiveProxy
connect envs now p =
    let made = connect_server (envs p.last_connection) (new_connection now) in
    let member : Member = record { number = p.last_connection; connection = made } in
    record p {
      connections = p.connections ++ (member ∷ []);
      last_connection = suc p.last_connection % 2 ^ 32;
      last_connect_timestamp = now;
    }

-- `close` of a member that the proxy has left.
unfoldable pub dismiss : ℕ → Member → ActiveProxy → ActiveProxy
dismiss now m p = deliver now m.number (detached (news m.connection (close m.connection))) p

unfoldable pub dismiss_all : ℕ → List Member → ActiveProxy → ActiveProxy
dismiss_all now [] p = p
dismiss_all now (m ∷ members) p = dismiss_all now members (dismiss now m p)

-- From the end to the second; `dismiss_last` closes the members of a list from its end.
unfoldable pub dismiss_last : ℕ → List Member → ActiveProxy → ActiveProxy
dismiss_last now [] p = p
dismiss_last now (m ∷ members) p = dismiss now m (dismiss_last now members p)

unfoldable pub idle_check : ℕ → ActiveProxy → ActiveProxy
idle_check now p =
    if p.idle_timestamp == uint64_max || ltb (sub64 now p.idle_timestamp) max_idle_time
    then p
    else if not (p.in_flights == 0)
    then p
    else elim p.connections [
      | [] ↦ p
      | m ∷ members ↦ record (dismiss_last now members p) { connections = m ∷ [] }
    ]

-- The list's element with a number gets a new connection.
unfoldable pub update_member : ℕ → Connection → List Member → List Member
update_member number c [] = []
update_member number c (m ∷ members) =
    if m.number == number
    then record m { connection = c } ∷ members
    else m ∷ update_member number c members

unfoldable pub is_ended : List Status → Bool
is_ended [] = false
is_ended (is_closed ∷ before) = true
is_ended (status ∷ before) = is_ended before

-- The loop goes over the list itself. `none`: a check has closed its connection, so that the handler
-- has erased an element of the list, and the loop goes on with an iterator that is not valid.
unfoldable pub health_loop : (ℕ → Env) → ℕ → List Member → ActiveProxy → Option ActiveProxy
health_loop envs now [] p = some p
health_loop envs now (m ∷ members) p =
    let checked = periodic_check (envs m.number) m.connection in
    let told = news m.connection checked in
    let rest = health_loop envs now members (
      deliver now m.number told
        (record p { connections = update_member m.number checked p.connections })) in
    if is_ended told then none else rest

unfoldable pub health_check : (ℕ → Env) → ℕ → ActiveProxy → Option ActiveProxy
health_check envs now p = health_loop envs now p.connections p

unfoldable pub announce_peer : ActiveProxy → ActiveProxy
announce_peer p = elim p.peer [ none ↦ p | some peer ↦ record p { announced = peer ∷ p.announced } ]

-- The parts of `onIteration`.
unfoldable pub connect_if_needed : (ℕ → Env) → ℕ → ActiveProxy → ActiveProxy
connect_if_needed envs now p =
    let (needed, left) = needs_new_connection now p in
    if needed then connect envs now left else left

unfoldable pub idle_check_if_due : ℕ → ActiveProxy → ActiveProxy
idle_check_if_due now p =
    if leb idle_check_interval (sub64 now p.last_idle_check_timestamp)
    then idle_check now (record p { last_idle_check_timestamp = now })
    else p

unfoldable pub health_check_if_due : (ℕ → Env) → ℕ → ActiveProxy → Option ActiveProxy
health_check_if_due envs now p =
    if leb health_check_interval (sub64 now p.last_health_check_timestamp)
    then health_check envs now (record p { last_health_check_timestamp = now })
    else some p

unfoldable pub announce_if_due : ℕ → ActiveProxy → ActiveProxy
announce_if_due now p = elim p.peer [
  | none ↦ p
  | some peer ↦
      if leb re_announce_interval (sub64 now p.last_announce_peer_timestamp)
      then announce_peer (record p { last_announce_peer_timestamp = now })
      else p
]

unfoldable pub on_iteration : (ℕ → Env) → ℕ → ActiveProxy → Option ActiveProxy
on_iteration envs now p =
    elim (health_check_if_due envs now (idle_check_if_due now (connect_if_needed envs now p))) [
      | none ↦ none
      | some q ↦ some (announce_if_due now q)
    ]

-- The closings of `onStop`.
unfoldable pub on_stop : ℕ → ActiveProxy → ActiveProxy
on_stop now p = record (dismiss_all now p.connections (record p { running = false })) {
  connections = [];
}
