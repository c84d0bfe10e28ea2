-- ===== src/Proxy/Active.antt =====
-- addons/activeproxy/activeproxy.h and activeproxy.cc: the connections that the proxy keeps, the
-- handlers that it installs on them. Iteration has what an iteration of its loop does. A connection
-- is known by its number. Not modelled: the configuration, the thread and its promises, libuv's own handles, the
-- cryptographic keys but the server's, and the signature of the announced peer.
pub mod Iteration
pub mod Handlers
pub mod Keeping
pub mod Bounds
pub mod Health
pub mod Alive
use elastos_carrier_native.Prelude.{
  ℕ, suc, ◌+◌, ◌-◌, ◌*◌, ◌%◌, ◌^◌, Bool, true, false, ◌&&◌, ◌||◌, not, leb, ltb, ◌==◌,
  if◌then◌else◌, Option, none, some, List, [], ◌∷◌, ◌++◌, length, take,
}
use elastos_carrier_native.Entry.{sub64}
use elastos_carrier_native.Proxy.Connection.{
  Status, authorized, opened, open_failed, is_closed, busy, idle, Env, Connection, new_connection,
}
use elastos_carrier_native.Proxy.Connection.Sending.{close, connect_server, periodic_check}

abbrev pub idle_check_interval : ℕ
idle_check_interval = 60000

abbrev pub max_idle_time : ℕ
max_idle_time = 300000

abbrev pub re_announce_interval : ℕ
re_announce_interval = 60 * 60 * 1000

abbrev pub health_check_interval : ℕ
health_check_interval = 10000

abbrev pub uint64_max : ℕ
uint64_max = 18446744073709551615

pub record Member : Type 0 where
  pub number : ℕ
  pub connection : Connection

-- `peer`: the port and the domain of the announced peer. `announced`: the calls of `announcePeer` of
-- the node. `last_connection` is the file's `lastConnectionId`.
pub record ActiveProxy : Type 0 where
  pub server_pk : Option (List ℕ)
  pub relay_port : ℕ
  pub domain_name : List ℕ
  pub has_peer_keypair : Bool
  pub peer : Option (ℕ × List ℕ)
  pub announced : List (ℕ × List ℕ)
  pub last_connect_timestamp : ℕ
  pub server_fails : ℕ
  pub reconnect_delay : ℕ
  pub idle_timestamp : ℕ
  pub last_idle_check_timestamp : ℕ
  pub last_health_check_timestamp : ℕ
  pub last_announce_peer_timestamp : ℕ
  pub max_connections : ℕ
  pub in_flights : ℕ
  pub connections : List Member
  pub last_connection : ℕ
  pub running : Bool

unfoldable pub reset : ActiveProxy → ActiveProxy
reset p = record p {
  server_pk = none;
  last_connect_timestamp = 0;
  server_fails = 0;
  reconnect_delay = 0;
  idle_timestamp = uint64_max;
  last_idle_check_timestamp = 0;
  last_health_check_timestamp = 0;
  last_announce_peer_timestamp = 0;
  in_flights = 0;
}

-- The handlers that `connect` installs.
unfoldable pub on_authorized : List ℕ → ℕ → Bool → ActiveProxy → ActiveProxy
on_authorized pk port domain_enabled p =
    let known = record p { server_pk = some pk; relay_port = port } in
    if p.has_peer_keypair
    then record known { peer = some (port, if domain_enabled then p.domain_name else []) }
    else known

unfoldable pub on_opened : ActiveProxy → ActiveProxy
on_opened p = record p { server_fails = 0; reconnect_delay = 0 }

unfoldable pub on_open_failed : ActiveProxy → ActiveProxy
on_open_failed p =
    let fails = suc p.server_fails % 2 ^ 32 in
    let counted = record p { server_fails = fails } in
    if ltb p.reconnect_delay 64
    then record counted { reconnect_delay = (2 ^ fails * 1000) % 2 ^ 32 }
    else counted

unfoldable pub erase : ℕ → List Member → List Member
erase number [] = []
erase number (m ∷ members) = if m.number == number then members else m ∷ erase number members

unfoldable pub on_closed : ℕ → ActiveProxy → ActiveProxy
on_closed number p = record p { connections = erase number p.connections }

unfoldable pub on_busy : ActiveProxy → ActiveProxy
on_busy p = record p { in_flights = suc p.in_flights % 2 ^ 32; idle_timestamp = uint64_max }

unfoldable pub on_idle : ℕ → ActiveProxy → ActiveProxy
on_idle now p =
    let left = (p.in_flights + (2 ^ 32 - 1)) % 2 ^ 32 in
    record p { in_flights = left; idle_timestamp = if left == 0 then now else p.idle_timestamp }

unfoldable pub on_status : ℕ → ℕ → Status → ActiveProxy → ActiveProxy
unfolding on_authorized on_opened on_open_failed on_closed on_busy on_idle
on_status now number (authorized pk port domain_enabled) p = on_authorized pk port domain_enabled p
on_status now number opened p = on_opened p
on_status now number open_failed p = on_open_failed p
on_status now number is_closed p = on_closed number p
on_status now number busy p = on_busy p
on_status now number idle p = on_idle now p

-- The handlers' calls of a connection, the newest of which comes first in the list.
unfoldable pub deliver : ℕ → ℕ → List Status → ActiveProxy → ActiveProxy
deliver now number [] p = p
deliver now number (status ∷ before) p = on_status now number status (deliver now number before p)

-- The same behind `onClosed(nullptr)`.
abbrev pub detached : List Status → List Status
detached [] = []
detached (is_closed ∷ before) = detached before
detached (authorized pk port domain_enabled ∷ before) =
    authorized pk port domain_enabled ∷ detached before
detached (opened ∷ before) = opened ∷ detached before
detached (open_failed ∷ before) = open_failed ∷ detached before
detached (busy ∷ before) = busy ∷ detached before
detached (idle ∷ before) = idle ∷ detached before

-- The handlers' calls that a call of a connection has made.
unfoldable pub news : Connection → Connection → List Status
news before after = take (length after.statuses - length before.statuses) after.statuses
