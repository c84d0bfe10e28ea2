-- ===== src/Proxy/Connection/Calls.antt =====
-- The ways into a connection: what libuv's loop and the proxy call, and the runs that they make.
use elastos_carrier_native.Prelude.{ℕ, ◌≡◌, Bool, true, false, ◌||◌, Option, none, some, List}
use elastos_carrier_native.Proxy.Connection.{
  ConnectionState, relaying, disconnecting, is_state, WriteCallback, Output, Env, Connection,
}
use elastos_carrier_native.Proxy.Connection.Sending.{close, connect_server, periodic_check}
use elastos_carrier_native.Proxy.Connection.Upstream.{
  close_upstream, close_upstream2, send_data_request,
}
use elastos_carrier_native.Proxy.Connection.Handlers.{
  on_relay_read, on_server_connected, on_upstream_connected, on_written,
}

-- `ok`, and `some` for the bytes of a read: the status is not below zero. A status below zero of a
-- read, the end of the stream among them, is `none`.
pub data Call : Type 0 where
  connects : Call
  checks : Call
  closes : Call
  server_connected : (ok : Bool) → Call
  relay_read : (bytes : Option (List ℕ)) → Call
  relay_written : (ok : Bool) (handler : WriteCallback) → Call
  relay_closed : Call
  upstream_connected : (ok : Bool) → Call
  upstream_read : (bytes : Option (List ℕ)) → Call
  upstream_written : (ok : Bool) → Call
  upstream_shut : Call
  upstream_closed : Call

unfoldable pub handle : Env → Call → Connection → Option Connection
handle env connects c = some (connect_server env c)
handle env checks c = some (periodic_check env c)
handle env closes c = some (close c)
handle env (server_connected ok) c = some (on_server_connected env ok c)
handle env (relay_read (some bytes)) c = on_relay_read env bytes c
handle env (relay_read none) c = some (close c)
handle env (relay_written ok handler) c = some (on_written env ok handler c)
handle env relay_closed c = some (record c { relay_data = false })
handle env (upstream_connected ok) c = some (on_upstream_connected env ok c)
handle env (upstream_read (some bytes)) c = some (send_data_request env bytes c)
handle env (upstream_read none) c = some (close_upstream env c)
handle env (upstream_written true) c = some c
handle env (upstream_written false) c = some (close_upstream env c)
handle env upstream_shut c = some (close_upstream2 c)
handle env upstream_closed c = some (record c { upstream_data = false })

-- The states between CONNECT and the second DISCONNECT.
abbrev pub is_engaged : ConnectionState → Bool
is_engaged s = is_state s relaying || is_state s disconnecting

-- libuv accepts every write to the relay and every new handle. A connection writes to the relay only
-- while it is not closed, so after `close` has closed the handle nothing is asked, and what the
-- function says there plays no part.
pub record IsReliable (env : Env) : Type 0 where
  pub writes : (before : List Output) → env.relay_write_ok before ≡ true
  pub inits : (before : List Output) → env.tcp_init_ok before ≡ true

-- The connect to the upstream does not fail behind the end of its session.
abbrev pub IsTimely : Call → Connection → Type 0
IsTimely (upstream_connected false) c = is_engaged c.state ≡ true
IsTimely call c = Unit

-- The connections that calls make of one.
pub data Run : Connection → Connection → Type 0 where
  start : {c : Connection} → Run c c
  next :
      {c d e : Connection} (env : Env) (call : Call)
      → Run c d
      → IsReliable env
      → IsTimely call d
      → handle env call d ≡ some e
      → Run c e
