-- ===== src/Proxy/Connection.antt =====
-- addons/activeproxy/connection.h and connection.cc: one connection of the active proxy, to the relay
-- server and, on demand, to the upstream. Here its data; the children hold its operations.
--
-- A connection keeps the calls that it has made of libuv (`outputs`) and of the handlers that the
-- proxy has installed (`statuses`), the newest first. What libuv, the generator and the node's
-- cryptography answer is an `Env`; a synchronous answer may depend on the calls made before.
-- The counts of references, the logging and the memory of the buffers are not modelled.
pub mod Sending
pub mod Upstream
pub mod Handlers
pub mod Lifecycle
pub mod Calls
pub mod Balance
pub mod Faults
use elastos_carrier_native.Prelude.{
  ℕ, zero, suc, ◌≤◌, ◌<◌, Bool, true, false, ◌||◌, ltb, leb, ◌==◌, Option, none, some, List, [],
  ◌∷◌,
}
use elastos_carrier_native.Proxy.PacketType.{
  PacketType, auth, auth_ack, attach, attach_ack, ping, ping_ack, connect, connect_ack, disconnect,
  disconnect_ack, packet_data, packet_error,
}

pub data ConnectionState : Type 0 where
  initializing : ConnectionState
  authenticating : ConnectionState
  attaching : ConnectionState
  idling : ConnectionState
  relaying : ConnectionState
  disconnecting : ConnectionState
  closed : ConnectionState

-- The value of the enumerator.
abbrev pub state_value : ConnectionState → ℕ
state_value initializing = 0
state_value authenticating = 1
state_value attaching = 2
state_value idling = 3
state_value relaying = 4
state_value disconnecting = 5
state_value closed = 6

abbrev pub is_state : ConnectionState → ConnectionState → Bool
is_state a b = state_value a == state_value b

-- The `==` of packet types.
abbrev pub type_value : PacketType → ℕ
type_value auth = 0
type_value auth_ack = 1
type_value attach = 2
type_value attach_ack = 3
type_value ping = 4
type_value ping_ack = 5
type_value connect = 6
type_value connect_ack = 7
type_value disconnect = 8
type_value disconnect_ack = 9
type_value packet_data = 10
type_value packet_error = 11

abbrev pub is_type : PacketType → PacketType → Bool
is_type a b = type_value a == type_value b

unfoldable pub accept : ConnectionState → PacketType → Bool
accept initializing type = false
accept authenticating type = is_type type auth_ack
accept attaching type = is_type type attach_ack
accept idling type = is_type type ping_ack || is_type type connect
accept relaying type = is_type type ping_ack || is_type type packet_data || is_type type disconnect
accept disconnecting type =
    is_type type disconnect || is_type type disconnect_ack || is_type type packet_data
accept closed type = false

-- A call of one of the proxy's handlers.
pub data Status : Type 0 where
  authorized : (server_pk : List ℕ) (port : ℕ) (domain_enabled : Bool) → Status
  opened : Status
  open_failed : Status
  is_closed : Status
  busy : Status
  idle : Status

-- The handler of a `WriteRequest`.
pub data WriteCallback : Type 0 where
  no_callback : WriteCallback
  connect_answered : (success : Bool) → WriteCallback
  data_sent : WriteCallback

-- A call of libuv.
pub data Output : Type 0 where
  relay_init : Output
  relay_connect : Output
  relay_read_start : Output
  relay_read_stop : Output
  relay_close : Output
  relay_write : (type : PacketType) (bytes : List ℕ) (handler : WriteCallback) → Output
  upstream_init : Output
  upstream_connect : Output
  upstream_read_start : Output
  upstream_read_stop : Output
  upstream_shutdown : Output
  upstream_close : Output
  upstream_write : (bytes : List ℕ) → Output

-- The code outside: libuv's results (`true`: not below zero), the generator, and the proxy's node.
-- A decryption that throws is `none`.
pub record Env : Type 0 where
  pub tcp_init_ok : List Output → Bool
  pub tcp_connect_ok : List Output → Bool
  pub read_start_ok : List Output → Bool
  pub relay_write_ok : List Output → Bool
  pub upstream_write_ok : List Output → Bool
  pub shutdown_ok : List Output → Bool
  pub write_queue_size : List Output → ℕ
  pub padding : List Output → List ℕ
  pub random : List Output → ℕ → ℕ
  pub fresh_nonce : List Output → List ℕ
  pub now : ℕ
  pub node_id : List ℕ
  pub session_key : List ℕ
  pub domain_name : List ℕ
  pub authenticated : Bool
  pub sign : List ℕ → List ℕ
  pub encrypt_with_node : List ℕ → List ℕ
  pub decrypt_with_node : List ℕ → Option (List ℕ)
  pub encrypt : List ℕ → List ℕ → List ℕ
  pub decrypt : List ℕ → List ℕ → Option (List ℕ)

-- `relay_data` and `upstream_data`: the handle's `data` is set. `…_closing`: `uv_is_closing`.
pub record Connection : Type 0 where
  pub state : ConnectionState
  pub relay_data : Bool
  pub relay_closing : Bool
  pub upstream_data : Bool
  pub upstream_closing : Bool
  pub upstream_paused : Bool
  pub upstream_closed : Bool
  pub disconnect_confirms : ℕ
  pub sticky_buffer : List ℕ
  pub keep_alive_timestamp : ℕ
  pub nonce : List ℕ
  pub outputs : List Output
  pub statuses : List Status

-- The constructor and the members' initializers.
unfoldable pub new_connection : ℕ → Connection
new_connection now = record {
  state = initializing;
  relay_data = false;
  relay_closing = false;
  upstream_data = false;
  upstream_closing = false;
  upstream_paused = false;
  upstream_closed = true;
  disconnect_confirms = 0;
  sticky_buffer = [];
  keep_alive_timestamp = now;
  nonce = [];
  outputs = [];
  statuses = [];
}

-- One more call of libuv, one more call of a handler.
abbrev pub output : Output → Connection → Connection
output o c = record c { outputs = o ∷ c.outputs }

abbrev pub report : Status → Connection → Connection
report s c = record c { statuses = s ∷ c.statuses }

abbrev pub set_state : ConnectionState → Connection → Connection
set_state s c = record c { state = s }

-- `PACKET_HEADER_BYTES` is `Framing.packet_header_bytes`.
abbrev pub mac_bytes : ℕ
mac_bytes = 16

abbrev pub keep_alive_interval : ℕ
keep_alive_interval = 60000

abbrev pub max_keep_alive_retry : ℕ
max_keep_alive_retry = 3

abbrev pub max_relay_write_queue_size : ℕ
max_relay_write_queue_size = 2097152
