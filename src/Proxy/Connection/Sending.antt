-- ===== src/Proxy/Connection/Sending.antt =====
-- What a connection sends to the relay server, and how it is closed (connection.cc).
use elastos_carrier_native.Prelude.{
  ℕ, ◌+◌, ◌-◌, ◌*◌, ◌/◌, ◌%◌, ◌^◌, Bool, true, ◌&&◌, ◌||◌, leb, if◌then◌else◌, bit_and, bit_or,
  List, [], ◌∷◌, ◌++◌, length,
}
use elastos_carrier_native.Entry.{sub64}
use elastos_carrier_native.Proxy.PacketType.{
  PacketType, auth, attach, ping, connect_ack, disconnect, disconnect_ack, packet_data,
  packet_error, value,
}
use elastos_carrier_native.Proxy.Framing.{packet_header_bytes}
use elastos_carrier_native.Proxy.Connection.{
  authenticating, attaching, idling, relaying, closed, state_value, is_state, is_type, open_failed,
  is_closed, idle, WriteCallback, no_callback, connect_answered, relay_init, relay_connect,
  relay_read_start, relay_read_stop, relay_close, relay_write, upstream_read_stop, upstream_close,
  Env, Connection, output, report, set_state, keep_alive_interval, max_keep_alive_retry,
}

-- `uv_read_stop`, and `uv_close` when the handle is not closing.
abbrev pub release_upstream : Connection → Connection
release_upstream c =
    let stopped = output upstream_read_stop c in
    let freed =
      if c.upstream_closing
      then stopped
      else record (output upstream_close stopped) { upstream_closing = true } in
    if c.upstream_data then freed else c

abbrev pub release_relay : Connection → Connection
release_relay c =
    let stopped = output relay_read_stop c in
    let freed =
      if c.relay_closing
      then stopped
      else record (output relay_close stopped) { relay_closing = true } in
    if c.relay_data then freed else c

-- The state of a connection that is not closed yet, and what the proxy is told first.
abbrev pub begin_close : Connection → Connection
begin_close c =
    let c1 = set_state closed c in
    let c2 =
      if leb (state_value c.state) (state_value attaching) then report open_failed c1 else c1 in
    if is_state c.state relaying then report idle c2 else c2

unfoldable pub close : Connection → Connection
close c =
    if is_state c.state closed
    then c
    else report is_closed (release_relay (release_upstream (begin_close c)))

-- `*(uint16_t*)ptr = htons(size)`.
abbrev pub size_bytes : ℕ → List ℕ
size_bytes size = (size / 256) % 256 ∷ size % 256 ∷ []

-- The packet that `sendRelayPacket` writes.
unfoldable pub relay_packet : Env → Connection → PacketType → List ℕ → List ℕ
relay_packet env c type payload =
    let pad =
      if is_type type auth || is_type type packet_data || is_type type packet_error
      then []
      else env.padding c.outputs in
    size_bytes (packet_header_bytes + length payload + length pad)
    ++ (value (env.random c.outputs) type ∷ payload ++ pad)

unfoldable pub send_relay_packet :
    Env → PacketType → List ℕ → WriteCallback → Connection → Connection
unfolding relay_packet
send_relay_packet env type payload handler c =
    if is_state c.state closed
    then c
    else let written = output (relay_write type (relay_packet env c type payload) handler) c in
      if env.relay_write_ok c.outputs then written else close written

-- What the AUTH and ATTACH packets have in common.
abbrev pub session_plain : Env → List ℕ → List ℕ → List ℕ
session_plain env nonce sig = env.session_key ++ (nonce ++ sig)

unfoldable pub send_authenticate_request : Env → List ℕ → Connection → Connection
send_authenticate_request env sig c =
    if is_state c.state closed
    then c
    else let nonce = env.fresh_nonce c.outputs in
      let plain =
        session_plain env nonce sig
        ++ (length env.domain_name % 256 ∷ env.domain_name ++ env.padding c.outputs) in
      send_relay_packet env auth (env.node_id ++ env.encrypt_with_node plain) no_callback
        (record c { state = authenticating; nonce = nonce })

unfoldable pub send_attach_request : Env → List ℕ → Connection → Connection
send_attach_request env sig c =
    if is_state c.state closed
    then c
    else let nonce = env.fresh_nonce c.outputs in
      send_relay_packet env attach
        (env.node_id ++ env.encrypt_with_node (session_plain env nonce sig)) no_callback
        (record c { state = attaching; nonce = nonce })

unfoldable pub send_ping_request : Env → Connection → Connection
send_ping_request env c = send_relay_packet env ping [] no_callback c

abbrev pub random_boolean : ℕ → Bool → ℕ
random_boolean random v = if v then bit_or random 0x01 else bit_and random 0xfe

unfoldable pub send_connect_response : Env → Bool → Connection → Connection
send_connect_response env success c =
    send_relay_packet env connect_ack (random_boolean (env.random c.outputs 256) success ∷ [])
      (connect_answered success) c

unfoldable pub send_disconnect_request : Env → Connection → Connection
send_disconnect_request env c =
    if is_state c.state closed then c else send_relay_packet env disconnect [] no_callback c

unfoldable pub send_disconnect_response : Env → Connection → Connection
send_disconnect_response env c =
    if is_state c.state closed then c else send_relay_packet env disconnect_ack [] no_callback c

-- `connectServer`, up to the result of `uv_tcp_connect`; its callback is `Handlers.on_server_connected`.
-- Where the connect fails, `relay.data` stays set and the relay is closing.
unfoldable pub connect_server : Env → Connection → Connection
connect_server env c =
    let started = output relay_init c in
    let joined = output relay_connect (record started { relay_data = true }) in
    if env.tcp_init_ok c.outputs
    then (if env.tcp_connect_ok started.outputs
        then joined
        else record (output relay_close joined) { relay_closing = true })
    else started

unfoldable pub establish : Env → Connection → Connection
establish env c =
    let reading = output relay_read_start c in
    if env.read_start_ok c.outputs then reading else close reading

-- `KEEP_ALIVE_INTERVAL - randomShift`, in `uint32_t`.
abbrev pub ping_interval : ℕ → ℕ
ping_interval random_shift = (keep_alive_interval + 2 ^ 32 - random_shift) % 2 ^ 32

unfoldable pub periodic_check : Env → Connection → Connection
periodic_check env c =
    let silence = sub64 env.now c.keep_alive_timestamp in
    if is_state c.state relaying
    then c
    else if leb (max_keep_alive_retry * keep_alive_interval) silence
    then close c
    else if is_state c.state idling && leb (ping_interval (env.random c.outputs 10000)) silence
    then send_ping_request env c
    else c
