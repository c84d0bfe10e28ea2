-- ===== src/Proxy/Connection/Handlers.antt =====
-- What a connection does with a packet of the relay server, and libuv's callbacks (connection.cc).
-- `none`: the process ends, since an exception meets the `noexcept` of these functions, or the
-- length of a packet without its header and MAC goes below zero, or the read loop does not end.
use elastos_carrier_native.Prelude.{
  ℕ, suc, ◌+◌, ◌-◌, ◌*◌, Bool, true, false, ◌||◌, not, ltb, ◌==◌, if◌then◌else◌, Option, none, some,
  List, [], ◌∷◌, length, take, drop,
}
use elastos_carrier_native.Id.{byte_at}
use elastos_carrier_native.Proxy.PacketType.{
  PacketType, auth, auth_ack, attach, attach_ack, ping, ping_ack, connect, connect_ack, disconnect,
  disconnect_ack, packet_data, packet_error, value_of,
}
use elastos_carrier_native.Proxy.Framing.{packet_header_bytes, packet_size, frame_read}
use elastos_carrier_native.Proxy.Connection.{
  initializing, idling, relaying, is_state, is_type, accept, authorized, opened, busy,
  WriteCallback, upstream_write, Env, Connection, output, report, set_state, mac_bytes,
}
use elastos_carrier_native.Proxy.Connection.Sending.{
  close, send_authenticate_request, send_attach_request, send_connect_response,
  send_disconnect_response, establish,
}
use elastos_carrier_native.Proxy.Connection.Upstream.{
  close_upstream, close_upstream2, open_upstream, become_idle, run_callback,
}

unfoldable pub on_challenge : Env → List ℕ → Connection → Connection
on_challenge env challenge c =
    if ltb (length challenge) 32 || ltb 256 (length challenge)
    then c
    else if env.authenticated
    then send_attach_request env (env.sign challenge) c
    else send_authenticate_request env (env.sign challenge) c

-- `AUTH_ACK_SIZE` and `CONNECT_REQ_SIZE`.
abbrev pub auth_ack_size : ℕ
auth_ack_size = packet_header_bytes + mac_bytes + 32 + 2 + 1

abbrev pub connect_req_size : ℕ
connect_req_size = packet_header_bytes + mac_bytes + 1 + 16 + 2

-- The bytes behind the header, up to the size of the packet's type.
abbrev pub cipher_of : ℕ → List ℕ → List ℕ
cipher_of size packet = take (size - packet_header_bytes) (drop packet_header_bytes packet)

unfoldable pub on_authenticate_response : Env → List ℕ → Connection → Option Connection
on_authenticate_response env packet c =
    if ltb (length packet) auth_ack_size
    then some (close c)
    else elim (env.decrypt_with_node (cipher_of auth_ack_size packet)) [
      | none ↦ none
      | some plain ↦
          let port = byte_at plain 32 * 256 + byte_at plain 33 in
          let domain_enabled = not (byte_at plain 34 == 0) in
          some (
            report opened
              (set_state idling (report (authorized (take 32 plain) port domain_enabled) c)))
    ]

unfoldable pub on_attach_response : Connection → Connection
on_attach_response c = report opened (set_state idling c)

-- `ActiveProxy::allow`.
abbrev pub allow : List ℕ → ℕ → Bool
allow client port = true

-- `SocketAddress{{addr, addrLen}, port}` throws unless the address has 4 or 16 bytes.
unfoldable pub on_connect_request : Env → List ℕ → Connection → Option Connection
on_connect_request env packet c =
    let working = report busy (set_state relaying c) in
    if ltb (length packet) connect_req_size
    then some (close c)
    else elim (env.decrypt (cipher_of connect_req_size packet) c.nonce) [
      | none ↦ none
      | some plain ↦
          let address_length = byte_at plain 0 in
          let port = byte_at plain 17 * 256 + byte_at plain 18 in
          if address_length == 4 || address_length == 16
          then (if allow (take address_length (drop 1 plain)) port
              then some (open_upstream env (set_state relaying working))
              else some (become_idle (send_connect_response env false working)))
          else none
    ]

-- `if (++disconnectConfirms == 2)` and its block.
unfoldable pub confirm_disconnect : Connection → Connection
confirm_disconnect c =
    if suc c.disconnect_confirms == 2
    then become_idle (record c { disconnect_confirms = 0 })
    else record c { disconnect_confirms = suc c.disconnect_confirms }

unfoldable pub on_disconnect_request : Env → Connection → Connection
on_disconnect_request env c =
    confirm_disconnect (send_disconnect_response env (close_upstream env c))

unfoldable pub on_disconnect_response : Connection → Connection
on_disconnect_response c = confirm_disconnect c

-- The length of the plain text is `size - 19` in `size_t`: under 19 it is more than there is memory.
unfoldable pub on_data_request : Env → List ℕ → Connection → Option Connection
on_data_request env packet c =
    if ltb (length packet) (packet_header_bytes + mac_bytes)
    then none
    else elim (env.decrypt (drop packet_header_bytes packet) c.nonce) [
      | none ↦ none
      | some plain ↦
          let written = output (upstream_write plain) c in
          if env.upstream_write_ok c.outputs
          then some written
          else some (close_upstream env written)
    ]

-- The part for `PacketType::ERROR`: what it decrypts is logged.
unfoldable pub on_error_packet : Env → List ℕ → Connection → Option Connection
on_error_packet env packet c =
    if ltb (length packet) (packet_header_bytes + mac_bytes)
    then none
    else elim (env.decrypt (drop packet_header_bytes packet) c.nonce) [
      | none ↦ none
      | some plain ↦ some (close c)
    ]

-- The `switch` of `processRelayPacket`.
unfoldable pub dispatch : Env → PacketType → List ℕ → Connection → Option Connection
dispatch env auth_ack packet c = on_authenticate_response env packet c
dispatch env attach_ack packet c = some (on_attach_response c)
dispatch env ping_ack packet c = some c
dispatch env connect packet c = on_connect_request env packet c
dispatch env packet_data packet c = on_data_request env packet c
dispatch env disconnect packet c = some (on_disconnect_request env c)
dispatch env disconnect_ack packet c = some (on_disconnect_response c)
dispatch env auth packet c = some c
dispatch env attach packet c = some c
dispatch env ping packet c = some c
dispatch env connect_ack packet c = some c
dispatch env packet_error packet c = some c

-- `processRelayPacket` behind the type.
unfoldable pub process_typed : Env → PacketType → List ℕ → Connection → Option Connection
process_typed env type packet c =
    if is_type type packet_error
    then on_error_packet env packet c
    else if accept c.state type
    then dispatch env type packet c
    else some (close c)

-- `view` is what the loop hands on (`Framing.packet_view`): the packet has the size in its first two
-- bytes, and the type may lie behind it. A challenge of a size below 2 is refused like one of no bytes,
-- since `size - 2` is then over 256.
unfoldable pub process_relay_packet : Env → List ℕ → Connection → Option Connection
process_relay_packet env view c =
    let packet = take (packet_size view) view in
    if is_state c.state initializing
    then some (on_challenge env (drop 2 packet) c)
    else elim (value_of (byte_at view 2)) [
      | none ↦ none
      | some type ↦ process_typed env type packet c
    ]

unfoldable pub process_packets : Env → List (List ℕ) → Connection → Option Connection
process_packets env [] c = some c
process_packets env (packet ∷ packets) c = elim (process_relay_packet env packet c) [
  | none ↦ none
  | some c' ↦ process_packets env packets c'
]

-- A round of the loop for each byte and one more.
unfoldable pub on_relay_read : Env → List ℕ → Connection → Option Connection
on_relay_read env bytes c = elim (frame_read (suc (length bytes)) c.sticky_buffer bytes) [
  | none ↦ none
  | some (packets, sticky) ↦
      process_packets env packets
        (record c { keep_alive_timestamp = env.now; sticky_buffer = sticky })
]

-- libuv's callbacks; `ok` says that the status is not below zero.
unfoldable pub on_server_connected : Env → Bool → Connection → Connection
on_server_connected env ok c = if ok then establish env c else close c

unfoldable pub on_upstream_connected : Env → Bool → Connection → Connection
on_upstream_connected env ok c =
    send_connect_response env ok (if ok then c else become_idle (close_upstream2 c))

unfoldable pub on_written : Env → Bool → WriteCallback → Connection → Connection
on_written env ok handler c = if ok then run_callback env handler c else close c
