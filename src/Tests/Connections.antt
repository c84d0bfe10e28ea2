-- ===== src/Tests/Connections.antt =====
-- Laws of a connection of the active proxy at a concrete run, from its opening to a session.
use elastos_carrier_native.Prelude.{
  ℕ, suc, ◌+◌, ◌≡◌, refl, ap, not, true, false, leb, if◌then◌else◌, none, some, List, [], ◌∷◌, ◌++◌,
}
use elastos_carrier_native.Id.{zero_id}
use elastos_carrier_native.Proxy.Connection.{
  initializing, closed, is_closed, idle, state_value, Env, Connection, new_connection, accept,
}
use elastos_carrier_native.Proxy.Connection.Sending.{
  connect_server, establish, close, relay_packet, send_relay_packet, send_authenticate_request,
  send_disconnect_request,
}
use elastos_carrier_native.Proxy.Connection.Upstream.{
  close_upstream, close_upstream2, open_upstream,
}
use elastos_carrier_native.Proxy.Connection.Handlers.{
  on_challenge, on_authenticate_response, on_connect_request, dispatch, process_typed,
  process_relay_packet, process_packets, on_relay_read, on_server_connected, on_upstream_connected,
}
use elastos_carrier_native.Proxy.PacketType.{value, value_of}
use elastos_carrier_native.Proxy.Framing.{frame_loop, complete_sticky, frame_read}
use elastos_carrier_native.Proxy.Connection.Calls.{
  IsReliable, Call, connects, server_connected, relay_read, upstream_read, handle, IsTimely, Run,
  start, next,
}
use elastos_carrier_native.Proxy.Connection.Lifecycle.{Moves}
use elastos_carrier_native.Proxy.Connection.Lifecycle.Refinement.{Run-Moves}
use elastos_carrier_native.Proxy.Connection.Balance.{
  busies, idles, closings, openings, engagements, ends, Run-busies, Run-closings,
}
use elastos_carrier_native.Proxy.Connection.Faults.{
  relay_was_closed, close_upstream-open_handle, on_upstream_connected-closed, close-unbalanced,
}

-- Each call of libuv succeeds; a decryption yields an address of four bytes and a port.
abbrev pub env : Env
env = record {
  tcp_init_ok = λ calls. true;
  tcp_connect_ok = λ calls. true;
  read_start_ok = λ calls. true;
  relay_write_ok = λ calls. true;
  upstream_write_ok = λ calls. true;
  shutdown_ok = λ calls. true;
  write_queue_size = λ calls. 0;
  padding = λ calls. [];
  random = λ calls bound. 0;
  fresh_nonce = λ calls. 1 ∷ [];
  now = 1000;
  node_id = zero_id;
  session_key = zero_id;
  domain_name = [];
  authenticated = false;
  sign = λ text. text;
  encrypt_with_node = λ text. text;
  decrypt_with_node = λ text. some zero_id;
  encrypt = λ text nonce. text;
  decrypt = λ text nonce. some (4 ∷ 127 ∷ 0 ∷ 0 ∷ 1 ∷ []);
}

pub env-IsReliable : IsReliable env
env-IsReliable = record { writes = λ before. refl; inits = λ before. refl }

-- What a call leaves, where it returns.
abbrev pub after : Call → Connection → Connection
after call c = elim (handle env call c) [ none ↦ c | some d ↦ d ]

-- A challenge of 34 bytes, AUTH ACK and CONNECT.
abbrev pub challenge : List ℕ
challenge = 0 ∷ 36 ∷ 1 ∷ 2 ∷ zero_id

abbrev pub auth_ack_packet : List ℕ
auth_ack_packet =
    0 ∷ 54 ∷ 0x80 ∷ zero_id
    ++ (1 ∷ 2 ∷ 3 ∷ 4 ∷ 5 ∷ 6 ∷ 7 ∷ 8 ∷ 9 ∷ 10 ∷ 11 ∷ 12 ∷ 13 ∷ 14 ∷ 15 ∷ 16 ∷ 17 ∷ 18 ∷ 19 ∷ [])

abbrev pub connect_packet : List ℕ
connect_packet = 0 ∷ 38 ∷ 0x20 ∷ zero_id ++ (1 ∷ 2 ∷ 3 ∷ [])

abbrev pub c0 : Connection
c0 = new_connection 500

abbrev connecting : Connection
connecting = after connects c0

abbrev joined : Connection
joined = after (server_connected true) connecting

abbrev pub c1 : Connection
c1 = after (relay_read (some challenge)) joined

abbrev pub c2 : Connection
c2 = after (relay_read (some auth_ack_packet)) c1

abbrev pub c3 : Connection
c3 = after (relay_read (some connect_packet)) c2

abbrev c4 : Connection
c4 = after (upstream_read none) c3

reached :
    (call : Call) (c : Connection)
    → handle env call c ≡ some (after call c)
    → Run (new_connection 500) c
    → IsTimely call c
    → Run (new_connection 500) (after call c)
reached call c e run timely = next env call run env-IsReliable timely e

pub c3-Run : Run (new_connection 500) c3
unfolding handle connect_server on_server_connected establish on_relay_read frame_read frame_loop
    complete_sticky process_packets process_relay_packet process_typed value_of accept dispatch
    on_challenge on_authenticate_response on_connect_request send_authenticate_request
    send_relay_packet relay_packet value open_upstream close_upstream send_disconnect_request
    new_connection
c3-Run =
    reached (relay_read (some connect_packet)) c2 refl
      (reached (relay_read (some auth_ack_packet)) c1 refl
        (reached (relay_read (some challenge)) joined refl
          (reached (server_connected true) connecting refl (reached connects c0 refl start tt) tt)
          tt)
        tt)
      tt

c4-Run : Run (new_connection 500) c4
unfolding handle connect_server on_server_connected establish on_relay_read frame_read frame_loop
    complete_sticky process_packets process_relay_packet process_typed value_of accept dispatch
    on_challenge on_authenticate_response on_connect_request send_authenticate_request
    send_relay_packet relay_packet value open_upstream close_upstream send_disconnect_request
    new_connection
c4-Run = reached (upstream_read none) c3 refl c3-Run tt

-- In Idling, a packet of size 1 whose type, a PING, lies behind it closes the connection; the bytes
-- behind the packet wait.
short_packet :
    ((after (relay_read (some (0 ∷ 1 ∷ 0x10 ∷ []))) c2).state ≡ closed)
    × ((after (relay_read (some (0 ∷ 1 ∷ 0x10 ∷ []))) c2).sticky_buffer ≡ 1 ∷ 0x10 ∷ [])
unfolding handle connect_server on_server_connected establish on_relay_read frame_read frame_loop
    complete_sticky process_packets process_relay_packet process_typed value_of accept dispatch
    on_challenge on_authenticate_response send_authenticate_request send_relay_packet relay_packet
    value new_connection close
short_packet = (refl, refl)

Run-Moves_example : Moves initializing [] c4.state c4.statuses
Run-Moves_example = Run-Moves 500 c4 c4-Run

Run-busies_example : busies c3.statuses ≡ idles c3.statuses + engagements c3.state
unfolding handle connect_server on_server_connected establish on_relay_read frame_read frame_loop
    complete_sticky process_packets process_relay_packet process_typed value_of accept dispatch
    on_challenge on_authenticate_response on_connect_request send_authenticate_request
    send_relay_packet relay_packet value open_upstream close_upstream send_disconnect_request
    new_connection
Run-busies_example = Run-busies 500 c3 c3-Run refl

Run-closings_example :
    (closings c4.statuses ≡ ends c4.state)
    × (openings c4.statuses + (if leb (state_value c4.state) 2 then 1 else 0) ≡ 1)
Run-closings_example = Run-closings 500 c4 c4-Run

close-unbalanced_example : busies (close c4).statuses ≡ suc (idles (close c4).statuses)
unfolding handle connect_server on_server_connected establish on_relay_read frame_read frame_loop
    complete_sticky process_packets process_relay_packet process_typed value_of accept dispatch
    on_challenge on_authenticate_response on_connect_request send_authenticate_request
    send_relay_packet relay_packet value open_upstream close_upstream send_disconnect_request
    new_connection
close-unbalanced_example = close-unbalanced 500 c4 c4-Run refl

close_upstream-open_handle_example :
    ((close_upstream env c3).upstream_closing ≡ c3.upstream_closing)
    × (close_upstream2 (close_upstream env c3) ≡ close_upstream env c3)
close_upstream-open_handle_example = close_upstream-open_handle env c3 env-IsReliable

-- The connect to the upstream is still open when the connection is closed; a write to a closed relay
-- is refused.
abbrev refusing : Env
refusing = record env { relay_write_ok = λ before. not (relay_was_closed before) }

on_upstream_connected-closed_example :
    ((on_upstream_connected refusing false (close c3)).state ≡ closed)
    × ((on_upstream_connected refusing false (close c3)).statuses
        ≡ is_closed ∷ idle ∷ (close c3).statuses)
unfolding handle connect_server on_server_connected establish on_relay_read frame_read frame_loop
    complete_sticky process_packets process_relay_packet process_typed value_of accept dispatch
    on_challenge on_authenticate_response on_connect_request send_authenticate_request
    send_relay_packet relay_packet value open_upstream close_upstream send_disconnect_request
    new_connection close
on_upstream_connected-closed_example =
    on_upstream_connected-closed refusing (close c3) (λ before closed_before. ap not closed_before)
      refl refl
