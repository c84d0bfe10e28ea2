-- ===== src/Proxy/Connection/Upstream.antt =====
-- The upstream of a connection (connection.cc): opened at CONNECT, closed in two stages, and its data.
use elastos_carrier_native.Prelude.{
  ℕ, ◌/◌, Bool, true, false, ◌&&◌, ◌||◌, not, leb, if◌then◌else◌, List,
}
use elastos_carrier_native.Proxy.PacketType.{packet_data}
use elastos_carrier_native.Proxy.Connection.{
  idling, disconnecting, closed, is_state, idle, WriteCallback, no_callback, connect_answered,
  data_sent, upstream_init, upstream_connect, upstream_read_start, upstream_read_stop,
  upstream_shutdown, upstream_close, Env, Connection, output, report, set_state,
  max_relay_write_queue_size,
}
use elastos_carrier_native.Proxy.Connection.Sending.{
  send_relay_packet, send_connect_response, send_disconnect_request,
}

-- The guard of `closeUpstream` and `closeUpstream2`.
abbrev pub upstream_is_done : Connection → Bool
upstream_is_done c = is_state c.state closed || is_state c.state idling || c.upstream_closed

unfoldable pub close_upstream2 : Connection → Connection
close_upstream2 c =
    let marked = record c { upstream_closed = true } in
    if upstream_is_done c
    then c
    else if not c.upstream_data || c.upstream_closing
    then marked
    else record (output upstream_close marked) { upstream_closing = true }

unfoldable pub close_upstream : Env → Connection → Connection
close_upstream env c =
    let marked = record c { upstream_closed = true; state = disconnecting } in
    let stopped = output upstream_read_stop (send_disconnect_request env marked) in
    let shut = output upstream_shutdown stopped in
    if upstream_is_done c
    then c
    else if env.shutdown_ok stopped.outputs
    then shut
    else close_upstream2 shut

unfoldable pub start_read_upstream : Env → Connection → Connection
start_read_upstream env c =
    let reading = output upstream_read_start c in
    if env.read_start_ok c.outputs then reading else close_upstream env reading

-- The end of the failed ways to the upstream: `state = Idling; onIdle()`.
abbrev pub become_idle : Connection → Connection
become_idle c = report idle (set_state idling c)

-- `openUpstream`, up to the result of `uv_tcp_connect`; its callback is `Handlers.on_upstream_connected`.
unfoldable pub open_upstream : Env → Connection → Connection
open_upstream env c =
    let started = output upstream_init c in
    let ready =
      if env.tcp_init_ok c.outputs
      then started
      else become_idle (send_connect_response env false started) in
    let referred = record ready {
      upstream_data = true;
      upstream_closing = false;
      upstream_closed = false;
    } in
    let joined = output upstream_connect referred in
    if env.tcp_connect_ok referred.outputs
    then joined
    else send_connect_response env false (become_idle (close_upstream2 joined))

unfoldable pub send_data_request : Env → List ℕ → Connection → Connection
send_data_request env bytes c =
    let sent = send_relay_packet env packet_data (env.encrypt bytes c.nonce) data_sent c in
    if leb max_relay_write_queue_size (env.write_queue_size sent.outputs)
    then output upstream_read_stop (record sent { upstream_paused = true })
    else sent

-- What the handler of a written packet does.
unfoldable pub run_callback : Env → WriteCallback → Connection → Connection
run_callback env no_callback c = c
run_callback env (connect_answered success) c =
    if success && c.upstream_data then start_read_upstream env c else c
run_callback env data_sent c =
    if c.upstream_paused && leb (env.write_queue_size c.outputs) (max_relay_write_queue_size / 4)
    then start_read_upstream env (record c { upstream_paused = false })
    else c
