-- ===== src/Tests/Proxies.antt =====
-- Laws of the active proxy at concrete inputs.
use elastos_carrier_native.Prelude.{
  ◌+◌, ◌%◌, ◌^◌, ◌≤◌, ◌≡◌, refl, inl, inr, true, false, none, some, [], ◌∷◌, length, arith,
}
use elastos_carrier_native.Proxy.Connection.{Env, open_failed, is_closed, new_connection, accept}
use elastos_carrier_native.Proxy.Connection.Sending.{
  connect_server, establish, relay_packet, send_relay_packet, send_authenticate_request,
  send_disconnect_request,
}
use elastos_carrier_native.Proxy.Connection.Upstream.{close_upstream, open_upstream}
use elastos_carrier_native.Proxy.Connection.Handlers.{
  on_challenge, on_authenticate_response, on_connect_request, dispatch, process_typed,
  process_relay_packet, process_packets, on_relay_read, on_server_connected,
}
use elastos_carrier_native.Proxy.Connection.Calls.{IsReliable, handle}
use elastos_carrier_native.Proxy.Connection.Balance.{engagements}
use elastos_carrier_native.Proxy.PacketType.{value, value_of}
use elastos_carrier_native.Proxy.Framing.{frame_loop, complete_sticky, frame_read}
use elastos_carrier_native.Proxy.Active.{Member, ActiveProxy, deliver}
use elastos_carrier_native.Proxy.Active.Iteration.{on_iteration, health_check}
use elastos_carrier_native.Proxy.Active.Handlers.{deliver-reconnect_delay, deliver-Run}
use elastos_carrier_native.Proxy.Active.Alive.{IsAlive, on_iteration-IsAlive}
use elastos_carrier_native.Proxy.Active.Health.{health_check-none}
use elastos_carrier_native.Tests.Connections.{env, c2, c3, c3-Run}

abbrev proxy : ActiveProxy
proxy = record {
  server_pk = none;
  relay_port = 0;
  domain_name = [];
  has_peer_keypair = false;
  peer = none;
  announced = [];
  last_connect_timestamp = 0;
  server_fails = 0;
  reconnect_delay = 0;
  idle_timestamp = 18446744073709551615;
  last_idle_check_timestamp = 900;
  last_health_check_timestamp = 900;
  last_announce_peer_timestamp = 0;
  max_connections = 16;
  in_flights = 2;
  connections = [];
  last_connection = 7;
  running = true;
}

-- Two connections at 150 seconds: one in Relaying, and one in Idling of which nothing was heard for
-- 149 seconds, and which the health check, which is due, sends a PING on.
abbrev at_150_seconds : Env
at_150_seconds = record env { now = 150000 }

at_150_seconds-IsReliable : IsReliable at_150_seconds
at_150_seconds-IsReliable = record { writes = λ before. refl; inits = λ before. refl }

abbrev serving : ActiveProxy
serving = record proxy {
  connections =
      record { number = 5; connection = c3 } ∷ record { number = 6; connection = c2 } ∷ [];
  in_flights = 1;
}

on_iteration-IsAlive_example :
    (q : ActiveProxy) × (on_iteration (λ number. at_150_seconds) 150000 serving ≡ some q)
    × (q.max_connections ≡ serving.max_connections)
    × (length q.connections ≤ q.max_connections)
unfolding handle connect_server on_server_connected establish on_relay_read frame_read frame_loop
    complete_sticky process_packets process_relay_packet process_typed value_of accept dispatch
    on_challenge on_authenticate_response on_connect_request send_authenticate_request
    send_relay_packet relay_packet value open_upstream close_upstream send_disconnect_request
    new_connection IsAlive
on_iteration-IsAlive_example =
    on_iteration-IsAlive (λ number. at_150_seconds) 150000 serving (λ n. at_150_seconds-IsReliable)
      (λ n. refl) (inl refl, (inr (omega arith), tt)) (omega arith)

deliver-reconnect_delay_example :
    (deliver 5 7 (is_closed ∷ open_failed ∷ is_closed ∷ open_failed ∷ []) proxy).reconnect_delay
    ≡ 2000
deliver-reconnect_delay_example =
    deliver-reconnect_delay 5 7 (is_closed ∷ open_failed ∷ is_closed ∷ open_failed ∷ []) proxy refl
      refl

deliver-Run_example :
    (deliver 5 7 c3.statuses proxy).in_flights % 2 ^ 32
    ≡ (proxy.in_flights + engagements c3.state) % 2 ^ 32
unfolding handle connect_server on_server_connected establish on_relay_read frame_read frame_loop
    complete_sticky process_packets process_relay_packet process_typed value_of accept dispatch
    on_challenge on_authenticate_response on_connect_request send_authenticate_request
    send_relay_packet relay_packet value open_upstream close_upstream send_disconnect_request
    new_connection
deliver-Run_example = deliver-Run 5 7 500 c3 proxy c3-Run refl

-- A connection that has heard nothing since the time 0, at three minutes and a second.
abbrev silent : Member
unfolding new_connection
silent = record { number = 6; connection = new_connection 0 }

abbrev late : ActiveProxy
late = record proxy { connections = silent ∷ [] }

health_check-none_example : health_check (λ number. record env { now = 181000 }) 181000 late ≡ none
unfolding new_connection
health_check-none_example =
    health_check-none (λ number. record env { now = 181000 }) 181000 late [] [] silent refl refl
      (record { out = refl; up = refl; silent = omega arith })
