-- ===== src/Proxy/Connection/Lifecycle/Refinement.antt =====
-- Each call of a connection is a walk of its life cycle.
use elastos_carrier_native.Prelude.{
  ℕ, suc, ◌≡◌, refl, subst, Bool, true, false, if◌then◌else◌, Option, none, some, List, [], ◌∷◌,
  length, take, drop, inl, inr, Bool-cases, arith,
}
use elastos_carrier_native.Id.{byte_at}
use elastos_carrier_native.Proxy.PacketType.{PacketType, packet_error, value_of}
use elastos_carrier_native.Proxy.Framing.{packet_size, frame_read}
use elastos_carrier_native.Proxy.Connection.{
  initializing, is_state, is_type, accept, Env, Connection, new_connection, output,
  relay_read_start,
}
use elastos_carrier_native.Proxy.Connection.Sending.{close, connect_server, establish}
use elastos_carrier_native.Proxy.Connection.Upstream.{close_upstream2}
use elastos_carrier_native.Proxy.Connection.Handlers.{
  dispatch, process_typed, process_relay_packet, process_packets, on_relay_read,
  on_server_connected, on_upstream_connected, on_written,
}
use elastos_carrier_native.Proxy.Connection.Calls.{
  IsReliable, Call, connects, checks, closes, server_connected, relay_read, relay_written,
  relay_closed, upstream_connected, upstream_read, upstream_written, upstream_shut, upstream_closed,
  handle, IsTimely, Run, start, next,
}
use elastos_carrier_native.Proxy.Connection.Lifecycle.{Moves}
use elastos_carrier_native.Proxy.Connection.Lifecycle.Handling.{Returns, if-Returns}
use elastos_carrier_native.Proxy.Connection.Lifecycle.Dispatch.{
  on_error_packet-Returns, dispatch-Returns, on_challenge-Follows,
}
use elastos_carrier_native.Proxy.Connection.Lifecycle.Steps.{
  is_state-eq, IsConnection, Follows, IsQuiet, quiet, IsQuiet-Follows, Follows-trans, if-Follows,
}
use elastos_carrier_native.Proxy.Connection.Lifecycle.Closing.{
  Follows-IsQuiet, close-Follows, send_connect_response-IsQuiet, periodic_check-Follows,
  output-IsQuiet,
}
use elastos_carrier_native.Proxy.Connection.Lifecycle.Sessions.{
  close_upstream2-IsQuiet, close_upstream-Follows, become_idle-Follows, send_data_request-IsQuiet,
  run_callback-Follows,
}

process_relay_packet-Returns :
    (env : Env) (view : List ℕ) (c : Connection)
    → IsReliable env
    → IsConnection c
    → Returns c (process_relay_packet env view c)
unfolding Returns process_relay_packet process_typed
process_relay_packet-Returns env view c sure ok =
    elim (Bool-cases (is_state c.state initializing)) [
      | inl early ↦
          rw (early, process_relay_packet)
            (on_challenge-Follows env (drop 2 packet) c sure ok
              (is_state-eq c.state initializing early))
      | inr late ↦ rw (late, process_relay_packet) (typed (value_of (byte_at view 2)))
    ]
  where
    packet : List ℕ
    packet = take (packet_size view) view

    accepted :
        (type : PacketType) (b : Bool)
        → accept c.state type ≡ b
        → Returns c (if b then dispatch env type packet c else some (close c))
    accepted type true e = dispatch-Returns env type packet c sure ok e
    accepted type false e = close-Follows c ok

    typed :
        (type : Option PacketType)
        → Returns c (elim type [ none ↦ none | some t ↦ process_typed env t packet c ])
    typed none = tt
    typed (some type) =
        if-Returns c (is_type type packet_error) _ _ (on_error_packet-Returns env packet c ok)
          (accepted type (accept c.state type) refl)

Returns-trans : (c d : Connection) (r : Option Connection) → Follows c d → Returns d r → Returns c r
unfolding Returns
Returns-trans c d none f g = tt
Returns-trans c d (some e) f g = Follows-trans c d e f g

process_packets-Returns :
    (env : Env) (packets : List (List ℕ)) (c : Connection)
    → IsReliable env
    → IsConnection c
    → Returns c (process_packets env packets c)
unfolding process_packets Returns
process_packets-Returns env [] c sure ok = IsQuiet-Follows c c ok (quiet c)
process_packets-Returns env (packet ∷ packets) c sure ok =
    continue (process_relay_packet env packet c) (process_relay_packet-Returns env packet c sure ok)
      (λ (d : Connection) (ok' : IsConnection d). process_packets-Returns env packets d sure ok')
  where
    continue :
        (r : Option Connection)
        → Returns c r
        → ((d : Connection) → IsConnection d → Returns d (process_packets env packets d))
        → Returns c (elim r [ none ↦ none | some d ↦ process_packets env packets d ])
    continue none f rest = tt
    continue (some d) f rest = Returns-trans c d _ f (rest d f.keeps)

on_relay_read-Returns :
    (env : Env) (bytes : List ℕ) (c : Connection)
    → IsReliable env
    → IsConnection c
    → Returns c (on_relay_read env bytes c)
unfolding on_relay_read Returns
on_relay_read-Returns env bytes c sure ok =
    elim (frame_read (suc (length bytes)) c.sticky_buffer bytes)
      as (λ r. Returns c (elim r [
        | none ↦ none
        | some (packets, sticky) ↦
            process_packets env packets
              (record c { keep_alive_timestamp = env.now; sticky_buffer = sticky })
      ])) [
        | none ↦ tt
        | some (packets, sticky) ↦
            let d = record c { keep_alive_timestamp = env.now; sticky_buffer = sticky } in
            Returns-trans c d _
              (IsQuiet-Follows c d ok
                (record { same_state = refl; same_statuses = refl; keeps_mark = λ o. o }))
              (process_packets-Returns env packets d sure ok)
      ]

on_server_connected-Follows :
    (env : Env) (b : Bool) (c : Connection)
    → IsConnection c
    → Follows c (on_server_connected env b c)
unfolding on_server_connected establish
on_server_connected-Follows env b c ok =
    let reading = output relay_read_start c in
    let f : Follows c reading = IsQuiet-Follows c reading ok (output-IsQuiet relay_read_start c) in
    if-Follows c b _ _
      (λ e.
        if-Follows c (env.read_start_ok c.outputs) reading _ (λ e2. f)
          (λ e2. Follows-trans c reading _ f (close-Follows reading ok)))
      (λ e. close-Follows c ok)

on_upstream_connected-Follows :
    (env : Env) (b : Bool) (c : Connection)
    → IsReliable env
    → IsConnection c
    → IsTimely (upstream_connected b) c
    → Follows c (on_upstream_connected env b c)
unfolding on_upstream_connected
on_upstream_connected-Follows env true c sure ok timely =
    IsQuiet-Follows c _ ok (send_connect_response-IsQuiet env sure true c)
on_upstream_connected-Follows env false c sure ok timely =
    Follows-IsQuiet c _ _
      (become_idle-Follows c (close_upstream2 c) timely (close_upstream2-IsQuiet c))
      (send_connect_response-IsQuiet env sure false _)

connect_server-IsQuiet : (env : Env) (c : Connection) → IsQuiet c (connect_server env c)
unfolding connect_server
connect_server-IsQuiet env c = record {
  same_state = ground arith;
  same_statuses = ground arith;
  keeps_mark = λ e. ground arith;
}

handle-Returns :
    (env : Env) (call : Call) (c : Connection)
    → IsReliable env
    → IsConnection c
    → IsTimely call c
    → Returns c (handle env call c)
unfolding handle Returns on_written
handle-Returns env connects c sure ok t = IsQuiet-Follows c _ ok (connect_server-IsQuiet env c)
handle-Returns env checks c sure ok t = periodic_check-Follows env sure c ok
handle-Returns env closes c sure ok t = close-Follows c ok
handle-Returns env (server_connected b) c sure ok t = on_server_connected-Follows env b c ok
handle-Returns env (relay_read (some bytes)) c sure ok t = on_relay_read-Returns env bytes c sure ok
handle-Returns env (relay_read none) c sure ok t = close-Follows c ok
handle-Returns env (relay_written b handler) c sure ok t =
    if-Follows c b _ _ (λ e. run_callback-Follows env sure handler c ok) (λ e. close-Follows c ok)
handle-Returns env relay_closed c sure ok t =
    IsQuiet-Follows c _ ok (record { same_state = refl; same_statuses = refl; keeps_mark = λ o. o })
handle-Returns env (upstream_connected b) c sure ok t =
    on_upstream_connected-Follows env b c sure ok t
handle-Returns env (upstream_read (some bytes)) c sure ok t =
    IsQuiet-Follows c _ ok (send_data_request-IsQuiet env sure bytes c)
handle-Returns env (upstream_read none) c sure ok t = close_upstream-Follows env sure c ok
handle-Returns env (upstream_written true) c sure ok t = IsQuiet-Follows c c ok (quiet c)
handle-Returns env (upstream_written false) c sure ok t = close_upstream-Follows env sure c ok
handle-Returns env upstream_shut c sure ok t = IsQuiet-Follows c _ ok (close_upstream2-IsQuiet c)
handle-Returns env upstream_closed c sure ok t =
    IsQuiet-Follows c _ ok (record { same_state = refl; same_statuses = refl; keeps_mark = λ o. o })

Run-Follows : (c d : Connection) → IsConnection c → Run c d → Follows c d
unfolding Returns
Run-Follows c d ok start = IsQuiet-Follows c c ok (quiet c)
Run-Follows c e ok (next {d} env call before sure timely step) =
    let f = Run-Follows c d ok before in
    Follows-trans c d e f
      (subst (λ r. Returns d r) step (handle-Returns env call d sure f.keeps timely))

-- Of a new connection, any calls from libuv and the proxy that return make a walk of its life
-- cycle, with the same state and the same calls of the proxy's handlers in the same order. A call
-- does not return when an exception, or a packet that is too short for the length computed of it,
-- ends the process, or when a packet of size 0 keeps the read loop going. libuv accepts every
-- write to the relay and every new handle at once, and a failed connect to the upstream is
-- reported in Relaying or Disconnecting; reads, connects, shutdowns, writes to the upstream and
-- completed writes may fail.
pub Run-Moves :
    (now : ℕ) (c : Connection)
    → Run (new_connection now) c
    → Moves initializing [] c.state c.statuses
unfolding new_connection
Run-Moves now c run = let f = Run-Follows (new_connection now) c (λ o. absurd (cc o)) run in f.moves
