-- ===== src/Proxy/Connection/Lifecycle/Dispatch.antt =====
-- What a connection does with each packet is a walk of its life cycle.
use elastos_carrier_native.Prelude.{
  ℕ, suc, ◌+◌, ◌≡◌, refl, true, ◌||◌, ltb, ◌==◌, if◌then◌else◌, Option, none, some, List, length,
  drop, arith,
}
use elastos_carrier_native.Proxy.PacketType.{
  PacketType, auth, auth_ack, attach, attach_ack, ping, ping_ack, connect, connect_ack, disconnect,
  disconnect_ack, packet_data, packet_error,
}
use elastos_carrier_native.Proxy.Framing.{packet_header_bytes}
use elastos_carrier_native.Proxy.Connection.{
  ConnectionState, initializing, authenticating, attaching, closed, is_state, accept, Env,
  Connection, output, upstream_write, mac_bytes,
}
use elastos_carrier_native.Proxy.Connection.Sending.{
  close, send_authenticate_request, send_attach_request, send_disconnect_response,
}
use elastos_carrier_native.Proxy.Connection.Upstream.{close_upstream, become_idle}
use elastos_carrier_native.Proxy.Connection.Handlers.{
  on_challenge, confirm_disconnect, on_disconnect_request, on_disconnect_response, on_data_request,
  on_error_packet, dispatch,
}
use elastos_carrier_native.Proxy.Connection.Calls.{is_engaged, IsReliable}
use elastos_carrier_native.Proxy.Connection.Lifecycle.{Moves, authenticates, attaches, opens_again}
use elastos_carrier_native.Proxy.Connection.Lifecycle.Accepting.{
  accept-auth_ack, accept-attach_ack, accept-connect, accept-disconnect, accept-disconnect_ack,
}
use elastos_carrier_native.Proxy.Connection.Lifecycle.Steps.{
  IsConnection, Follows, quiet, IsQuiet-Follows, Follows-trans, if-Follows,
}
use elastos_carrier_native.Proxy.Connection.Lifecycle.Closing.{
  Follows-IsQuiet, close-Follows, send_relay_packet-IsQuiet, send_disconnect_response-IsQuiet,
  output-IsQuiet,
}
use elastos_carrier_native.Proxy.Connection.Lifecycle.Sessions.{
  close_upstream-Follows, become_idle-Follows, IsEngaged, IsQuiet-IsEngaged,
  close_upstream-IsEngaged,
}
use elastos_carrier_native.Proxy.Connection.Lifecycle.Handling.{
  Returns, if-Returns, at_start, opened-Follows, on_authenticate_response-Returns,
  on_connect_request-Returns,
}

confirm_disconnect-Follows :
    (c : Connection) → IsConnection c → is_engaged c.state ≡ true → Follows c (confirm_disconnect c)
unfolding confirm_disconnect
confirm_disconnect-Follows c ok e =
    let cleared = record c { disconnect_confirms = 0 } in
    let counted = record c { disconnect_confirms = suc c.disconnect_confirms } in
    if-Follows c (suc c.disconnect_confirms == 2) (become_idle cleared) counted
      (λ e2.
        become_idle-Follows c cleared e
          (record { same_state = refl; same_statuses = refl; keeps_mark = λ o. o }))
      (λ e2.
        IsQuiet-Follows c counted ok
          (record { same_state = refl; same_statuses = refl; keeps_mark = λ o. o }))

on_disconnect_request-Follows :
    (env : Env) (c : Connection)
    → IsReliable env
    → IsConnection c
    → IsEngaged c
    → Follows c (on_disconnect_request env c)
unfolding on_disconnect_request
on_disconnect_request-Follows env c sure ok e =
    let shut = close_upstream env c in
    let answered = send_disconnect_response env shut in
    let q = send_disconnect_response-IsQuiet env sure shut in
    let f = Follows-IsQuiet c shut answered (close_upstream-Follows env sure c ok) q in
    let engaged : IsEngaged answered =
      IsQuiet-IsEngaged shut answered q (close_upstream-IsEngaged env c sure e) in
    Follows-trans c answered _ f (confirm_disconnect-Follows answered f.keeps engaged)

on_data_request-Returns :
    (env : Env) (packet : List ℕ) (c : Connection)
    → IsReliable env
    → IsConnection c
    → Returns c (on_data_request env packet c)
unfolding Returns on_data_request
on_data_request-Returns env packet c sure ok =
    if-Returns c (ltb (length packet) (packet_header_bytes + mac_bytes)) none _ tt
      (answer (env.decrypt (drop packet_header_bytes packet) c.nonce))
  where
    answer :
        (plain : Option (List ℕ))
        → Returns c (elim plain [
          | none ↦ none
          | some text ↦
              let written = output (upstream_write text) c in
              if env.upstream_write_ok c.outputs
              then some written
              else some (close_upstream env written)
        ])
    answer none = tt
    answer (some text) =
        let written = output (upstream_write text) c in
        let f : Follows c written =
          IsQuiet-Follows c written ok (output-IsQuiet (upstream_write text) c) in
        if-Returns c (env.upstream_write_ok c.outputs) (some written) _ f
          (Follows-trans c written _ f (close_upstream-Follows env sure written ok))

pub on_error_packet-Returns :
    (env : Env) (packet : List ℕ) (c : Connection)
    → IsConnection c
    → Returns c (on_error_packet env packet c)
unfolding Returns on_error_packet
on_error_packet-Returns env packet c ok =
    if-Returns c (ltb (length packet) (packet_header_bytes + mac_bytes)) none _ tt
      (answer (env.decrypt (drop packet_header_bytes packet) c.nonce))
  where
    answer :
        (plain : Option (List ℕ))
        → Returns c (elim plain [ none ↦ none | some text ↦ some (close c) ])
    answer none = tt
    answer (some text) = close-Follows c ok

pub dispatch-Returns :
    (env : Env) (type : PacketType) (packet : List ℕ) (c : Connection)
    → IsReliable env
    → IsConnection c
    → accept c.state type ≡ true
    → Returns c (dispatch env type packet c)
unfolding Returns dispatch on_disconnect_response
dispatch-Returns env auth_ack packet c sure ok e =
    on_authenticate_response-Returns env packet c ok (accept-auth_ack c.state e)
dispatch-Returns env attach_ack packet c sure ok e =
    opened-Follows c (at_start (accept-attach_ack c.state e) opens_again)
dispatch-Returns env ping_ack packet c sure ok e = IsQuiet-Follows c c ok (quiet c)
dispatch-Returns env connect packet c sure ok e =
    on_connect_request-Returns env packet c sure ok (accept-connect c.state e)
dispatch-Returns env packet_data packet c sure ok e = on_data_request-Returns env packet c sure ok
dispatch-Returns env disconnect packet c sure ok e =
    on_disconnect_request-Follows env c sure ok (accept-disconnect c.state e)
dispatch-Returns env disconnect_ack packet c sure ok e =
    confirm_disconnect-Follows c ok (accept-disconnect_ack c.state e)
dispatch-Returns env auth packet c sure ok e = IsQuiet-Follows c c ok (quiet c)
dispatch-Returns env attach packet c sure ok e = IsQuiet-Follows c c ok (quiet c)
dispatch-Returns env ping packet c sure ok e = IsQuiet-Follows c c ok (quiet c)
dispatch-Returns env connect_ack packet c sure ok e = IsQuiet-Follows c c ok (quiet c)
dispatch-Returns env packet_error packet c sure ok e = IsQuiet-Follows c c ok (quiet c)

begin_session :
    (c : Connection) (s : ConnectionState) (nonce : List ℕ)
    → Moves initializing c.statuses s c.statuses
    → IsConnection c
    → c.state ≡ initializing
    → Follows c (record c { state = s; nonce = nonce })
begin_session c s nonce m ok e = record {
  moves = at_start e m;
  keeps = λ open_mark. absurd (ground (arith, ok open_mark, e));
}

pub on_challenge-Follows :
    (env : Env) (challenge : List ℕ) (c : Connection)
    → IsReliable env
    → IsConnection c
    → c.state ≡ initializing
    → Follows c (on_challenge env challenge c)
unfolding on_challenge send_attach_request send_authenticate_request
on_challenge-Follows env challenge c sure ok e =
    let nonce = env.fresh_nonce c.outputs in
    let attached = record c { state = attaching; nonce = nonce } in
    let authenticated = record c { state = authenticating; nonce = nonce } in
    let same = IsQuiet-Follows c c ok (quiet c) in
    if-Follows c (ltb (length challenge) 32 || ltb 256 (length challenge)) c _ (λ e2. same)
      (λ e2.
        if-Follows c env.authenticated _ _
          (λ e3.
            if-Follows c (is_state c.state closed) c _ (λ e4. same)
              (λ e4.
                Follows-IsQuiet c attached _ (begin_session c attaching nonce attaches ok e)
                  (send_relay_packet-IsQuiet env sure _ _ _ attached)))
          (λ e3.
            if-Follows c (is_state c.state closed) c _ (λ e4. same)
              (λ e4.
                Follows-IsQuiet c authenticated _
                  (begin_session c authenticating nonce authenticates ok e)
                  (send_relay_packet-IsQuiet env sure _ _ _ authenticated))))
