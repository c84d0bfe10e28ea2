-- ===== src/Proxy/Connection/Faults.antt =====
-- Sequences of calls after which a connection and its proxy do not agree, or a handle stays open.
use elastos_carrier_native.Prelude.{
  ℕ, suc, ◌≡◌, refl, sym, ap, ◌∙◌, Bool, true, false, List, ◌∷◌, anyb, Bool-cases, inl, inr, arith,
}
use elastos_carrier_native.Proxy.Connection.{
  idling, disconnecting, closed, is_state, is_closed, idle, Output, relay_close, upstream_read_stop,
  upstream_shutdown, Env, Connection, new_connection, output,
}
use elastos_carrier_native.Proxy.Connection.Sending.{
  begin_close, release_upstream, close, send_relay_packet, send_connect_response,
  send_disconnect_request,
}
use elastos_carrier_native.Proxy.Connection.Upstream.{
  upstream_is_done, close_upstream2, close_upstream, become_idle,
}
use elastos_carrier_native.Proxy.Connection.Handlers.{on_upstream_connected}
use elastos_carrier_native.Proxy.Connection.Calls.{IsReliable, Run}
use elastos_carrier_native.Proxy.Connection.Lifecycle.Steps.{IsQuiet}
use elastos_carrier_native.Proxy.Connection.Lifecycle.Closing.{
  send_disconnect_request-IsQuiet, release_upstream-IsQuiet, release_relay-IsQuiet, IsQuiet-trans,
}
use elastos_carrier_native.Proxy.Connection.Balance.{idles, busies, Run-busies}

IsQuiet-mark :
    (c d : Connection) → IsQuiet c d → c.upstream_closed ≡ true → d.upstream_closed ≡ true
IsQuiet-mark c d q e = elim (Bool-cases d.upstream_closed) [
  | inl marked ↦ marked
  | inr open_mark ↦ absurd (ground (arith, q.keeps_mark open_mark, e))
]

close_upstream2-done : (c : Connection) → upstream_is_done c ≡ true → close_upstream2 c ≡ c
unfolding close_upstream2
close_upstream2-done c done = rw done refl

close_upstream-done :
    (env : Env) (c : Connection) → upstream_is_done c ≡ true → close_upstream env c ≡ c
unfolding close_upstream
close_upstream-done env c done = rw done refl

close_upstream2-marked : (c : Connection) → c.upstream_closed ≡ true → close_upstream2 c ≡ c
close_upstream2-marked c e = close_upstream2-done c (ground (arith, e))

send_disconnect_request-handle :
    (env : Env) (c : Connection)
    → IsReliable env
    → (send_disconnect_request env c).upstream_closing ≡ c.upstream_closing
unfolding send_disconnect_request send_relay_packet
send_disconnect_request-handle env c sure = rw (sure.writes c.outputs) (ground arith)

-- What `closeUpstream` comes to.
abbrev pub shut_upstream : Env → Connection → Connection
shut_upstream env c = output upstream_shutdown (
    output upstream_read_stop
      (send_disconnect_request env (record c { upstream_closed = true; state = disconnecting })))

close_upstream-shut :
    (env : Env) (c : Connection)
    → IsReliable env
    → upstream_is_done c ≡ false
    → close_upstream env c ≡ shut_upstream env c
unfolding close_upstream
close_upstream-shut env c sure e =
    let marked = record c { upstream_closed = true; state = disconnecting } in
    let mark =
      IsQuiet-mark marked (send_disconnect_request env marked)
        (send_disconnect_request-IsQuiet env sure marked) refl in
    let same = close_upstream2-marked (shut_upstream env c) mark in rw (e, same) (ground arith)

-- When libuv accepts every write to the relay, `closeUpstream` does not close the upstream's
-- handle, and `closeUpstream2` after it, which the shutdown calls, changes nothing.
pub close_upstream-open_handle :
    (env : Env) (c : Connection)
    → IsReliable env
    → ((close_upstream env c).upstream_closing ≡ c.upstream_closing)
      × (close_upstream2 (close_upstream env c) ≡ close_upstream env c)
close_upstream-open_handle env c sure = elim (Bool-cases (upstream_is_done c)) [
  | inl done ↦
      let same = close_upstream-done env c done in rw same (refl, close_upstream2-done c done)
  | inr at_work ↦
      let shut = close_upstream-shut env c sure at_work in
      let marked = record c { upstream_closed = true; state = disconnecting } in
      let mark =
        IsQuiet-mark marked (send_disconnect_request env marked)
          (send_disconnect_request-IsQuiet env sure marked) refl in
      rw shut (
        send_disconnect_request-handle env marked sure,
        close_upstream2-marked (shut_upstream env c) mark,
      )
]

close-idle :
    (c : Connection)
    → c.state ≡ idling
    → ((close c).state ≡ closed) × ((close c).statuses ≡ is_closed ∷ c.statuses)
unfolding close
close-idle c e =
    let d = begin_close c in
    let q =
      IsQuiet-trans d _ _ (release_upstream-IsQuiet d)
        (release_relay-IsQuiet (release_upstream d)) in
    let up : is_state c.state closed ≡ false = rw e refl in
    let same : d.statuses ≡ c.statuses = rw e refl in
    let ended : d.state ≡ closed = rw e refl in
    rw up (q.same_state ∙ ended, ap (λ h. is_closed ∷ h) (q.same_statuses ∙ same))

abbrev is_relay_close : Output → Bool
is_relay_close relay_close = true
is_relay_close o = false

-- The relay's handle was given to `uv_close`.
abbrev pub relay_was_closed : List Output → Bool
relay_was_closed calls = anyb is_relay_close calls

-- A write that libuv refuses in Idling closes the connection.
send_connect_response-refused :
    (env : Env) (success : Bool) (c : Connection)
    → c.state ≡ idling
    → env.relay_write_ok c.outputs ≡ false
    → ((send_connect_response env success c).state ≡ closed)
      × ((send_connect_response env success c).statuses ≡ is_closed ∷ c.statuses)
unfolding send_connect_response send_relay_packet
send_connect_response-refused env success c e refused =
    let up : is_state c.state closed ≡ false = rw e refl in rw (up, refused) (close-idle _ e)

-- When the connect to the upstream fails after the connection and with it the relay's handle was
-- closed, and libuv refuses writes after the relay's handle was closed, the connection is Closed
-- again, after `onIdle` and `onClosed` were called once more each.
pub on_upstream_connected-closed :
    (env : Env) (c : Connection)
    → ((before : List Output) → relay_was_closed before ≡ true → env.relay_write_ok before ≡ false)
    → is_state c.state closed ≡ true
    → relay_was_closed c.outputs ≡ true
    → ((on_upstream_connected env false c).state ≡ closed)
      × ((on_upstream_connected env false c).statuses ≡ is_closed ∷ idle ∷ c.statuses)
unfolding on_upstream_connected
on_upstream_connected-closed env c refuses down shut =
    let same = close_upstream2-done c (ground (arith, down)) in
    rw same (send_connect_response-refused env false (become_idle c) refl (refuses c.outputs shut))

begin_close-counts :
    (c : Connection)
    → is_state c.state disconnecting ≡ true
    → (idles (begin_close c).statuses ≡ idles c.statuses)
      × (busies (begin_close c).statuses ≡ busies c.statuses)
begin_close-counts c e = (ground arith, ground arith)

-- A connection that is closed in Disconnecting has called `onBusy` once more than `onIdle`. Until
-- then the calls returned, libuv accepted every write to the relay and every new handle at once,
-- and a failed connect to the upstream was reported in Relaying or Disconnecting.
pub close-unbalanced :
    (now : ℕ) (c : Connection)
    → Run (new_connection now) c
    → is_state c.state disconnecting ≡ true
    → busies (close c).statuses ≡ suc (idles (close c).statuses)
unfolding close
close-unbalanced now c run e =
    let d = begin_close c in
    let q =
      IsQuiet-trans d _ _ (release_upstream-IsQuiet d)
        (release_relay-IsQuiet (release_upstream d)) in
    let up : is_state c.state closed ≡ false = ground arith in
    let (same_idles, same_busies) = begin_close-counts c e in
    let even : busies c.statuses ≡ suc (idles c.statuses) =
      ground (arith, Run-busies now c run up) in
    rw up (
      ap busies q.same_statuses
      ∙ same_busies
      ∙ even
      ∙ sym (ap (λ h. suc (idles h)) q.same_statuses ∙ ap suc same_idles))
