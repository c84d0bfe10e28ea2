-- ===== src/Proxy/Connection/Lifecycle/Sessions.antt =====
-- The operations on the upstream are walks, when libuv accepts each write.
use elastos_carrier_native.Prelude.{
  ℕ, ◌/◌, ◌≡◌, refl, ap, ◌∙◌, Bool, true, false, ◌&&◌, ◌||◌, leb, if◌then◌else◌, List, ◌∷◌, arith,
}
use elastos_carrier_native.Proxy.PacketType.{packet_data}
use elastos_carrier_native.Proxy.Connection.{
  ConnectionState, initializing, authenticating, attaching, idling, relaying, disconnecting, closed,
  state_value, is_state, Status, idle, WriteCallback, no_callback, connect_answered, data_sent, Env,
  Connection, output, upstream_init, upstream_connect, upstream_read_start, upstream_read_stop,
  upstream_shutdown, max_relay_write_queue_size,
}
use elastos_carrier_native.Proxy.Connection.Sending.{send_relay_packet, send_disconnect_request}
use elastos_carrier_native.Proxy.Connection.Upstream.{
  upstream_is_done, close_upstream2, close_upstream, start_read_upstream, become_idle,
  open_upstream, send_data_request, run_callback,
}
use elastos_carrier_native.Proxy.Connection.Calls.{is_engaged, IsReliable}
use elastos_carrier_native.Proxy.Connection.Lifecycle.{Moves, stays, disconnects, releases}
use elastos_carrier_native.Proxy.Connection.Lifecycle.Steps.{
  IsConnection, Follows, IsQuiet, quiet, IsQuiet-Follows, Follows-trans, if-IsQuiet, if-Follows,
}
use elastos_carrier_native.Proxy.Connection.Lifecycle.Closing.{
  IsQuiet-trans, Follows-IsQuiet, at_end, output-IsQuiet, send_relay_packet-IsQuiet,
  send_connect_response-IsQuiet, send_disconnect_request-IsQuiet,
}

-- What the guard of `closeUpstream` leaves.
guard_lem :
    (s : ConnectionState) (mark : Bool)
    → (is_state s closed || is_state s idling || mark) ≡ false
    → (mark ≡ false → leb 3 (state_value s) ≡ true)
    → is_engaged s ≡ true
guard_lem initializing mark e h = ground (arith, h (ground arith))
guard_lem authenticating mark e h = ground (arith, h (ground arith))
guard_lem attaching mark e h = ground (arith, h (ground arith))
guard_lem idling mark e h = absurd (cc e)
guard_lem relaying mark e h = refl
guard_lem disconnecting mark e h = refl
guard_lem closed mark e h = absurd (cc e)

Moves-disconnecting :
    (s : ConnectionState) (h : List Status) → is_engaged s ≡ true → Moves s h disconnecting h
Moves-disconnecting initializing h e = absurd (cc e)
Moves-disconnecting authenticating h e = absurd (cc e)
Moves-disconnecting attaching h e = absurd (cc e)
Moves-disconnecting idling h e = absurd (cc e)
Moves-disconnecting relaying h e = disconnects
Moves-disconnecting disconnecting h e = stays
Moves-disconnecting closed h e = absurd (cc e)

pub close_upstream2-IsQuiet : (c : Connection) → IsQuiet c (close_upstream2 c)
unfolding close_upstream2
close_upstream2-IsQuiet c = record {
  same_state = ground arith;
  same_statuses = ground arith;
  keeps_mark = λ e. ground arith;
}

pub become_idle-Follows :
    (c d : Connection) → is_engaged c.state ≡ true → IsQuiet c d → Follows c (become_idle d)
become_idle-Follows c d e q = record {
  moves = at_end (releases e) refl (ap (λ h. idle ∷ h) q.same_statuses);
  keeps = λ open_mark. refl;
}

module _ (env : Env) (sure : IsReliable env) where
  pub close_upstream-Follows : (c : Connection) → IsConnection c → Follows c (close_upstream env c)
  unfolding close_upstream
  close_upstream-Follows c ok =
      let marked = record c { upstream_closed = true; state = disconnecting } in
      let stopped = output upstream_read_stop (send_disconnect_request env marked) in
      let shut = output upstream_shutdown stopped in
      let sent = send_disconnect_request-IsQuiet env sure marked in
      if-Follows c (upstream_is_done c) c _ (λ e. IsQuiet-Follows c c ok (quiet c))
        (λ e.
          let began : Follows c marked = record {
            moves =
                Moves-disconnecting c.state c.statuses (guard_lem c.state c.upstream_closed e ok);
            keeps = λ open_mark. refl;
          } in
          let last : IsQuiet marked shut = record {
            same_state = sent.same_state;
            same_statuses = sent.same_statuses;
            keeps_mark = sent.keeps_mark;
          } in
          if-Follows c (env.shutdown_ok stopped.outputs) shut _
            (λ e2. Follows-IsQuiet c marked shut began last)
            (λ e2.
              Follows-IsQuiet c marked _ began
                (IsQuiet-trans marked shut _ last (close_upstream2-IsQuiet shut))))

  pub start_read_upstream-Follows :
      (c : Connection) → IsConnection c → Follows c (start_read_upstream env c)
  unfolding start_read_upstream
  start_read_upstream-Follows c ok =
      let reading = output upstream_read_start c in
      let begun : Follows c reading =
        IsQuiet-Follows c reading ok (output-IsQuiet upstream_read_start c) in
      if-Follows c (env.read_start_ok c.outputs) reading _ (λ e. begun)
        (λ e. Follows-trans c reading _ begun (close_upstream-Follows reading begun.keeps))

  -- The session of the upstream has begun.
  pub open_upstream-Follows :
      (c : Connection) → c.state ≡ relaying → Follows c (open_upstream env c)
  unfolding open_upstream
  open_upstream-Follows c e =
      let started = output upstream_init c in
      let referred = record started {
        upstream_data = true;
        upstream_closing = false;
        upstream_closed = false;
      } in
      let joined = output upstream_connect referred in
      let past : leb 3 (state_value c.state) ≡ true = ap (λ s. leb 3 (state_value s)) e in
      let begun : Follows c joined = record { moves = stays; keeps = λ open_mark. past } in
      let engaged : is_engaged c.state ≡ true = ap (λ s. is_engaged s) e in
      let lost = Follows-trans c joined _ begun (
        become_idle-Follows joined (close_upstream2 joined) engaged
          (close_upstream2-IsQuiet joined)) in
      rw (sure.inits c.outputs) (
        if-Follows c (env.tcp_connect_ok referred.outputs) joined _ (λ e2. begun)
          (λ e2. Follows-IsQuiet c _ _ lost (send_connect_response-IsQuiet env sure false _)))

  pub send_data_request-IsQuiet :
      (bytes : List ℕ) (c : Connection) → IsQuiet c (send_data_request env bytes c)
  unfolding send_data_request
  send_data_request-IsQuiet bytes c =
      let sent = send_relay_packet env packet_data (env.encrypt bytes c.nonce) data_sent c in
      let q : IsQuiet c sent = send_relay_packet-IsQuiet env sure _ _ _ c in
      if-IsQuiet c (leb max_relay_write_queue_size (env.write_queue_size sent.outputs)) _ sent
        (record {
          same_state = q.same_state;
          same_statuses = q.same_statuses;
          keeps_mark = q.keeps_mark;
        })
        q

  pub run_callback-Follows :
      (handler : WriteCallback) (c : Connection)
      → IsConnection c
      → Follows c (run_callback env handler c)
  unfolding run_callback
  run_callback-Follows no_callback c ok = IsQuiet-Follows c c ok (quiet c)
  run_callback-Follows (connect_answered success) c ok =
      if-Follows c (success && c.upstream_data) _ c (λ e. start_read_upstream-Follows c ok)
        (λ e. IsQuiet-Follows c c ok (quiet c))
  run_callback-Follows data_sent c ok =
      let resumed = record c { upstream_paused = false } in
      if-Follows c
        (c.upstream_paused && leb (env.write_queue_size c.outputs) (max_relay_write_queue_size / 4))
        _ c
        (λ e.
          let f = start_read_upstream-Follows resumed ok in
          record { moves = f.moves; keeps = f.keeps })
        (λ e. IsQuiet-Follows c c ok (quiet c))

-- In a session with the upstream.
abbrev pub IsEngaged : Connection → Type 0
IsEngaged c = is_engaged c.state ≡ true

if-IsEngaged :
    (b : Bool) (x y : Connection) → IsEngaged x → IsEngaged y → IsEngaged (if b then x else y)
if-IsEngaged true x y p q = p
if-IsEngaged false x y p q = q

pub IsQuiet-IsEngaged : (c d : Connection) → IsQuiet c d → IsEngaged c → IsEngaged d
IsQuiet-IsEngaged c d q e = ap (λ s. is_engaged s) q.same_state ∙ e

pub close_upstream-IsEngaged :
    (env : Env) (c : Connection) → IsReliable env → IsEngaged c → IsEngaged (close_upstream env c)
unfolding close_upstream
close_upstream-IsEngaged env c sure e =
    let marked = record c { upstream_closed = true; state = disconnecting } in
    let stopped = output upstream_read_stop (send_disconnect_request env marked) in
    let shut = output upstream_shutdown stopped in
    let last : IsEngaged shut =
      IsQuiet-IsEngaged marked _ (send_disconnect_request-IsQuiet env sure marked) refl in
    if-IsEngaged (upstream_is_done c) c _ e (
      if-IsEngaged (env.shutdown_ok stopped.outputs) shut _ last
        (IsQuiet-IsEngaged shut _ (close_upstream2-IsQuiet shut) last))
