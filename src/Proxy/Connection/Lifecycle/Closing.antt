-- ===== src/Proxy/Connection/Lifecycle/Closing.antt =====
-- `close` and the packets that are sent are walks, when libuv accepts each write.
use elastos_carrier_native.Prelude.{
  ℕ, ◌*◌, ◌≡◌, refl, sym, ap, subst, ◌∙◌, Bool, false, ◌&&◌, leb, if◌then◌else◌, List, ◌∷◌, arith,
}
use elastos_carrier_native.Entry.{sub64}
use elastos_carrier_native.Proxy.PacketType.{PacketType}
use elastos_carrier_native.Proxy.Connection.{
  ConnectionState, initializing, authenticating, attaching, idling, relaying, disconnecting, closed,
  state_value, is_state, Status, open_failed, is_closed, idle, WriteCallback, Output, Env,
  Connection, output, max_keep_alive_retry, keep_alive_interval,
}
use elastos_carrier_native.Proxy.Connection.Sending.{
  release_upstream, release_relay, begin_close, close, send_relay_packet, send_ping_request,
  send_connect_response, send_disconnect_request, send_disconnect_response, ping_interval,
  periodic_check,
}
use elastos_carrier_native.Proxy.Connection.Calls.{IsReliable}
use elastos_carrier_native.Proxy.Connection.Lifecycle.{
  Moves, fails, leaves_idle, leaves_relaying, leaves_disconnecting,
}
use elastos_carrier_native.Proxy.Connection.Lifecycle.Steps.{
  IsConnection, Follows, IsQuiet, quiet, IsQuiet-Follows, Follows-trans, if-IsQuiet, if-Follows,
}

pub release_upstream-IsQuiet : (c : Connection) → IsQuiet c (release_upstream c)
release_upstream-IsQuiet c = record {
  same_state = ground arith;
  same_statuses = ground arith;
  keeps_mark = λ e. ground arith;
}

pub release_relay-IsQuiet : (c : Connection) → IsQuiet c (release_relay c)
release_relay-IsQuiet c = record {
  same_state = ground arith;
  same_statuses = ground arith;
  keeps_mark = λ e. ground arith;
}

pub IsQuiet-trans : (c d e : Connection) → IsQuiet c d → IsQuiet d e → IsQuiet c e
IsQuiet-trans c d e p q = record {
  same_state = q.same_state ∙ p.same_state;
  same_statuses = q.same_statuses ∙ p.same_statuses;
  keeps_mark = λ e. p.keeps_mark (q.keeps_mark e);
}

pub Follows-IsQuiet : (c d e : Connection) → Follows c d → IsQuiet d e → Follows c e
Follows-IsQuiet c d e f q = Follows-trans c d e f (IsQuiet-Follows d e f.keeps q)

-- The handlers' calls of `close`.
abbrev close_statuses : ConnectionState → List Status → List Status
close_statuses s h =
    let h1 = if leb (state_value s) (state_value attaching) then open_failed ∷ h else h in
    is_closed ∷ (if is_state s relaying then idle ∷ h1 else h1)

Moves-close :
    (s : ConnectionState) (h : List Status)
    → is_state s closed ≡ false
    → Moves s h closed (close_statuses s h)
Moves-close initializing h e = fails refl
Moves-close authenticating h e = fails refl
Moves-close attaching h e = fails refl
Moves-close idling h e = leaves_idle
Moves-close relaying h e = leaves_relaying
Moves-close disconnecting h e = leaves_disconnecting
Moves-close closed h e = absurd (cc e)

pub at_end :
    {s a b : ConnectionState} {h k l : List Status} → Moves s h a k → b ≡ a → l ≡ k → Moves s h b l
at_end {s} {a} {b} {h} {k} {l} m e f =
    subst (λ t. Moves s h t l) (sym e) (subst (λ t. Moves s h a t) (sym f) m)

begin_close-state : (c : Connection) → (begin_close c).state ≡ closed
begin_close-state c = ground arith

begin_close-statuses :
    (c : Connection) → is_closed ∷ (begin_close c).statuses ≡ close_statuses c.state c.statuses
begin_close-statuses c = ground arith

pub close-Follows : (c : Connection) → IsConnection c → Follows c (close c)
unfolding close
close-Follows c ok =
    let d = begin_close c in
    let released =
      IsQuiet-trans d _ _ (release_upstream-IsQuiet d)
        (release_relay-IsQuiet (release_upstream d)) in
    let ended = released.same_state ∙ begin_close-state c in
    if-Follows c (is_state c.state closed) c _ (λ e. IsQuiet-Follows c c ok (quiet c))
      (λ e. record {
        moves =
            at_end (Moves-close c.state c.statuses e) ended
              (ap (λ h. is_closed ∷ h) released.same_statuses ∙ begin_close-statuses c);
        keeps = λ open_mark. ap (λ s. leb 3 (state_value s)) ended;
      })

pub output-IsQuiet : (o : Output) (c : Connection) → IsQuiet c (output o c)
output-IsQuiet o c = record { same_state = refl; same_statuses = refl; keeps_mark = λ e. e }

module _ (env : Env) (sure : IsReliable env) where
  pub send_relay_packet-IsQuiet :
      (type : PacketType) (payload : List ℕ) (handler : WriteCallback) (c : Connection)
      → IsQuiet c (send_relay_packet env type payload handler c)
  unfolding send_relay_packet
  send_relay_packet-IsQuiet type payload handler c = rw (sure.writes c.outputs) (record {
    same_state = ground arith;
    same_statuses = ground arith;
    keeps_mark = λ e. ground arith;
  })

  pub send_connect_response-IsQuiet :
      (success : Bool) (c : Connection) → IsQuiet c (send_connect_response env success c)
  unfolding send_connect_response
  send_connect_response-IsQuiet success c = send_relay_packet-IsQuiet _ _ _ c

  pub send_disconnect_request-IsQuiet : (c : Connection) → IsQuiet c (send_disconnect_request env c)
  unfolding send_disconnect_request
  send_disconnect_request-IsQuiet c =
      if-IsQuiet c _ c _ (quiet c) (send_relay_packet-IsQuiet _ _ _ c)

  pub send_disconnect_response-IsQuiet :
      (c : Connection) → IsQuiet c (send_disconnect_response env c)
  unfolding send_disconnect_response
  send_disconnect_response-IsQuiet c =
      if-IsQuiet c _ c _ (quiet c) (send_relay_packet-IsQuiet _ _ _ c)

  pub send_ping_request-IsQuiet : (c : Connection) → IsQuiet c (send_ping_request env c)
  unfolding send_ping_request
  send_ping_request-IsQuiet c = send_relay_packet-IsQuiet _ _ _ c

  pub periodic_check-Follows : (c : Connection) → IsConnection c → Follows c (periodic_check env c)
  unfolding periodic_check
  periodic_check-Follows c ok =
      let same = IsQuiet-Follows c c ok (quiet c) in
      let age = sub64 env.now c.keep_alive_timestamp in
      if-Follows c (is_state c.state relaying) c _ (λ e. same)
        (λ e.
          if-Follows c (leb (max_keep_alive_retry * keep_alive_interval) age) _ _
            (λ e2. close-Follows c ok)
            (λ e2.
              if-Follows c
                (is_state c.state idling && leb (ping_interval (env.random c.outputs 10000)) age) _
                c (λ e3. IsQuiet-Follows c _ ok (send_ping_request-IsQuiet c)) (λ e3. same)))
