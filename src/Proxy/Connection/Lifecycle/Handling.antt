-- ===== src/Proxy/Connection/Lifecycle/Handling.antt =====
-- What a connection does with the packets that open it and begin a session is a walk.
use elastos_carrier_native.Prelude.{
  ℕ, ◌+◌, ◌*◌, ◌≡◌, refl, sym, subst, Bool, true, false, ◌||◌, not, ltb, ◌==◌, if◌then◌else◌,
  Option, none, some, List, ◌∷◌, length, take, drop, inl, inr, Bool-cases,
}
use elastos_carrier_native.Id.{byte_at}
use elastos_carrier_native.Proxy.Connection.{
  ConnectionState, authenticating, idling, relaying, Status, authorized, opened, busy, Env,
  Connection, report, set_state,
}
use elastos_carrier_native.Proxy.Connection.Sending.{send_connect_response}
use elastos_carrier_native.Proxy.Connection.Upstream.{open_upstream, become_idle}
use elastos_carrier_native.Proxy.Connection.Handlers.{
  auth_ack_size, connect_req_size, cipher_of, on_authenticate_response, on_attach_response, allow,
  on_connect_request,
}
use elastos_carrier_native.Proxy.Connection.Calls.{IsReliable}
use elastos_carrier_native.Proxy.Connection.Lifecycle.{Moves, opens_first, engages}
use elastos_carrier_native.Proxy.Connection.Lifecycle.Steps.{IsConnection, Follows, Follows-trans}
use elastos_carrier_native.Proxy.Connection.Lifecycle.Closing.{close-Follows}
use elastos_carrier_native.Proxy.Connection.Lifecycle.Sessions.{open_upstream-Follows}

-- A walk, where the function returns.
unfoldable pub Returns : Connection → Option Connection → Type 0
Returns c none = Unit
Returns c (some d) = Follows c d

pub if-Returns :
    (c : Connection) (b : Bool) (x y : Option Connection)
    → Returns c x
    → Returns c y
    → Returns c (if b then x else y)
if-Returns c true x y p q = p
if-Returns c false x y p q = q

pub at_start : {s a b : ConnectionState} {h k : List Status} → a ≡ s → Moves s h b k → Moves a h b k
at_start {s} {a} {b} {h} {k} e m = subst (λ t. Moves t h b k) (sym e) m

pub opened-Follows :
    (c : Connection)
    → Moves c.state c.statuses idling (opened ∷ c.statuses)
    → Follows c (on_attach_response c)
unfolding on_attach_response
opened-Follows c m = record { moves = m; keeps = λ open_mark. refl }

pub on_authenticate_response-Returns :
    (env : Env) (packet : List ℕ) (c : Connection)
    → IsConnection c
    → c.state ≡ authenticating
    → Returns c (on_authenticate_response env packet c)
unfolding Returns on_authenticate_response
on_authenticate_response-Returns env packet c ok e =
    elim (Bool-cases (ltb (length packet) auth_ack_size)) [
      | inl short ↦ rw (short, on_authenticate_response) (close-Follows c ok)
      | inr long ↦
          rw (long, on_authenticate_response)
            (answer (env.decrypt_with_node (cipher_of auth_ack_size packet)))
    ]
  where
    answer :
        (plain : Option (List ℕ))
        → Returns c (elim plain [
          | none ↦ none
          | some text ↦
              let port = byte_at text 32 * 256 + byte_at text 33 in
              let domain_enabled = not (byte_at text 34 == 0) in
              some (
                report opened
                  (set_state idling (report (authorized (take 32 text) port domain_enabled) c)))
        ])
    answer none = tt
    answer (some text) = record {
      moves = at_start e (opens_first _ _ _);
      keeps = λ open_mark. refl;
    }

pub on_connect_request-Returns :
    (env : Env) (packet : List ℕ) (c : Connection)
    → IsReliable env
    → IsConnection c
    → c.state ≡ idling
    → Returns c (on_connect_request env packet c)
unfolding Returns on_connect_request
on_connect_request-Returns env packet c sure ok e =
    elim (Bool-cases (ltb (length packet) connect_req_size)) [
      | inl short ↦ rw (short, on_connect_request) (close-Follows c ok)
      | inr long ↦
          rw (long, on_connect_request)
            (answer (env.decrypt (cipher_of connect_req_size packet) c.nonce))
    ]
  where
    working : Connection
    working = report busy (set_state relaying c)

    works : Follows c working
    works = record { moves = at_start e engages; keeps = λ open_mark. refl }

    answer :
        (plain : Option (List ℕ))
        → Returns c (elim plain [
          | none ↦ none
          | some text ↦
              let address_length = byte_at text 0 in
              let port = byte_at text 17 * 256 + byte_at text 18 in
              if address_length == 4 || address_length == 16
              then (if allow (take address_length (drop 1 text)) port
                  then some (open_upstream env (set_state relaying working))
                  else some (become_idle (send_connect_response env false working)))
              else none
        ])
    answer none = tt
    answer (some text) =
        if-Returns c (byte_at text 0 == 4 || byte_at text 0 == 16) _ none
          (Follows-trans c working _ works (open_upstream-Follows env sure working refl)) tt
