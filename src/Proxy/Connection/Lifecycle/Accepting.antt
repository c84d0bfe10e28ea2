-- ===== src/Proxy/Connection/Lifecycle/Accepting.antt =====
-- The states that accept a type of packet.
use elastos_carrier_native.Prelude.{◌≡◌, refl, true}
use elastos_carrier_native.Proxy.PacketType.{
  auth_ack, attach_ack, connect, disconnect, disconnect_ack,
}
use elastos_carrier_native.Proxy.Connection.{
  ConnectionState, initializing, authenticating, attaching, idling, relaying, disconnecting, closed,
  accept,
}
use elastos_carrier_native.Proxy.Connection.Calls.{is_engaged}

-- What a state accepts.
pub accept-auth_ack : (s : ConnectionState) → accept s auth_ack ≡ true → s ≡ authenticating
unfolding accept
accept-auth_ack initializing e = absurd (cc e)
accept-auth_ack authenticating e = refl
accept-auth_ack attaching e = absurd (cc e)
accept-auth_ack idling e = absurd (cc e)
accept-auth_ack relaying e = absurd (cc e)
accept-auth_ack disconnecting e = absurd (cc e)
accept-auth_ack closed e = absurd (cc e)

pub accept-attach_ack : (s : ConnectionState) → accept s attach_ack ≡ true → s ≡ attaching
unfolding accept
accept-attach_ack initializing e = absurd (cc e)
accept-attach_ack authenticating e = absurd (cc e)
accept-attach_ack attaching e = refl
accept-attach_ack idling e = absurd (cc e)
accept-attach_ack relaying e = absurd (cc e)
accept-attach_ack disconnecting e = absurd (cc e)
accept-attach_ack closed e = absurd (cc e)

pub accept-connect : (s : ConnectionState) → accept s connect ≡ true → s ≡ idling
unfolding accept
accept-connect initializing e = absurd (cc e)
accept-connect authenticating e = absurd (cc e)
accept-connect attaching e = absurd (cc e)
accept-connect idling e = refl
accept-connect relaying e = absurd (cc e)
accept-connect disconnecting e = absurd (cc e)
accept-connect closed e = absurd (cc e)

pub accept-disconnect : (s : ConnectionState) → accept s disconnect ≡ true → is_engaged s ≡ true
unfolding accept
accept-disconnect initializing e = absurd (cc e)
accept-disconnect authenticating e = absurd (cc e)
accept-disconnect attaching e = absurd (cc e)
accept-disconnect idling e = absurd (cc e)
accept-disconnect relaying e = refl
accept-disconnect disconnecting e = refl
accept-disconnect closed e = absurd (cc e)

pub accept-disconnect_ack :
    (s : ConnectionState) → accept s disconnect_ack ≡ true → is_engaged s ≡ true
unfolding accept
accept-disconnect_ack initializing e = absurd (cc e)
accept-disconnect_ack authenticating e = absurd (cc e)
accept-disconnect_ack attaching e = absurd (cc e)
accept-disconnect_ack idling e = absurd (cc e)
accept-disconnect_ack relaying e = absurd (cc e)
accept-disconnect_ack disconnecting e = refl
accept-disconnect_ack closed e = absurd (cc e)
