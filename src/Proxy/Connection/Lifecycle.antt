-- ===== src/Proxy/Connection/Lifecycle.antt =====
-- The life of a connection as its proxy sees it: the states, and the handlers that are called on the
-- way from one to another. It says nothing of packets, bytes or libuv.
pub mod Accepting
pub mod Steps
pub mod Closing
pub mod Sessions
pub mod Handling
pub mod Dispatch
pub mod Refinement
use elastos_carrier_native.Prelude.{ℕ, ◌≡◌, Bool, true, false, leb, List, [], ◌∷◌}
use elastos_carrier_native.Proxy.Connection.{
  ConnectionState, initializing, authenticating, attaching, idling, relaying, disconnecting, closed,
  state_value, Status, authorized, opened, open_failed, is_closed, busy, idle,
}
use elastos_carrier_native.Proxy.Connection.Calls.{is_engaged}

-- The handlers' calls, the newest first.
pub data Moves : ConnectionState → List Status → ConnectionState → List Status → Type 0 where
  stays : {s : ConnectionState} {h : List Status} → Moves s h s h
  then_moves :
      {a b c : ConnectionState} {h k l : List Status}
      → Moves a h b k
      → Moves b k c l
      → Moves a h c l
  authenticates : {h : List Status} → Moves initializing h authenticating h
  attaches : {h : List Status} → Moves initializing h attaching h
  opens_first :
      {h : List Status} (pk : List ℕ) (port : ℕ) (domain : Bool)
      → Moves authenticating h idling (opened ∷ authorized pk port domain ∷ h)
  opens_again : {h : List Status} → Moves attaching h idling (opened ∷ h)
  engages : {h : List Status} → Moves idling h relaying (busy ∷ h)
  disconnects : {h : List Status} → Moves relaying h disconnecting h
  releases :
      {s : ConnectionState} {h : List Status} → is_engaged s ≡ true → Moves s h idling (idle ∷ h)
  fails :
      {s : ConnectionState} {h : List Status}
      → leb (state_value s) 2 ≡ true
      → Moves s h closed (is_closed ∷ open_failed ∷ h)
  leaves_idle : {h : List Status} → Moves idling h closed (is_closed ∷ h)
  leaves_relaying : {h : List Status} → Moves relaying h closed (is_closed ∷ idle ∷ h)
  leaves_disconnecting : {h : List Status} → Moves disconnecting h closed (is_closed ∷ h)
