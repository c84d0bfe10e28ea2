-- ===== src/Proxy/Connection/Balance.antt =====
-- How often a connection calls each handler of its proxy.
use elastos_carrier_native.Prelude.{
  ℕ, suc, ◌+◌, ◌≤◌, ◌≡◌, refl, false, leb, if◌then◌else◌, List, [], ◌∷◌, arith,
}
use elastos_carrier_native.Proxy.Connection.{
  ConnectionState, initializing, closed, state_value, is_state, Status, authorized, opened,
  open_failed, is_closed, busy, idle, Connection, new_connection,
}
use elastos_carrier_native.Proxy.Connection.Calls.{is_engaged, Run}
use elastos_carrier_native.Proxy.Connection.Lifecycle.{
  Moves, stays, then_moves, authenticates, attaches, opens_first, opens_again, engages, disconnects,
  releases, fails, leaves_idle, leaves_relaying, leaves_disconnecting,
}
use elastos_carrier_native.Proxy.Connection.Lifecycle.Refinement.{Run-Moves}

-- The calls of `onBusy`, `onIdle`, `onClosed`, and those of `onOpened` and `onOpenFailed` together.
abbrev pub busies : List Status → ℕ
busies [] = 0
busies (busy ∷ h) = suc (busies h)
busies (authorized pk port domain ∷ h) = busies h
busies (opened ∷ h) = busies h
busies (open_failed ∷ h) = busies h
busies (is_closed ∷ h) = busies h
busies (idle ∷ h) = busies h

abbrev pub idles : List Status → ℕ
idles [] = 0
idles (idle ∷ h) = suc (idles h)
idles (authorized pk port domain ∷ h) = idles h
idles (opened ∷ h) = idles h
idles (open_failed ∷ h) = idles h
idles (is_closed ∷ h) = idles h
idles (busy ∷ h) = idles h

abbrev pub closings : List Status → ℕ
closings [] = 0
closings (is_closed ∷ h) = suc (closings h)
closings (authorized pk port domain ∷ h) = closings h
closings (opened ∷ h) = closings h
closings (open_failed ∷ h) = closings h
closings (idle ∷ h) = closings h
closings (busy ∷ h) = closings h

abbrev pub openings : List Status → ℕ
openings [] = 0
openings (opened ∷ h) = suc (openings h)
openings (open_failed ∷ h) = suc (openings h)
openings (authorized pk port domain ∷ h) = openings h
openings (is_closed ∷ h) = openings h
openings (idle ∷ h) = openings h
openings (busy ∷ h) = openings h

abbrev pub engagements : ConnectionState → ℕ
engagements s = if is_engaged s then 1 else 0

abbrev pub ends : ConnectionState → ℕ
ends s = if is_state s closed then 1 else 0

record IsBalanced (s : ConnectionState) (h : List Status) : Type 0 where
  at_least : idles h + engagements s ≤ busies h
  at_most : busies h ≤ idles h + engagements s + ends s
  closes_once : closings h ≡ ends s
  opens_once : openings h + (if leb (state_value s) 2 then 1 else 0) ≡ 1

Moves-IsBalanced :
    (s t : ConnectionState) (h l : List Status) → Moves s h t l → IsBalanced s h → IsBalanced t l
Moves-IsBalanced s t h l stays old = old
Moves-IsBalanced s t h l (then_moves {b} {k} p q) old =
    Moves-IsBalanced b t k l q (Moves-IsBalanced s b h k p old)
Moves-IsBalanced s t h l authenticates old = record {
  at_least = ground (arith, old.at_least);
  at_most = ground (arith, old.at_most);
  closes_once = ground (arith, old.closes_once);
  opens_once = ground (arith, old.opens_once);
}
Moves-IsBalanced s t h l attaches old = record {
  at_least = ground (arith, old.at_least);
  at_most = ground (arith, old.at_most);
  closes_once = ground (arith, old.closes_once);
  opens_once = ground (arith, old.opens_once);
}
Moves-IsBalanced s t h l (opens_first pk port domain) old = record {
  at_least = ground (arith, old.at_least);
  at_most = ground (arith, old.at_most);
  closes_once = ground (arith, old.closes_once);
  opens_once = ground (arith, old.opens_once);
}
Moves-IsBalanced s t h l opens_again old = record {
  at_least = ground (arith, old.at_least);
  at_most = ground (arith, old.at_most);
  closes_once = ground (arith, old.closes_once);
  opens_once = ground (arith, old.opens_once);
}
Moves-IsBalanced s t h l engages old = record {
  at_least = ground (arith, old.at_least);
  at_most = ground (arith, old.at_most);
  closes_once = ground (arith, old.closes_once);
  opens_once = ground (arith, old.opens_once);
}
Moves-IsBalanced s t h l disconnects old = record {
  at_least = ground (arith, old.at_least);
  at_most = ground (arith, old.at_most);
  closes_once = ground (arith, old.closes_once);
  opens_once = ground (arith, old.opens_once);
}
Moves-IsBalanced s t h l (releases e) old = record {
  at_least = ground (arith, old.at_least);
  at_most = ground (arith, old.at_most);
  closes_once = ground (arith, old.closes_once);
  opens_once = ground (arith, old.opens_once);
}
Moves-IsBalanced s t h l (fails e) old = record {
  at_least = ground (arith, old.at_least);
  at_most = ground (arith, old.at_most);
  closes_once = ground (arith, old.closes_once);
  opens_once = ground (arith, old.opens_once);
}
Moves-IsBalanced s t h l leaves_idle old = record {
  at_least = ground (arith, old.at_least);
  at_most = ground (arith, old.at_most);
  closes_once = ground (arith, old.closes_once);
  opens_once = ground (arith, old.opens_once);
}
Moves-IsBalanced s t h l leaves_relaying old = record {
  at_least = ground (arith, old.at_least);
  at_most = ground (arith, old.at_most);
  closes_once = ground (arith, old.closes_once);
  opens_once = ground (arith, old.opens_once);
}
Moves-IsBalanced s t h l leaves_disconnecting old = record {
  at_least = ground (arith, old.at_least);
  at_most = ground (arith, old.at_most);
  closes_once = ground (arith, old.closes_once);
  opens_once = ground (arith, old.opens_once);
}

new_connection-IsBalanced : IsBalanced initializing []
new_connection-IsBalanced = record {
  at_least = omega arith;
  at_most = omega arith;
  closes_once = refl;
  opens_once = refl;
}

-- A connection that is not closed has called `onBusy` as often as `onIdle`, and once more exactly
-- in Relaying and Disconnecting, after any calls that return. libuv accepts every write to the
-- relay and every new handle at once, and a failed connect to the upstream is reported in one of
-- these states.
pub Run-busies :
    (now : ℕ) (c : Connection)
    → Run (new_connection now) c
    → is_state c.state closed ≡ false
    → busies c.statuses ≡ idles c.statuses + engagements c.state
Run-busies now c run up =
    let b =
      Moves-IsBalanced initializing c.state [] c.statuses (Run-Moves now c run)
        new_connection-IsBalanced in
    ground (arith, b.at_least, b.at_most, up)

-- A connection has called `onClosed` once if it is closed, and else never; it has called one of
-- `onOpened` and `onOpenFailed`, once, exactly if its state is past Attaching, after any calls
-- that return. libuv accepts every write to the relay and every new handle at once, and a failed
-- connect to the upstream is reported in Relaying or Disconnecting.
pub Run-closings :
    (now : ℕ) (c : Connection)
    → Run (new_connection now) c
    → (closings c.statuses ≡ ends c.state)
      × (openings c.statuses + (if leb (state_value c.state) 2 then 1 else 0) ≡ 1)
Run-closings now c run =
    let b =
      Moves-IsBalanced initializing c.state [] c.statuses (Run-Moves now c run)
        new_connection-IsBalanced in
    (b.closes_once, b.opens_once)
