-- ===== src/Proxy/Active/Handlers.antt =====
-- What the handlers of the proxy make of a connection's calls.
use elastos_carrier_native.Prelude.{
  ℕ, ◌+◌, ◌%◌, ◌^◌, ◌≡◌, refl, false, List, [], ◌∷◌, ◌⊎◌, inl, inr, arith,
}
use elastos_carrier_native.Proxy.Connection.{
  Status, authorized, opened, open_failed, is_closed, busy, idle, Connection, new_connection,
  closed, is_state,
}
use elastos_carrier_native.Proxy.Connection.Calls.{Run}
use elastos_carrier_native.Proxy.Connection.Balance.{busies, idles, engagements, Run-busies}
use elastos_carrier_native.Proxy.Active.{
  ActiveProxy, on_authorized, on_opened, on_open_failed, on_closed, on_busy, on_idle, on_status,
  deliver,
}

-- The delay that the last of `onOpened` and `onOpenFailed` asks for.
abbrev pub delay_after : List Status → ℕ
delay_after [] = 0
delay_after (opened ∷ before) = 0
delay_after (open_failed ∷ before) = 2000
delay_after (authorized pk port domain ∷ before) = delay_after before
delay_after (is_closed ∷ before) = delay_after before
delay_after (busy ∷ before) = delay_after before
delay_after (idle ∷ before) = delay_after before

delay_after-cases : (h : List Status) → (delay_after h ≡ 0) ⊎ (delay_after h ≡ 2000)
delay_after-cases [] = inl refl
delay_after-cases (opened ∷ before) = inl refl
delay_after-cases (open_failed ∷ before) = inr refl
delay_after-cases (authorized pk port domain ∷ before) = delay_after-cases before
delay_after-cases (is_closed ∷ before) = delay_after-cases before
delay_after-cases (busy ∷ before) = delay_after-cases before
delay_after-cases (idle ∷ before) = delay_after-cases before

record Delays (h : List Status) (p : ActiveProxy) : Type 0 where
  delay : p.reconnect_delay ≡ delay_after h
  fresh : delay_after h ≡ 0 → p.server_fails ≡ 0

on_status-Delays :
    (now number : ℕ) (status : Status) (h : List Status) (p : ActiveProxy)
    → Delays h p
    → Delays (status ∷ h) (on_status now number status p)
unfolding on_status on_authorized on_opened on_open_failed on_closed on_busy on_idle
on_status-Delays now number (authorized pk port domain) h p d = record {
  delay = ground (arith, d.delay);
  fresh = λ e. ground (arith, d.fresh e);
}
on_status-Delays now number opened h p d = record { delay = refl; fresh = λ e. refl }
on_status-Delays now number open_failed h p d = record {
  delay = elim (delay_after-cases h) [
    | inl none_yet ↦ ground (arith, d.delay, d.fresh none_yet, none_yet)
    | inr set ↦ ground (arith, d.delay, set)
  ];
  fresh = λ e. absurd (omega (arith, e));
}
on_status-Delays now number is_closed h p d = record { delay = d.delay; fresh = d.fresh }
on_status-Delays now number busy h p d = record { delay = d.delay; fresh = d.fresh }
on_status-Delays now number idle h p d = record { delay = d.delay; fresh = d.fresh }

deliver-Delays :
    (now number : ℕ) (h : List Status) (p : ActiveProxy)
    → p.reconnect_delay ≡ 0
    → p.server_fails ≡ 0
    → Delays h (deliver now number h p)
unfolding deliver
deliver-Delays now number [] p e f = record { delay = e; fresh = λ g. f }
deliver-Delays now number (status ∷ before) p e f =
    on_status-Delays now number status before _ (deliver-Delays now number before p e f)

-- From no delay and no failures, the delay after any handlers' calls is 2 seconds if the last of
-- `onOpened` and `onOpenFailed` was `onOpenFailed`, however often it was called, and else 0.
pub deliver-reconnect_delay :
    (now number : ℕ) (h : List Status) (p : ActiveProxy)
    → p.reconnect_delay ≡ 0
    → p.server_fails ≡ 0
    → (deliver now number h p).reconnect_delay ≡ delay_after h
deliver-reconnect_delay now number h p e f = let d = deliver-Delays now number h p e f in d.delay

on_status-in_flights :
    (now number : ℕ) (status : Status) (h : List Status) (p : ActiveProxy) (start : ℕ)
    → (p.in_flights + idles h) % 2 ^ 32 ≡ (start + busies h) % 2 ^ 32
    → ((on_status now number status p).in_flights + idles (status ∷ h)) % 2 ^ 32
      ≡ (start + busies (status ∷ h)) % 2 ^ 32
unfolding on_status on_authorized on_opened on_open_failed on_closed on_busy on_idle
on_status-in_flights now number (authorized pk port domain) h p start e = ground (arith, e)
on_status-in_flights now number opened h p start e = e
on_status-in_flights now number open_failed h p start e = ground (arith, e)
on_status-in_flights now number is_closed h p start e = e
on_status-in_flights now number busy h p start e = omega (arith, e)
on_status-in_flights now number idle h p start e = omega (arith, e)

deliver-in_flights :
    (now number : ℕ) (h : List Status) (p : ActiveProxy)
    → ((deliver now number h p).in_flights + idles h) % 2 ^ 32 ≡ (p.in_flights + busies h) % 2 ^ 32
unfolding deliver
deliver-in_flights now number [] p = refl
deliver-in_flights now number (status ∷ before) p =
    on_status-in_flights now number status before _ p.in_flights
      (deliver-in_flights now number before p)

-- When the handlers' calls of a connection that is not closed are done to a proxy, `inFlights`
-- ends 1 higher exactly if the connection is in Relaying or Disconnecting, modulo 2 ^ 32, and else
-- as it was. The calls that made the connection returned, libuv accepts every write to the relay
-- and every new handle at once, and a failed connect to the upstream is reported in one of these
-- states.
pub deliver-Run :
    (now number born : ℕ) (c : Connection) (p : ActiveProxy)
    → Run (new_connection born) c
    → is_state c.state closed ≡ false
    → (deliver now number c.statuses p).in_flights % 2 ^ 32
      ≡ (p.in_flights + engagements c.state) % 2 ^ 32
deliver-Run now number born c p run up =
    omega (arith, deliver-in_flights now number c.statuses p, Run-busies born c run up)
