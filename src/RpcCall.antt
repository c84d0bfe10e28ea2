-- ===== src/RpcCall.antt =====
-- core/rpccall.cc and core/rpccall.h: one remote call, from its request to its response, failure or
-- timeout. What the handlers do is not part of the call: `events` logs when they are called, the
-- last first. `timer` is the time for which `checkTimeout` is scheduled, if it is.
pub mod Timeouts
use elastos_carrier_native.Prelude.{
  ℕ, zero, suc, ◌+◌, ◌*◌, ◌-◌, ◌%◌, ◌^◌, Bool, true, false, not, ◌&&◌, ltb, leb, if◌then◌else◌,
  Option, none, some, List, [], ◌∷◌, ℤ, pos, negsuc, ltb_ℤ, pos_part,
}
use elastos_carrier_native.Entry.{sub64}

pub data CallState : Type 0 where
  unsent : CallState
  sent : CallState
  stalled : CallState
  timed_out : CallState
  canceled : CallState
  err : CallState
  responded : CallState

pub data MessageType : Type 0 where
  request : MessageType
  response : MessageType
  error : MessageType

-- A call of a handler.
pub data Event : Type 0 where
  state_change : CallState → CallState → Event
  stall_handler : Event
  timeout_handler : Event
  response_handler : Event

pub record RpcCall : Type 0 where
  pub state : CallState
  pub sent_time : ℕ
  pub response_time : ℕ
  pub has_scheduler : Bool
  pub timer : Option ℕ
  pub events : List Event

abbrev pub rpc_call_timeout_max : ℕ
rpc_call_timeout_max = 10 * 1000

unfoldable pub new_call : RpcCall
new_call = record {
  state = unsent;
  sent_time = 2 ^ 64 - 1;
  response_time = 2 ^ 64 - 1;
  has_scheduler = false;
  timer = none;
  events = [];
}

-- The `switch` of `updateState`.
abbrev pub handler_of : CallState → List Event
handler_of timed_out = timeout_handler ∷ []
handler_of stalled = stall_handler ∷ []
handler_of responded = response_handler ∷ []
handler_of _ = []

abbrev pub log_event : List Event → List Event → List Event
log_event [] events = events
log_event (e ∷ es) events = e ∷ log_event es events

unfoldable pub update_state : RpcCall → CallState → RpcCall
update_state c current_state = record c {
  state = current_state;
  events = log_event (handler_of current_state) (state_change c.state current_state ∷ c.events);
}

unfoldable pub call_sent : RpcCall → ℕ → RpcCall
unfolding update_state
call_sent c now = record (update_state (record c { sent_time = now }) sent) {
  has_scheduler = true;
  timer = some (now + 2000);
}

-- A response of another type is refused: `none`.
unfoldable pub call_responsed : RpcCall → MessageType → ℕ → Option RpcCall
unfolding update_state
call_responsed c request now = none
call_responsed c response now =
    some (update_state (record c { timer = none; response_time = now }) responded)
call_responsed c error now =
    some (update_state (record c { timer = none; response_time = now }) err)

-- A `uint64_t` as an `int`.
abbrev pub to_int : ℕ → ℤ
to_int x = let low = x % 2 ^ 32 in if ltb low (2 ^ 31) then pos low else negsuc (2 ^ 32 - 1 - low)

-- `a - x`, which fits an `int` unless `x` is below -2147473647.
abbrev pub minus_int : ℕ → ℤ → ℤ
minus_int a (pos b) = if leb b a then pos (a - b) else negsuc (b - a - 1)
minus_int a (negsuc b) = pos (a + suc b)

abbrev pub awaits : CallState → Bool
awaits sent = true
awaits stalled = true
awaits _ = false

-- `RPC_CALL_TIMEOUT_MAX - elapsed`.
unfoldable pub remaining_of : RpcCall → ℕ → ℤ
remaining_of c now = minus_int rpc_call_timeout_max (to_int (sub64 now c.sent_time))

-- `checkTimeout`, when the timer fires: it is scheduled no more.
unfoldable pub check_timeout : RpcCall → ℕ → RpcCall
unfolding update_state remaining_of
check_timeout c now =
    let fired = record c { timer = none } in
    let remaining = remaining_of c now in
    if not (awaits c.state)
    then fired
    else if ltb_ℤ (pos 0) remaining
    then record (update_state fired stalled) {
      timer = if c.has_scheduler then some (now + pos_part remaining) else none;
    }
    else update_state fired timed_out

unfoldable pub call_failed : RpcCall → RpcCall
unfolding update_state
call_failed c = update_state c timed_out

unfoldable pub call_cancel : RpcCall → RpcCall
unfolding update_state
call_cancel c = update_state (record c { timer = none }) canceled

unfoldable pub call_stall : RpcCall → RpcCall
unfolding update_state
call_stall c = elim c.state [ sent ↦ update_state c stalled | _ ↦ c ]

unfoldable pub is_pending : RpcCall → Bool
is_pending c = false

-- The timer fires at each of the times, the first first.
unfoldable pub fire_all : RpcCall → List ℕ → RpcCall
unfolding check_timeout
fire_all c [] = c
fire_all c (now ∷ times) = fire_all (check_timeout c now) times

unfoldable pub count_timeouts : List Event → ℕ
count_timeouts [] = 0
count_timeouts (timeout_handler ∷ es) = suc (count_timeouts es)
count_timeouts (state_change a b ∷ es) = count_timeouts es
count_timeouts (stall_handler ∷ es) = count_timeouts es
count_timeouts (response_handler ∷ es) = count_timeouts es
