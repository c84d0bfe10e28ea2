-- ===== src/Tests/Tasks.antt =====
-- Laws of the tasks at concrete inputs.
use elastos_carrier_native.Prelude.{◌+◌, ◌==◌, ◌≡◌, refl, Bool, false, none, some}
use elastos_carrier_native.Task.{
  Task, initial, set_task_state, notify, finish, cancel, update_round, update_loop,
  serialized_update, start,
}
use elastos_carrier_native.Task.Ending.{
  LeavesState, ends_of, TaskCall, starts, cancels, call_task, no_calls, one_more, TaskRun-notified,
}
use elastos_carrier_native.Task.Rounds.{serialized_update-some}

abbrev new_task : Task
new_task = record {
  state = initial;
  start_time = 0;
  finish_time = 0;
  in_flight = 0;
  lock = 0;
  notified = 0;
  removed = false;
}

-- It is done when no call is open; an update opens one.
abbrev no_calls_open : Task → Bool
no_calls_open t = t.in_flight == 0

abbrev open_call : Task → Task
open_call t = record t { in_flight = t.in_flight + 1 }

open_call-LeavesState : LeavesState open_call
open_call-LeavesState = record { same_state = λ t. refl; same_notified = λ t. refl }

abbrev after : TaskCall → Task → Task
unfolding call_task start serialized_update update_loop update_round finish cancel set_task_state
    notify
after call t = elim (call_task no_calls_open open_call open_call 3 5 call t) [
  | none ↦ t
  | some u ↦ u
]

TaskRun-notified_example :
    (after cancels (after starts new_task)).notified
    ≡ ends_of (after cancels (after starts new_task)).state
unfolding call_task start serialized_update update_loop update_round finish cancel set_task_state
    notify
TaskRun-notified_example =
    TaskRun-notified no_calls_open open_call open_call new_task
      (after cancels (after starts new_task)) open_call-LeavesState open_call-LeavesState refl
      (one_more 3 5 cancels (one_more 3 5 starts no_calls refl) refl)

serialized_update-some_example :
    (u : Task) × (serialized_update no_calls_open open_call 1 5 new_task ≡ some u) × (u.lock ≡ 0)
serialized_update-some_example =
    serialized_update-some no_calls_open open_call 5 new_task (λ t. refl) refl
