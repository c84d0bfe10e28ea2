-- ===== src/Task.antt =====
-- core/task/task.cc and .h: the states of a task and `serializedUpdate`, on one thread. What a kind of
-- task overrides, `isDone`, `prepare` and `update`, is a parameter. `notified` counts the calls of
-- `notifyCompletionListeners`; the nested task and the calls in flight are not modelled but for
-- their number.
pub mod Ending
pub mod Rounds
use elastos_carrier_native.Prelude.{
  ℕ, zero, suc, ◌+◌, ◌-◌, ◌==◌, Bool, true, false, ◌&&◌, ◌||◌, not, ltb, if◌then◌else◌, Option,
  none, some, List, [], ◌∷◌, anyb,
}

pub data TaskState : Type 0 where
  initial : TaskState
  queued : TaskState
  running : TaskState
  finished : TaskState
  canceled : TaskState

abbrev pub task_state_value : TaskState → ℕ
task_state_value initial = 0
task_state_value queued = 1
task_state_value running = 2
task_state_value finished = 3
task_state_value canceled = 4

abbrev pub is_task_state : TaskState → TaskState → Bool
is_task_state a b = task_state_value a == task_state_value b

pub record Task : Type 0 where
  pub state : TaskState
  pub start_time : ℕ
  pub finish_time : ℕ
  pub in_flight : ℕ
  pub lock : ℕ
  pub notified : ℕ
  pub removed : Bool

abbrev pub is_finished : Task → Bool
is_finished t = is_task_state t.state finished || is_task_state t.state canceled

abbrev pub can_do_request : Task → Bool
can_do_request t = ltb t.in_flight 10

-- `setState`: `none` where it answers false.
unfoldable pub set_task_state : List TaskState → TaskState → Task → Option Task
set_task_state expected new t =
    if anyb (λ s. is_task_state s t.state) expected then some (record t { state = new }) else none

unfoldable pub notify : Task → Task
notify t = record t { notified = suc t.notified }

unfoldable pub finish : ℕ → Task → Task
unfolding set_task_state notify
finish now t = elim (set_task_state (initial ∷ queued ∷ running ∷ []) finished t) [
  | none ↦ t
  | some u ↦ notify (record u { finish_time = now })
]

unfoldable pub cancel : ℕ → Task → Task
unfolding set_task_state notify
cancel now t = elim (set_task_state (initial ∷ queued ∷ running ∷ []) canceled t) [
  | none ↦ t
  | some u ↦ notify (record u { finish_time = now })
]

-- The body of the loop of `serializedUpdate`.
unfoldable pub update_round : (Task → Bool) → (Task → Task) → ℕ → Task → Task
unfolding finish
update_round done update now t =
    let first = if done t then finish now t else t in
    let updated = update first in
    if can_do_request first && not (is_finished first)
    then (if done updated then finish now updated else updated)
    else first

-- `none`: the rounds ran out.
unfoldable pub update_loop : (Task → Bool) → (Task → Task) → ℕ → ℕ → ℕ → Task → Option Task
unfolding update_round
update_loop done update now zero current t = none
update_loop done update now (suc rounds) current t =
    let u = update_round done update now t in
    let left = u.lock - current in
    let rest = update_loop done update now rounds left (record u { lock = left }) in
    if left == 0 then some (record u { lock = left }) else rest

unfoldable pub serialized_update : (Task → Bool) → (Task → Task) → ℕ → ℕ → Task → Option Task
unfolding update_loop
serialized_update done update rounds now t =
    let current = suc t.lock in
    let entered = record t { lock = current } in
    elim (ltb 1 current) [
      | true ↦ some entered
      | false ↦ elim (update_loop done update now rounds current entered) [
        | none ↦ none
        | some u ↦ if is_finished u then some (record u { removed = true }) else some u
      ]
    ]

unfoldable pub start : (Task → Bool) → (Task → Task) → (Task → Task) → ℕ → ℕ → Task → Option Task
unfolding set_task_state serialized_update
start done prepare update rounds now t = elim (set_task_state (initial ∷ queued ∷ []) running t) [
  | none ↦ some t
  | some u ↦ serialized_update done update rounds now (prepare (record u { start_time = now }))
]
