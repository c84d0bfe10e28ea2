-- ===== src/Task/Ending.antt =====
-- That a task ends once.
use elastos_carrier_native.Prelude.{
  ℕ, zero, suc, ◌-◌, ◌==◌, ◌≡◌, refl, sym, ap, ◌∙◌, subst, Bool, true, false, ◌&&◌, not, ltb,
  if◌then◌else◌, Option, none, some, [], ◌∷◌, anyb, Bool-cases, inl, inr, arith,
}
use elastos_carrier_native.Task.{
  TaskState, initial, queued, running, finished, canceled, is_task_state, Task, is_finished,
  can_do_request, set_task_state, notify, finish, cancel, update_round, update_loop,
  serialized_update, start,
}

-- The listeners have been called once if the task is over, and else not yet.
abbrev pub ends_of : TaskState → ℕ
ends_of initial = 0
ends_of queued = 0
ends_of running = 0
ends_of finished = 1
ends_of canceled = 1

abbrev IsOnce : Task → Type 0
IsOnce t = t.notified ≡ ends_of t.state

-- `update` and `prepare` send calls; they do not end the task or call its listeners.
pub record LeavesState (f : Task → Task) : Type 0 where
  pub same_state : (t : Task) → (f t).state ≡ t.state
  pub same_notified : (t : Task) → (f t).notified ≡ t.notified

LeavesState-IsOnce : (f : Task → Task) (t : Task) → LeavesState f → IsOnce t → IsOnce (f t)
LeavesState-IsOnce f t leaves once =
    leaves.same_notified t ∙ once ∙ ap ends_of (sym (leaves.same_state t))

if-IsOnce : (b : Bool) (x y : Task) → IsOnce x → IsOnce y → IsOnce (if b then x else y)
if-IsOnce true x y p q = p
if-IsOnce false x y p q = q

end_lem :
    (s : TaskState) (new : TaskState) (n : ℕ)
    → ends_of new ≡ 1
    → n ≡ ends_of s
    → anyb (λ x. is_task_state x s) (initial ∷ queued ∷ running ∷ []) ≡ true
    → suc n ≡ ends_of new
end_lem initial new n e once open_state = omega (arith, e, once)
end_lem queued new n e once open_state = omega (arith, e, once)
end_lem running new n e once open_state = omega (arith, e, once)
end_lem finished new n e once open_state = absurd (cc open_state)
end_lem canceled new n e once open_state = absurd (cc open_state)

-- A `setState` from the states in which a task is not over.
ended :
    (t : Task) (new : TaskState) (r : Option Task)
    → set_task_state (initial ∷ queued ∷ running ∷ []) new t ≡ r
    → ends_of new ≡ 1
    → IsOnce t
    → (now : ℕ) → IsOnce (elim r [ none ↦ t | some u ↦ notify (record u { finish_time = now }) ])
unfolding notify set_task_state
ended t new none e ends once now = once
ended t new (some u) e ends once now =
    elim (Bool-cases (anyb (λ s. is_task_state s t.state) (initial ∷ queued ∷ running ∷ []))) [
      | inl live ↦
          let it : record t { state = new } ≡ u = ground (arith, e, live) in
          subst (λ (x : Task). suc x.notified ≡ ends_of x.state) it
            (end_lem t.state new t.notified ends once live)
      | inr over ↦ absurd (ground (arith, e, over))
    ]

finish-IsOnce : (now : ℕ) (t : Task) → IsOnce t → IsOnce (finish now t)
unfolding finish
finish-IsOnce now t once = ended t finished _ refl refl once now

cancel-IsOnce : (now : ℕ) (t : Task) → IsOnce t → IsOnce (cancel now t)
unfolding cancel
cancel-IsOnce now t once = ended t canceled _ refl refl once now

-- Where a function returns.
Yields : Option Task → Type 0
Yields none = Unit
Yields (some t) = IsOnce t

if-Yields : (b : Bool) (x y : Option Task) → Yields x → Yields y → Yields (if b then x else y)
if-Yields true x y p q = p
if-Yields false x y p q = q

module _ (done : Task → Bool) (update : Task → Task) (leaves : LeavesState update) where
  update_round-IsOnce : (now : ℕ) (t : Task) → IsOnce t → IsOnce (update_round done update now t)
  unfolding update_round
  update_round-IsOnce now t once =
      let first = if done t then finish now t else t in
      let before : IsOnce first =
        if-IsOnce (done t) (finish now t) t (finish-IsOnce now t once) once in
      let after : IsOnce (update first) = LeavesState-IsOnce update first leaves before in
      if-IsOnce (can_do_request first && not (is_finished first)) _ first
        (if-IsOnce (done (update first)) (finish now (update first)) (update first)
          (finish-IsOnce now (update first) after) after)
        before

  update_loop-Yields :
      (now rounds current : ℕ) (t : Task)
      → IsOnce t
      → Yields (update_loop done update now rounds current t)
  unfolding update_loop Yields
  update_loop-Yields now zero current t once = tt
  update_loop-Yields now (suc rounds) current t once =
      let u = update_round done update now t in
      let once_u : IsOnce u = update_round-IsOnce now t once in
      if-Yields (u.lock - current == 0) _ _ once_u (
        update_loop-Yields now rounds (u.lock - current) (record u { lock = u.lock - current })
          once_u)

  serialized_update-Yields :
      (rounds now : ℕ) (t : Task) → IsOnce t → Yields (serialized_update done update rounds now t)
  unfolding serialized_update Yields
  serialized_update-Yields rounds now t once =
      elim (ltb 1 (suc t.lock))
        as (λ b. Yields (elim b [
          | true ↦ some (record t { lock = suc t.lock })
          | false ↦
              elim (update_loop done update now rounds (suc t.lock)
                (record t { lock = suc t.lock })) [
                  | none ↦ none
                  | some u ↦ if is_finished u then some (record u { removed = true }) else some u
                ]
        ])) [
          | true ↦ once
          | false ↦
              left
                (update_loop done update now rounds (suc t.lock) (record t { lock = suc t.lock }))
                (update_loop-Yields now rounds (suc t.lock) (record t { lock = suc t.lock }) once)
        ]
    where
      left :
          (r : Option Task)
          → Yields r
          → Yields (elim r [
            | none ↦ none
            | some u ↦ if is_finished u then some (record u { removed = true }) else some u
          ])
      left none y = tt
      left (some u) y = if-Yields (is_finished u) _ _ y y

started :
    (t : Task) (u : Task)
    → set_task_state (initial ∷ queued ∷ []) running t ≡ some u
    → IsOnce t
    → IsOnce u
unfolding set_task_state
started t u e once =
    elim (Bool-cases (anyb (λ s. is_task_state s t.state) (initial ∷ queued ∷ []))) [
      | inl fresh ↦
          let it : record t { state = running } ≡ u = ground (arith, e, fresh) in
          subst (λ (x : Task). x.notified ≡ ends_of x.state) it
            (early t.state t.notified once fresh)
      | inr late ↦ absurd (ground (arith, e, late))
    ]
  where
    early :
        (s : TaskState) (n : ℕ)
        → n ≡ ends_of s
        → anyb (λ x. is_task_state x s) (initial ∷ queued ∷ []) ≡ true
        → n ≡ 0
    early initial n once fresh = once
    early queued n once fresh = once
    early running n once fresh = absurd (cc fresh)
    early finished n once fresh = absurd (cc fresh)
    early canceled n once fresh = absurd (cc fresh)

-- What is called of a task from outside, with the time.
pub data TaskCall : Type 0 where
  starts : TaskCall
  cancels : TaskCall
  updates : TaskCall

unfoldable pub call_task :
    (Task → Bool) → (Task → Task) → (Task → Task) → ℕ → ℕ → TaskCall → Task → Option Task
call_task done prepare update rounds now starts t = start done prepare update rounds now t
call_task done prepare update rounds now cancels t = some (cancel now t)
call_task done prepare update rounds now updates t = serialized_update done update rounds now t

-- The calls of a task, at their times.
pub data TaskRun (done : Task → Bool) (prepare update : Task → Task) : Task → Task → Type 0 where
  no_calls : {t : Task} → TaskRun done prepare update t t
  one_more :
      {t u v : Task} (rounds now : ℕ) (call : TaskCall)
      → TaskRun done prepare update t u
      → call_task done prepare update rounds now call u ≡ some v
      → TaskRun done prepare update t v

module _ (done : Task → Bool) (prepare update : Task → Task) (prepares : LeavesState prepare)
    (leaves : LeavesState update) where
  call_task-Yields :
      (rounds now : ℕ) (call : TaskCall) (t : Task)
      → IsOnce t
      → Yields (call_task done prepare update rounds now call t)
  unfolding call_task start Yields
  call_task-Yields rounds now starts t once =
      begun (set_task_state (initial ∷ queued ∷ []) running t) refl
    where
      begun :
          (r : Option Task)
          → set_task_state (initial ∷ queued ∷ []) running t ≡ r
          → Yields (elim r [
            | none ↦ some t
            | some u ↦
                serialized_update done update rounds now (prepare (record u { start_time = now }))
          ])
      begun none e = once
      begun (some u) e =
          let fresh = record u { start_time = now } in
          serialized_update-Yields done update leaves rounds now (prepare fresh)
            (LeavesState-IsOnce prepare fresh prepares (started t u e once))
  call_task-Yields rounds now cancels t once = cancel-IsOnce now t once
  call_task-Yields rounds now updates t once =
      serialized_update-Yields done update leaves rounds now t once

-- Through any starts, cancels and updates of a task that return, its listeners have been called
-- once if it is finished or canceled, and else not at all, where that held before, and `prepare`
-- and `update` change neither the state nor that number.
pub TaskRun-notified :
    (done : Task → Bool) (prepare update : Task → Task) (t u : Task)
    → LeavesState prepare
    → LeavesState update
    → t.notified ≡ ends_of t.state
    → TaskRun done prepare update t u
    → u.notified ≡ ends_of u.state
unfolding Yields
TaskRun-notified done prepare update t u prepares leaves once no_calls = once
TaskRun-notified done prepare update t v prepares leaves once
      (one_more {u} rounds now call before e) =
    let mid = TaskRun-notified done prepare update t u prepares leaves once before in
    yielded (call_task done prepare update rounds now call u) e
      (call_task-Yields done prepare update prepares leaves rounds now call u mid)
  where
    yielded : (r : Option Task) → r ≡ some v → Yields r → v.notified ≡ ends_of v.state
    yielded r e y = subst (λ x. Yields x) e y
