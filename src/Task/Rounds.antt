-- ===== src/Task/Rounds.antt =====
-- That `serializedUpdate` ends.
use elastos_carrier_native.Prelude.{
  ℕ, suc, ◌-◌, ◌==◌, ◌≡◌, refl, Bool, true, false, ltb, if◌then◌else◌, some, arith,
}
use elastos_carrier_native.Task.{
  Task, is_finished, set_task_state, notify, finish, update_round, update_loop, serialized_update,
}

finish-lock : (now : ℕ) (t : Task) → (finish now t).lock ≡ t.lock
unfolding finish set_task_state notify
finish-lock now t = ground arith

update_round-lock :
    (done : Task → Bool) (update : Task → Task) (now : ℕ) (t : Task)
    → ((u : Task) → (update u).lock ≡ u.lock)
    → (update_round done update now t).lock ≡ t.lock
unfolding update_round
update_round-lock done update now t leaves =
    let first = if done t then finish now t else t in
    ground (arith, leaves first, finish-lock now t, finish-lock now (update first))

update_loop-one :
    (done : Task → Bool) (update : Task → Task) (now current : ℕ) (t : Task)
    → (update_round done update now t).lock - current ≡ 0
    → update_loop done update now 1 current t
      ≡ some (record (update_round done update now t) {
        lock = (update_round done update now t).lock - current;
      })
unfolding update_loop
update_loop-one done update now current t e =
    let over : ((update_round done update now t).lock - current == 0) ≡ true = ground (arith, e) in
    rw over refl

some_if :
    (b : Bool) (x y : Task)
    → x.lock ≡ 0
    → y.lock ≡ 0
    → (u : Task) × ((if b then some x else some y) ≡ some u) × (u.lock ≡ 0)
some_if true x y p q = (x, refl, p)
some_if false x y p q = (y, refl, q)

-- If `update` leaves the lock as it is, `serializedUpdate` of a task whose lock is 0 ends in one
-- round, with the lock 0.
pub serialized_update-some :
    (done : Task → Bool) (update : Task → Task) (now : ℕ) (t : Task)
    → ((u : Task) → (update u).lock ≡ u.lock)
    → t.lock ≡ 0
    → (u : Task) × (serialized_update done update 1 now t ≡ some u) × (u.lock ≡ 0)
unfolding serialized_update
serialized_update-some done update now t leaves free =
    let entered = record t { lock = suc t.lock } in
    let u = update_round done update now entered in
    let same = update_round-lock done update now entered leaves in
    let left : u.lock - suc t.lock ≡ 0 = omega (arith, same) in
    let alone : ltb 1 (suc t.lock) ≡ false = ground (arith, free) in
    let last = record u { lock = u.lock - suc t.lock } in
    rw (alone, update_loop-one done update now (suc t.lock) entered left, serialized_update)
      (some_if (is_finished u) (record last { removed = true }) last left left)
