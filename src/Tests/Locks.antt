-- ===== src/Tests/Locks.antt =====
-- The lifecycle locks (pkg/daemon/task_lifecycle.go) with three callers of two tasks.
use stockyard.Base.{ℕ, ◌≡◌, ◌⊎◌, refl, List, [], ◌∷◌, some, String, lookup, insert}
use stockyard.Daemon.Locks.{
  LockCall, queued, inside, leaving, no_locks, set_at, nth, set_nth, arrive, enter, LockMove,
  arrives, enters, finishes, unlocks, on_call, lock_step, lock_run,
}
use stockyard.Daemon.Locks.Exclusion.{lock_run_exclusive, lock_run_live}

abbrev task_a : String
task_a = "a"

-- The second caller of `a` arrives and waits while the first is inside; a caller of `b` is not held up.
abbrev moves : List LockMove
moves = arrives "a" ∷ enters 0 ∷ arrives "a" ∷ enters 0 ∷ arrives "b" ∷ enters 0 ∷ []

abbrev first_call : LockCall
first_call = record { task = "a"; entry = 0; stage = inside }

abbrev second_call : LockCall
second_call = record { task = "a"; entry = 0; stage = queued }

first-inside : nth 2 (lock_run moves no_locks).calls ≡ some first_call
unfolding lock_run lock_step on_call arrive enter set_at nth set_nth lookup insert
first-inside = refl

second-queued : nth 1 (lock_run moves no_locks).calls ≡ some second_call
unfolding lock_run lock_step on_call arrive enter set_at nth set_nth lookup insert
second-queued = refl

abbrev position : ℕ
position = 2

lock_run_exclusive_example : position ≡ position
lock_run_exclusive_example =
    lock_run_exclusive moves 2 2 first_call first_call first-inside refl first-inside refl refl

lock_run_live_example :
    (nth 1 (lock_step (enters 1) (lock_run moves no_locks)).calls
      ≡ some (record second_call { stage = inside }))
    ⊎ ((j : ℕ) × (y : LockCall) × (nth j (lock_run moves no_locks).calls ≡ some y)
        × (y.entry ≡ second_call.entry)
        × ((y.stage ≡ inside) ⊎ (y.stage ≡ leaving))
        × (nth 1
              (lock_step
                (enters 1)
                (lock_step (unlocks j) (lock_step (finishes j) (lock_run moves no_locks)))).calls
            ≡ some (record second_call { stage = inside })))
lock_run_live_example = lock_run_live moves 1 second_call second-queued refl
