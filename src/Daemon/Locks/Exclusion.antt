-- ===== src/Daemon/Locks/Exclusion.antt =====
-- Mutual exclusion, entries and progress of the lifecycle locks, after any steps of any callers.
use stockyard.Base.{
  ℕ, ◌≤◌, ◌≡◌, ◌⊎◌, refl, ◌∙◌, Bool, true, ◌&&◌, List, none, some, String, lookup, str_eq, eq_iff,
  eq_iff, str_eq, arith, Bool-cases, Option-cases, inl, inr,
}
use stockyard.Daemon.Locks.{
  Stage, queued, inside, leaving, returned, LockCall, Locks, no_locks, nth, set_nth, set_at, enter,
  finish, unlock, LockMove, enters, finishes, unlocks, on_call, lock_step, lock_run,
}
use stockyard.Daemon.Locks.Counting.{
  count, is_user, is_holder, uses, holds, nth-set_nth, count_one, count-find, count-none, count-ext,
}
use stockyard.Daemon.Locks.Moves.{lock_run-IsValid}

-- After any steps of any callers of withTaskLock, two calls that are inside their functions for the
-- same task are one call.
pub lock_run_exclusive :
    (ms : List LockMove) (j k : ℕ) (x y : LockCall)
    → nth j (lock_run ms no_locks).calls ≡ some x
    → x.stage ≡ inside
    → nth k (lock_run ms no_locks).calls ≡ some y
    → y.stage ≡ inside
    → x.task ≡ y.task
    → j ≡ k
lock_run_exclusive ms j k x y h q h' q' same =
    let s = lock_run ms no_locks in
    let v = lock_run-IsValid ms in
    let e = v.current j x h (ground (arith, q)) in
    let e' = v.current k y h' (ground (arith, q')) in
    count_one (holds x.entry) j k x y s.calls (ground (arith, v.held x.entry)) h (ground (arith, q))
      h' (ground (arith, q', same, e, e'))

-- The call is for the task, and waits or is inside.
abbrev pub wants : String → LockCall → Bool
wants i x = is_user x.stage && str_eq x.task i

wants-uses :
    (ms : List LockMove) (i : String) (a k : ℕ) (x : LockCall)
    → lookup i (lock_run ms no_locks).entries ≡ some a
    → nth k (lock_run ms no_locks).calls ≡ some x
    → uses a x ≡ wants i x
wants-uses ms i a k x e h =
    let v = lock_run-IsValid ms in
    ground (arith, eq_iff x.task i, v.current k x h, v.apart x.task i a, e)

-- After any steps, the map holds no entry for a task and no call for it waits or is inside; or it
-- holds one, whose reference count is the number of the calls for the task that wait or are inside,
-- at least 1.
pub lock_run-entries :
    (ms : List LockMove) (i : String)
    → let s = lock_run ms no_locks in
      (lookup i s.entries ≡ none) × (count (wants i) s.calls ≡ 0)
      ⊎ ((a : ℕ) × (lookup i s.entries ≡ some a)
          × (s.refs a ≡ count (wants i) s.calls)
          × (1 ≤ s.refs a))
lock_run-entries ms i =
    let s = lock_run ms no_locks in
    let v = lock_run-IsValid ms in
    elim (Option-cases (lookup i s.entries)) [
      | inl e ↦ inl (
        e,
        count-none (wants i) s.calls (λ k x h. ground (arith, v.current k x h, eq_iff x.task i, e)),
      )
      | inr (a, e) ↦
          let c = count-ext (uses a) (wants i) s.calls (λ k x h. wants-uses ms i a k x e h) in
          inr (a, e, (v.counted i a e).0 ∙ c, (v.counted i a e).1)
    ]

holder_stage : (g : Stage) → is_holder g ≡ true → (g ≡ inside) ⊎ (g ≡ leaving)
holder_stage inside p = inl refl
holder_stage leaving p = inr refl
holder_stage queued p = ground arith
holder_stage returned p = ground arith

-- Once a call between its two deferred calls has unlocked, a call that waits for the entry can go
-- inside.
unlock-lets :
    (s : Locks) (j k : ℕ) (x y : LockCall)
    → nth k s.calls ≡ some x
    → x.stage ≡ queued
    → nth j s.calls ≡ some y
    → y.entry ≡ x.entry
    → y.stage ≡ leaving
    → nth k (lock_step (enters k) (lock_step (unlocks j) s)).calls
      ≡ some (record x { stage = inside })
unfolding lock_step on_call unlock enter set_at
unlock-lets s j k x y h q f same p =
    let ended = record y { stage = returned } in
    let at = nth-set_nth k j y ended s.calls f in
    let wakes = nth-set_nth k k x (record x { stage = inside }) (set_nth j ended s.calls) in
    ground (arith, at, wakes)

-- A call that has finished is between its two deferred calls, and another call stands as it stood.
finish-leaves :
    (s : Locks) (j : ℕ) (y : LockCall)
    → nth j s.calls ≡ some y
    → y.stage ≡ inside
    → (lock_step (finishes j) s).calls ≡ set_nth j (record y { stage = leaving }) s.calls
unfolding lock_step on_call finish
finish-leaves s j y f p = ground arith

finish-stays :
    (s : Locks) (j : ℕ) (y : LockCall)
    → nth j s.calls ≡ some y
    → y.stage ≡ leaving
    → lock_step (finishes j) s ≡ s
unfolding lock_step on_call finish
finish-stays s j y f p = rw (f, finish, p) refl

-- A call that holds the mutex ends by its own next steps, and then a call that waits for the entry
-- can go inside.
holder-goes :
    (s : Locks) (j k : ℕ) (x y : LockCall)
    → nth k s.calls ≡ some x
    → x.stage ≡ queued
    → nth j s.calls ≡ some y
    → y.entry ≡ x.entry
    → (y.stage ≡ inside) ⊎ (y.stage ≡ leaving)
    → nth k (lock_step (enters k) (lock_step (unlocks j) (lock_step (finishes j) s))).calls
      ≡ some (record x { stage = inside })
holder-goes s j k x y h q f same (inr p) =
    rw (finish-stays s j y f p) (unlock-lets s j k x y h q f same p)
holder-goes s j k x y h q f same (inl p) =
    let left = record y { stage = leaving } in
    let calls = finish-leaves s j y f p in
    unlock-lets (lock_step (finishes j) s) j k x left
      (ground (arith, calls, nth-set_nth k j y left s.calls f)) q
      (ground (arith, calls, nth-set_nth j j y left s.calls f)) same refl

-- After any steps, a call that waits goes inside by its own next step; or another call for the same
-- entry holds the mutex, inside its function or between its two deferred calls, and once that call
-- has finished and unlocked by its own next steps, the call that waits goes inside by its next step.
pub lock_run_live :
    (ms : List LockMove) (k : ℕ) (x : LockCall)
    → nth k (lock_run ms no_locks).calls ≡ some x
    → x.stage ≡ queued
    → let s = lock_run ms no_locks in
      (nth k (lock_step (enters k) s).calls ≡ some (record x { stage = inside }))
      ⊎ ((j : ℕ) × (y : LockCall) × (nth j s.calls ≡ some y)
          × (y.entry ≡ x.entry)
          × ((y.stage ≡ inside) ⊎ (y.stage ≡ leaving))
          × (nth k (lock_step (enters k) (lock_step (unlocks j) (lock_step (finishes j) s))).calls
              ≡ some (record x { stage = inside })))
unfolding lock_step on_call enter
lock_run_live ms k x h q =
    let s = lock_run ms no_locks in
    elim (Bool-cases (s.locked x.entry)) [
      | inr free ↦ inl (
          rw (h, q, free, enter)
            (nth-set_nth k k x (record x { stage = inside }) s.calls h ∙ ground arith))
      | inl busy ↦
          let (j, y, f, p) =
            count-find (holds x.entry) s.calls
              (ground (arith, (lock_run-IsValid ms).held x.entry)) in
          inr (
            j,
            y,
            f,
            ground (arith, p),
            holder_stage y.stage (ground (arith, p)),
            holder-goes s j k x y h q f (ground (arith, p))
                (holder_stage y.stage (ground (arith, p))),
          )
    ]
