-- ===== src/Daemon/Locks/Moves.antt =====
-- Every step of a caller keeps the invariant of the lifecycle locks.
use stockyard.Base.{
  ℕ, ◌-◌, ◌==◌, ◌≡◌, refl, true, false, List, [], ◌∷◌, some, String, lookup, lookup-erase, eq_iff,
  arith, Bool-cases, Option-cases, inl, inr,
}
use stockyard.Daemon.Locks.{
  Stage, queued, inside, leaving, returned, LockCall, Locks, no_locks, set_at, nth, set_nth, arrive,
  enter, finish, unlock, LockMove, arrives, enters, finishes, unlocks, on_call, lock_step, lock_run,
}
use stockyard.Daemon.Locks.Counting.{uses, holds, count-set_nth, count_pos}
use stockyard.Daemon.Locks.Invariant.{
  IsValid, no_locks-IsValid, arrive_known, arrive_new, moved-current,
}

module _ (s : Locks) (v : IsValid s) (k : ℕ) (x : LockCall) (h : nth k s.calls ≡ some x) where
  enter_free : x.stage ≡ queued → s.locked x.entry ≡ false → IsValid (enter k x s)
  unfolding enter set_at
  enter_free q free =
      rw (q, free, enter)
        record {
          current = moved-current s v k x inside h (λ _. ground (arith, q));
          held = λ b. ground (
            arith,
            v.held b,
            count-set_nth (holds b) k x (record x { stage = inside }) s.calls h,
          );
          counted = λ j b e. ground (
            arith,
            v.counted j b e,
            count-set_nth (uses b) k x (record x { stage = inside }) s.calls h,
          );
          apart = v.apart;
          allocated = v.allocated;
          fresh = λ b e. ground (
            arith,
            v.fresh b e,
            count-set_nth (uses b) k x (record x { stage = inside }) s.calls h,
            count-set_nth (holds b) k x (record x { stage = inside }) s.calls h,
            count_pos (uses b) k x s.calls h,
          );
        }

  unlock_held : x.stage ≡ leaving → IsValid (unlock k x s)
  unfolding unlock set_at
  unlock_held q =
      rw (q, unlock)
        record {
          current = moved-current s v k x returned h (λ e. ground (arith, q, e));
          held = λ b. ground (
            arith,
            v.held b,
            count_pos (holds b) k x s.calls h,
            count-set_nth (holds b) k x (record x { stage = returned }) s.calls h,
          );
          counted = λ j b e. ground (
            arith,
            v.counted j b e,
            count-set_nth (uses b) k x (record x { stage = returned }) s.calls h,
          );
          apart = v.apart;
          allocated = v.allocated;
          fresh = λ b e. ground (
            arith,
            v.fresh b e,
            count-set_nth (uses b) k x (record x { stage = returned }) s.calls h,
            count-set_nth (holds b) k x (record x { stage = returned }) s.calls h,
          );
        }

  finish_last : x.stage ≡ inside → ((s.refs x.entry - 1) == 0) ≡ true → IsValid (finish k x s)
  unfolding finish set_at
  finish_last q last =
      rw (q, last, finish)
        record {
          current = λ j z h' u. ground (
            arith,
            eq_iff x.task z.task,
            moved-current s v k x leaving h (λ e. ground (arith, q, e)) j z h' u,
            v.current k x h (ground (arith, q)),
            v.counted x.task x.entry,
            lookup-erase x.task z.task s.entries,
            count-set_nth (uses x.entry) k x (record x { stage = leaving }) s.calls h,
            count_pos (uses x.entry) j z (set_nth k (record x { stage = leaving }) s.calls) h',
          );
          held = λ b. ground (
            arith,
            v.held b,
            count_pos (holds b) k x s.calls h,
            count-set_nth (holds b) k x (record x { stage = leaving }) s.calls h,
          );
          counted = λ j b e. ground (
            arith,
            eq_iff x.task j,
            v.counted j b,
            v.apart j x.task b,
            v.current k x h (ground (arith, q)),
            lookup-erase x.task j s.entries,
            count-set_nth (uses b) k x (record x { stage = leaving }) s.calls h,
          );
          apart = λ i j a e e'. ground (
            arith,
            v.apart i j a,
            lookup-erase x.task i s.entries,
            lookup-erase x.task j s.entries,
          );
          allocated = λ i a e. ground (arith, v.allocated i a, lookup-erase x.task i s.entries);
          fresh = λ b e. ground (
            arith,
            v.fresh b e,
            count-set_nth (uses b) k x (record x { stage = leaving }) s.calls h,
            count-set_nth (holds b) k x (record x { stage = leaving }) s.calls h,
          );
        }

  finish_more : x.stage ≡ inside → ((s.refs x.entry - 1) == 0) ≡ false → IsValid (finish k x s)
  unfolding finish set_at
  finish_more q more =
      rw (q, more, finish)
        record {
          current = moved-current s v k x leaving h (λ e. ground (arith, q, e));
          held = λ b. ground (
            arith,
            v.held b,
            count_pos (holds b) k x s.calls h,
            count-set_nth (holds b) k x (record x { stage = leaving }) s.calls h,
          );
          counted = λ j b e. ground (
            arith,
            v.counted j b e,
            count-set_nth (uses b) k x (record x { stage = leaving }) s.calls h,
          );
          apart = v.apart;
          allocated = v.allocated;
          fresh = λ b e. ground (
            arith,
            v.fresh b e,
            count-set_nth (uses b) k x (record x { stage = leaving }) s.calls h,
            count-set_nth (holds b) k x (record x { stage = leaving }) s.calls h,
          );
        }

arrive-IsValid : (i : String) (s : Locks) → IsValid s → IsValid (arrive i s)
arrive-IsValid i s v = elim (Option-cases (lookup i s.entries)) [
  | inl e ↦ arrive_new i s v e
  | inr (a, e) ↦ arrive_known i s v a e
]

module _ (s : Locks) (v : IsValid s) (k : ℕ) (x : LockCall) (h : nth k s.calls ≡ some x) where
  enter-IsValid : (g : Stage) → x.stage ≡ g → IsValid (enter k x s)
  unfolding enter
  enter-IsValid queued q = elim (Bool-cases (s.locked x.entry)) [
    | inl busy ↦ rw (q, busy, enter) v
    | inr free ↦ enter_free s v k x h q free
  ]
  enter-IsValid inside q = rw (q, enter) v
  enter-IsValid leaving q = rw (q, enter) v
  enter-IsValid returned q = rw (q, enter) v

  finish-IsValid : (g : Stage) → x.stage ≡ g → IsValid (finish k x s)
  unfolding finish
  finish-IsValid inside q = elim (Bool-cases ((s.refs x.entry - 1) == 0)) [
    | inl last ↦ finish_last s v k x h q last
    | inr more ↦ finish_more s v k x h q more
  ]
  finish-IsValid queued q = rw (q, finish) v
  finish-IsValid leaving q = rw (q, finish) v
  finish-IsValid returned q = rw (q, finish) v

  unlock-IsValid : (g : Stage) → x.stage ≡ g → IsValid (unlock k x s)
  unfolding unlock
  unlock-IsValid leaving q = unlock_held s v k x h q
  unlock-IsValid queued q = rw (q, unlock) v
  unlock-IsValid inside q = rw (q, unlock) v
  unlock-IsValid returned q = rw (q, unlock) v

on_call-IsValid :
    (f : LockCall → Locks → Locks) (k : ℕ) (s : Locks)
    → IsValid s
    → ((x : LockCall) → nth k s.calls ≡ some x → IsValid (f x s))
    → IsValid (on_call f (nth k s.calls) s)
unfolding on_call
on_call-IsValid f k s v g = elim (Option-cases (nth k s.calls)) [
  | inl e ↦ rw (e, on_call) v
  | inr (x, e) ↦ rw (e, on_call) (g x e)
]

lock_step-IsValid : (m : LockMove) (s : Locks) → IsValid s → IsValid (lock_step m s)
unfolding lock_step
lock_step-IsValid (arrives i) s v = arrive-IsValid i s v
lock_step-IsValid (enters k) s v =
    on_call-IsValid (enter k) k s v (λ x h. enter-IsValid s v k x h x.stage refl)
lock_step-IsValid (finishes k) s v =
    on_call-IsValid (finish k) k s v (λ x h. finish-IsValid s v k x h x.stage refl)
lock_step-IsValid (unlocks k) s v =
    on_call-IsValid (unlock k) k s v (λ x h. unlock-IsValid s v k x h x.stage refl)

lock_run_from-IsValid : (ms : List LockMove) (s : Locks) → IsValid s → IsValid (lock_run ms s)
unfolding lock_run
lock_run_from-IsValid [] s v = v
lock_run_from-IsValid (m ∷ ms) s v =
    lock_run_from-IsValid ms (lock_step m s) (lock_step-IsValid m s v)

pub lock_run-IsValid : (ms : List LockMove) → IsValid (lock_run ms no_locks)
lock_run-IsValid ms = lock_run_from-IsValid ms no_locks no_locks-IsValid
