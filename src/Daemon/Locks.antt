-- ===== src/Daemon/Locks.antt =====
-- The lifecycle locks of pkg/daemon/task_lifecycle.go: `withTaskLock`, as the steps that its callers take
-- in turn. A lock entry is an object in a store, so that a caller can hold one that has left the map.
pub mod Counting
pub mod Invariant
pub mod Moves
pub mod Exclusion
use stockyard.Base.{
  ℕ, zero, suc, ◌+◌, ◌-◌, ◌==◌, Bool, true, false, not, ◌&&◌, List, [], ◌∷◌, Option, none, some,
  String, Dict, lookup, insert, erase, if◌then◌else◌,
}

-- Waiting for `entry.mu`; running `fn`; between the two deferred calls, `entry.mu` still held; done.
pub data Stage : Type 0 where
  queued inside leaving returned : Stage

-- One call of withTaskLock: the entry is the one that it found or made.
pub record LockCall : Type 0 where
  pub task : String
  pub entry : ℕ
  pub stage : Stage

-- `refs` and `locked` are the fields of the objects, `next` the first object that is not allocated.
-- The latest call stands first.
pub record Locks : Type 0 where
  pub entries : Dict ℕ
  pub refs : ℕ → ℕ
  pub locked : ℕ → Bool
  pub next : ℕ
  pub calls : List LockCall

abbrev pub no_locks : Locks
no_locks = record { entries = []; refs = λ _. 0; locked = λ _. false; next = 0; calls = [] }

unfoldable pub set_at {ℓ} : {A : Type ℓ} → ℕ → A → (ℕ → A) → ℕ → A
set_at a v f b = if a == b then v else f b

unfoldable pub nth : ℕ → List LockCall → Option LockCall
nth k [] = none
nth zero (x ∷ xs) = some x
nth (suc k) (x ∷ xs) = nth k xs

unfoldable pub set_nth : ℕ → LockCall → List LockCall → List LockCall
set_nth k y [] = []
set_nth zero y (x ∷ xs) = y ∷ xs
set_nth (suc k) y (x ∷ xs) = x ∷ set_nth k y xs

-- Up to the end of the first critical section: the entry is found or made, and counted.
unfoldable pub arrive : String → Locks → Locks
arrive i s = elim (lookup i s.entries) [
  | some a ↦ record s {
    refs = set_at a (s.refs a + 1) s.refs;
    calls = record { task = i; entry = a; stage = queued } ∷ s.calls;
  }
  | none ↦ record s {
    entries = insert i s.next s.entries;
    refs = set_at s.next 1 s.refs;
    locked = set_at s.next false s.locked;
    next = suc s.next;
    calls = record { task = i; entry = s.next; stage = queued } ∷ s.calls;
  }
]

-- `entry.mu.Lock()`, which waits while another has it.
unfoldable pub enter : ℕ → LockCall → Locks → Locks
enter k x s = elim x.stage [
  | queued ↦ if s.locked x.entry then s else record s {
    locked = set_at x.entry true s.locked;
    calls = set_nth k (record x { stage = inside }) s.calls;
  }
  | _ ↦ s
]

-- `fn` has returned; the deferred function that gives up the reference runs first.
unfoldable pub finish : ℕ → LockCall → Locks → Locks
finish k x s = elim x.stage [
  | inside ↦ record s {
    refs = set_at x.entry (s.refs x.entry - 1) s.refs;
    entries = if (s.refs x.entry - 1) == 0 then erase x.task s.entries else s.entries;
    calls = set_nth k (record x { stage = leaving }) s.calls;
  }
  | _ ↦ s
]

-- `entry.mu.Unlock()`, the other deferred call.
unfoldable pub unlock : ℕ → LockCall → Locks → Locks
unlock k x s = elim x.stage [
  | leaving ↦ record s {
    locked = set_at x.entry false s.locked;
    calls = set_nth k (record x { stage = returned }) s.calls;
  }
  | _ ↦ s
]

-- A step of some caller, named by its place among the calls.
pub data LockMove : Type 0 where
  arrives : String → LockMove
  enters finishes unlocks : ℕ → LockMove

unfoldable pub on_call : (LockCall → Locks → Locks) → Option LockCall → Locks → Locks
on_call f none s = s
on_call f (some x) s = f x s

unfoldable pub lock_step : LockMove → Locks → Locks
lock_step (arrives i) s = arrive i s
lock_step (enters k) s = on_call (enter k) (nth k s.calls) s
lock_step (finishes k) s = on_call (finish k) (nth k s.calls) s
lock_step (unlocks k) s = on_call (unlock k) (nth k s.calls) s

unfoldable pub lock_run : List LockMove → Locks → Locks
lock_run [] s = s
lock_run (m ∷ ms) s = lock_run ms (lock_step m s)
