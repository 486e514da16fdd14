-- ===== src/Daemon/Locks/Invariant.antt =====
-- The invariant of the lifecycle locks, and that a caller that arrives keeps it.
use stockyard.Base.{
  ℕ, ◌<◌, ◌≤◌, ◌==◌, ◌≡◌, refl, ap, true, none, some, String, lookup, lookup-insert, eq_iff, arith,
  Bool-cases, inl, inr,
}
use stockyard.Daemon.Locks.{Stage, LockCall, Locks, no_locks, set_at, nth, set_nth, arrive}
use stockyard.Daemon.Locks.Counting.{one, count, is_user, uses, holds, nth-set_nth, nth-cons}

pub record IsValid (s : Locks) : Type 0 where
  -- A call that uses its entry finds it in the map.
  pub current :
      (k : ℕ) (x : LockCall)
      → nth k s.calls ≡ some x
      → is_user x.stage ≡ true
      → lookup x.task s.entries ≡ some x.entry
  -- One call has a locked mutex, and none an unlocked one.
  pub held : (a : ℕ) → count (holds a) s.calls ≡ one (s.locked a)
  -- The reference count is the number of the users, and never 0 in the map.
  pub counted :
      (i : String) (a : ℕ)
      → lookup i s.entries ≡ some a
      → (s.refs a ≡ count (uses a) s.calls) × (1 ≤ s.refs a)
  pub apart :
      (i j : String) (a : ℕ) → lookup i s.entries ≡ some a → lookup j s.entries ≡ some a → i ≡ j
  pub allocated : (i : String) (a : ℕ) → lookup i s.entries ≡ some a → a < s.next
  pub fresh : (a : ℕ) → s.next ≤ a → (count (uses a) s.calls ≡ 0) × (count (holds a) s.calls ≡ 0)

pub no_locks-IsValid : IsValid no_locks
unfolding count nth lookup
no_locks-IsValid = record {
  current = λ k x h q. ground arith;
  held = λ a. refl;
  counted = λ i a h. ground arith;
  apart = λ i j a h h'. ground arith;
  allocated = λ i a h. ground arith;
  fresh = λ a h. (refl, refl);
}

module _ (i : String) (s : Locks) (v : IsValid s) where
  pub arrive_known : (a : ℕ) → lookup i s.entries ≡ some a → IsValid (arrive i s)
  unfolding arrive set_at nth count
  arrive_known a e =
      rw (e, arrive)
        record {
          current = λ k x h q. elim (nth-cons k x _ s.calls h) [
            | inl e' ↦ ground (arith, ap (λ y. y.task) e')
            | inr (j, h') ↦ v.current j x h' q
          ];
          held = λ b. ground (arith, v.held b);
          counted = λ j b h. ground (arith, v.counted j b h, v.counted i a e);
          apart = v.apart;
          allocated = v.allocated;
          fresh = λ b h. ground (arith, v.fresh b h, v.allocated i a e);
        }

  pub arrive_new : lookup i s.entries ≡ none → IsValid (arrive i s)
  unfolding arrive set_at nth count
  arrive_new e =
      rw (e, arrive)
        record {
          current = λ k x h q. elim (nth-cons k x _ s.calls h) [
            | inl e' ↦
                ground (arith, ap (λ y. y.task) e', lookup-insert i i s.next s.entries, eq_iff i i)
            | inr (j, h') ↦ ground (
              arith,
              v.current j x h' q,
              lookup-insert i x.task s.next s.entries,
              eq_iff i x.task,
            )
          ];
          held = λ b. ground (arith, v.held b, v.fresh s.next (ground arith));
          counted = λ j b h. ground (
            arith,
            v.counted j b,
            v.fresh s.next,
            lookup-insert i j s.next s.entries,
            v.allocated j b,
          );
          apart = λ j k b h h'. ground (
            arith,
            v.apart j k b,
            v.allocated j b,
            v.allocated k b,
            eq_iff i j,
            eq_iff i k,
            lookup-insert i j s.next s.entries,
            lookup-insert i k s.next s.entries,
          );
          allocated = λ j b h. ground (arith, v.allocated j b, lookup-insert i j s.next s.entries);
          fresh = λ b h. ground (arith, v.fresh b (ground arith));
        }

-- A call that changes its stage and uses the entry after it only if it did before.
pub moved-current :
    (s : Locks) (v : IsValid s) (k : ℕ) (x : LockCall) (stage : Stage)
    → nth k s.calls ≡ some x
    → (is_user stage ≡ true → is_user x.stage ≡ true)
    → (j : ℕ) (z : LockCall) → nth j (set_nth k (record x { stage = stage }) s.calls) ≡ some z
    → is_user z.stage ≡ true
    → lookup z.task s.entries ≡ some z.entry
moved-current s v k x stage h u j z h' q = elim (Bool-cases (k == j)) [
  | inl e ↦
      ground (arith, nth-set_nth j k x (record x { stage = stage }) s.calls h, v.current k x h)
  | inr e ↦ ground (arith, nth-set_nth j k x (record x { stage = stage }) s.calls h, v.current j z)
]
