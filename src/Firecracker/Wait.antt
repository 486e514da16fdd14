-- ===== src/Firecracker/Wait.antt =====
-- `Wait` of pkg/firecracker/process_handle_linux.go: the loop that polls a pidfd until the process
-- has ended, the deadline has passed, or the context is done. Times are in nanoseconds. A round is
-- numbered; what it reads of the clock, the context and the descriptor is the environment's.
use stockyard.Base.{
  ℕ, zero, suc, ◌+◌, ◌-◌, ◌*◌, ◌/◌, ◌≤◌, ◌<◌, ◌≡◌, inl, inr, Bool, true, false, ltb, ◌==◌, Option,
  none, some, Result, ok, err, Option-cases, Bool-cases, Result-cases, arith, if◌then◌else◌,
}
use stockyard.Firecracker.Host.{Fault, still_running, wrapped}

pub record Polls : Type 0 where
  pub clock : ℕ → ℕ  -- `time.Until`, in each round
  pub context : ℕ → Option Fault
  pub ready : ℕ → ℕ → Result Fault Bool  -- `unix.Poll` of a round, for so many milliseconds

abbrev min_of : ℕ → ℕ → ℕ
min_of a b = if ltb a b then a else b

-- The milliseconds of a poll: those that remain, at most 50.
abbrev pub poll_for : ℕ → ℕ
poll_for remaining = min_of remaining (50 * 1000000) / 1000000

-- `Wait` until `deadline`, from round `n` on. The fuel bounds the rounds.
unfoldable pub wait_until : Polls → ℕ → ℕ → ℕ → Option (Result Fault (Unit {0}))
wait_until p deadline zero n = none
wait_until p deadline (suc fuel) n =
    let rest = wait_until p deadline fuel (suc n) in
    elim (p.context n) [
      | some e ↦ some (err e)
      | none ↦
          let remaining = deadline - p.clock n in
          elim (p.ready n (poll_for remaining)) [
            | err e ↦ some (err e)
            | ok ready ↦
                if ready
                then some (ok tt)
                else if remaining == 0
                then some (err (wrapped "" still_running))
                else rest
          ]
    ]

-- The clock goes on between two polls.
abbrev pub Advances : Polls → Type 0
Advances p = (n : ℕ) → p.clock n < p.clock (suc n)

-- Why the loop ends in round `m` with a result.
pub data Ends (p : Polls) (deadline m : ℕ) : Result Fault (Unit {0}) → Type 0 where
  context_done : {e : Fault} → p.context m ≡ some e → Ends p deadline m (err e)
  poll_failed :
      {e : Fault} → p.ready m (poll_for (deadline - p.clock m)) ≡ err e → Ends p deadline m (err e)
  process_ended : p.ready m (poll_for (deadline - p.clock m)) ≡ ok true → Ends p deadline m (ok tt)
  time_over :
      p.ready m (poll_for (deadline - p.clock m)) ≡ ok false
      → deadline ≤ p.clock m
      → Ends p deadline m (err (wrapped "" still_running))

-- With more fuel than time left, the loop returns the result of its last round.
wait_until-Ends :
    (p : Polls) (deadline fuel n : ℕ)
    → Advances p
    → deadline - p.clock n < fuel
    → (r : Result Fault (Unit {0})) × (m : ℕ) × (n ≤ m)
      × (wait_until p deadline fuel n ≡ some r)
      × Ends p deadline m r
unfolding wait_until
wait_until-Ends p deadline zero n adv lt = ground arith
wait_until-Ends p deadline (suc fuel) n adv lt = elim (Option-cases (p.context n)) [
  | inr (e, q) ↦ (err e, n, ground arith, ground arith, context_done q)
  | inl q ↦ elim (Result-cases (p.ready n (poll_for (deadline - p.clock n)))) [
    | inr (e, s) ↦ (err e, n, ground arith, ground arith, poll_failed s)
    | inl (true, s) ↦ (ok tt, n, ground arith, ground arith, process_ended s)
    | inl (false, s) ↦ elim (Bool-cases (deadline - p.clock n == 0)) [
      | inl z ↦ (
        err (wrapped "" still_running),
        n,
        ground arith,
        ground arith,
        time_over s (ground arith),
      )
      | inr z ↦
          let step = adv n in
          let (r, m, le, run, ends) = wait_until-Ends p deadline fuel (suc n) adv (ground arith) in
          (r, m, ground arith, ground arith, ends)
    ]
  ]
]

-- `Wait` from the time `start` on.
unfoldable pub wait : Polls → ℕ → ℕ → Option (Result Fault (Unit {0}))
wait p start timeout = wait_until p (start + timeout) (suc timeout) 0

-- With a clock that goes on between two rounds and that is not behind `start` in the first, `Wait`
-- returns; and its result is that of a round whose context is done, whose poll failed, whose poll
-- saw the end of the process, or which polled at or after the deadline and saw no end.
pub wait-Ends :
    (p : Polls) (start timeout : ℕ)
    → Advances p
    → start ≤ p.clock 0
    → (r : Result Fault (Unit {0})) × (m : ℕ) × (wait p start timeout ≡ some r)
      × Ends p (start + timeout) m r
unfolding wait
wait-Ends p start timeout adv le =
    let (r, m, _, run, ends) =
      wait_until-Ends p (start + timeout) (suc timeout) 0 adv (ground arith) in
    (r, m, run, ends)
