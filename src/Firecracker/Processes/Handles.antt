-- ===== src/Firecracker/Processes/Handles.antt =====
-- The handles that the search for the owner of a socket opens are closed again, but for its result.
use stockyard.Base.{
  ℕ, suc, ◌+◌, ◌≡◌, refl, inl, inr, Option-cases, Result-cases, Text, Bool, ◌==◌, Option, none,
  some, List, [], ◌∷◌, Result, ok, err, arith, if◌then◌else◌,
}
use stockyard.Firecracker.Host.{
  Call, open_process, close_process, read_identity, candidate_pids, resolve_executable, Fault, Env,
  Client,
}
use stockyard.Firecracker.Processes.{
  find_process_by_socket, scan_candidates, probe, examine, fail_with, or_fail, fail_closing,
  close_handle,
}

-- How often a process was opened, and how often a handle on it was closed.
unfoldable pub opened : Env → ℕ → List Call → ℕ
opened env p [] = 0
opened env p (open_process q ∷ h) =
    let rest = opened env p h in
    if q == p
    then elim (env.outcome (open_process q ∷ h)) [ none ↦ suc rest | some e ↦ rest ]
    else rest
opened env p (_ ∷ h) = opened env p h

unfoldable pub closed : ℕ → List Call → ℕ
closed p [] = 0
closed p (close_process q ∷ h) = let rest = closed p h in if q == p then suc rest else rest
closed p (_ ∷ h) = closed p h

abbrev pub held : ℕ → Option ℕ → ℕ
held p none = 0
held p (some q) = if q == p then 1 else 0

-- What is held after a step: its result, or nothing after an error.
abbrev pub kept : Result Fault (Option ℕ) → Option ℕ
kept (ok found) = found
kept (err e) = none

-- From `w` to `v`, the handles on `p` that were opened are closed but for those that are held.
abbrev pub Balance : Env → ℕ → Option ℕ → Option ℕ → Client → Client → Type 0
Balance env p before after w v =
    opened env p v.history + closed p w.history + held p before
    ≡ opened env p w.history + closed p v.history + held p after

module _ (env : Env) (p : ℕ) where
  examine-Balance :
      (path : Text) (found : Option ℕ) (pid : ℕ) (read : Result Fault (List Text × Bool))
      (w : Client)
      → let (r, v) = examine env path found pid read w in
        opened env p v.history + closed p w.history + held p found + held p (some pid)
        ≡ opened env p w.history + closed p v.history + held p (kept r)
  unfolding examine fail_with or_fail fail_closing close_handle opened closed
  examine-Balance path none pid (err e) w = ground arith
  examine-Balance path (some q) pid (err e) w = ground arith
  examine-Balance path none pid (ok (arguments, same)) w = ground arith
  examine-Balance path (some q) pid (ok (arguments, same)) w = ground arith

  probe-Balance :
      (path : Text) (found : Option ℕ) (pid : ℕ) (w : Client)
      → let (r, v) = probe env path found pid w in Balance env p found (kept r) w v
  unfolding probe fail_with close_handle opened closed
  probe-Balance path found pid w =
      let h₁ = open_process pid ∷ w.history in
      let h₂ = read_identity pid ∷ h₁ in
      elim (Option-cases (env.outcome h₁)) [
        | inr (e, q) ↦ elim (Option-cases found) [
          | inl f ↦ ground arith
          | inr (first, f) ↦ ground arith
        ]
        | inl q ↦ elim (Option-cases (env.outcome h₂)) [
          | inr (e, s) ↦
              ground (arith, examine-Balance path found pid (err e) (record w { history = h₂ }))
          | inl s ↦ ground (
            arith,
            examine-Balance path found pid (ok (env.texts h₂, env.yes h₂))
                (record w { history = h₂ }),
          )
        ]
      ]

  scan_candidates-Balance :
      (path : Text) (found : Option ℕ) (pids : List ℕ) (w : Client)
      → let (r, v) = scan_candidates env path found pids w in Balance env p found (kept r) w v
  unfolding scan_candidates
  scan_candidates-Balance path found [] w = ground arith
  scan_candidates-Balance path found (pid ∷ rest) w =
      let w₁ = (probe env path found pid w).1 in
      elim (Result-cases (probe env path found pid w).0) [
        | inr (e, q) ↦ ground (arith, probe-Balance path found pid w)
        | inl (next, q) ↦
            ground
              (arith, probe-Balance path found pid w, scan_candidates-Balance path next rest w₁)
      ]

  -- `findProcessBySocket` closes every handle that it opened, except that of its result.
  pub find_process-Balance :
      (path : Text) (w : Client)
      → let (r, v) = find_process_by_socket env path w in Balance env p none (kept r) w v
  unfolding find_process_by_socket opened closed
  find_process-Balance path w =
      let h₁ = candidate_pids path ∷ w.history in
      let h₂ = resolve_executable env.firecracker_bin ∷ h₁ in
      elim (Option-cases (env.outcome h₁)) [
        | inr (e, q) ↦ ground arith
        | inl q ↦
            elim (env.pids h₁)
                as (λ pids.
                  env.pids h₁ ≡ pids
                  → Balance env p none (kept (find_process_by_socket env path w).0) w
                      (find_process_by_socket env path w).1) [
                        | [] ↦ λ n. ground arith
                        | pid ∷ rest ↦ λ n. elim (Option-cases (env.outcome h₂)) [
                          | inr (e, s) ↦ ground arith
                          | inl s ↦ ground (
                            arith,
                            scan_candidates-Balance path none (pid ∷ rest)
                                (record w { history = h₂ }),
                          )
                        ]
                      ]
              refl
      ]
