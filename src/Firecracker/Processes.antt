-- ===== src/Firecracker/Processes.antt =====
-- pkg/firecracker/process_handle.go, and the operations of client.go on a process handle: which
-- process owns a VM's API socket, and how one that is not a child is stopped.
pub mod Handles
use stockyard.Base.{
  ℕ, ◌+◌, Text, codes, text_eq, Bool, true, false, not, String, Option, none, some, List, [], ◌∷◌,
  Result, ok, err, if◌then◌else◌,
}
use stockyard.Base.Steps.{◌>>=◌, ◌>>◌, return, throw, done, ignore, outcome_of, map_err}
use stockyard.Firecracker.Host.{
  Call, check_context, candidate_pids, resolve_executable, open_process, read_identity,
  close_process, send_term, send_kill, wait_process, Fault, process_absent, other, wrapped, joined,
  is_absent, is_running, Env, M, call, ask,
}

-- `errors.Join` of an error and one that may be nil.
abbrev pub join_fault : Fault → Result Fault (Unit {0}) → Fault
join_fault e (ok _) = e
join_fault e (err d) = joined e d

-- `argumentsOwnSocket`: the socket follows `--api-sock`.
unfoldable pub arguments_own_socket : Text → List Text → Bool
arguments_own_socket path [] = false
arguments_own_socket path (a ∷ []) = false
arguments_own_socket path (a ∷ b ∷ rest) =
    let later = arguments_own_socket path (b ∷ rest) in
    if text_eq a (codes "--api-sock") then if text_eq b path then true else later else later

module _ (env : Env) where
  -- `closeStableProcessHandle`
  unfoldable pub close_handle : String → ℕ → M (Unit {0})
  close_handle what pid = map_err (wrapped what) (call env (close_process pid))

  -- `process.Identity`: its arguments, and whether its executable is the one expected
  -- (`sameExecutableIdentity`, which compares files).
  abbrev pub identity : ℕ → M (List Text × Bool)
  identity pid = ask env (λ h. (env.texts h, env.yes h)) (read_identity pid)

  -- An error of `findProcessBySocket`; its deferred function closes a match that was held.
  unfoldable pub fail_with : {A : Type 0} → Option ℕ → Fault → M A
  fail_with none e w = (err e, w)
  fail_with (some pid) e w =
      let (r, w') = close_handle "close retained Firecracker process handle" pid w in
      (err (join_fault e r), w')

  unfoldable pub or_fail : Option ℕ → M (Unit {0}) → M (Unit {0})
  or_fail found m w =
      let (r, w') = m w in elim r [ ok _ ↦ (ok tt, w') | err e ↦ fail_with found e w' ]

  -- An error, after the handle at hand has been closed.
  unfoldable pub fail_closing : {A : Type 0} → Option ℕ → Fault → String → ℕ → M A
  fail_closing found e what pid w =
      let (r, w') = close_handle what pid w in fail_with found (join_fault e r) w'

  -- What the loop makes of a process that it could open. The match is its result.
  unfoldable pub examine : Text → Option ℕ → ℕ → Result Fault (List Text × Bool) → M (Option ℕ)
  examine path found pid (err e) =
      if is_absent e
      then (do or_fail found (close_handle "close absent process handle" pid); return found)
      else fail_closing found (wrapped "read stable process identity" e)
          "close process handle after identity failure" pid
  examine path found pid (ok (arguments, same)) =
      if not (arguments_own_socket path arguments)
      then (do or_fail found (close_handle "close unrelated process handle" pid); return found)
      else if not same
      then fail_closing found (other "process candidate has an unknown executable identity")
          "close executable-mismatch process handle" pid
      else elim found [
        | none ↦ return (some pid)
        | some first ↦
            fail_closing (some first) (other "multiple Firecracker processes own API socket")
              "close additional Firecracker process handle" pid
      ]

  -- One round of the loop.
  unfoldable pub probe : Text → Option ℕ → ℕ → M (Option ℕ)
  probe path found pid = do
    opened ← outcome_of (call env (open_process pid))
    (elim opened [
      | err e ↦
          if is_absent e
          then return found
          else fail_with found (wrapped "open stable process handle" e)
      | ok _ ↦ (do read ← outcome_of (identity pid); examine path found pid read)
    ])

  unfoldable pub scan_candidates : Text → Option ℕ → List ℕ → M (Option ℕ)
  scan_candidates path found [] = return found
  scan_candidates path found (pid ∷ rest) = do
    found' ← probe path found pid
    scan_candidates path found' rest

  -- `findProcessBySocket`
  unfoldable pub find_process_by_socket : Text → M (Option ℕ)
  find_process_by_socket path = do
    pids ← map_err (wrapped "list process candidates") (ask env env.pids (candidate_pids path))
    (elim pids [
      | [] ↦ return none
      | pid ∷ rest ↦ (do
        map_err (wrapped "resolve configured Firecracker executable identity")
            (call env (resolve_executable env.firecracker_bin))
        scan_candidates path none (pid ∷ rest))
    ])

  -- The second half of `stopDetachedProcess`.
  unfoldable pub kill_detached : ℕ → M (Unit {0})
  kill_detached pid = do
    sent ← outcome_of (call env (send_kill pid))
    (elim sent [
      | err e ↦ if is_absent e then done else throw (wrapped "kill Firecracker process" e)
      | ok _ ↦ (do
        ended ← outcome_of (call env (wait_process pid))
        (elim ended [
          | ok _ ↦ done
          | err e ↦
              if is_absent e then done else throw (wrapped "verify Firecracker process deletion" e)
        ]))
    ])

  -- `stopDetachedProcess` before its deferred function.
  unfoldable pub stop_open_process : ℕ → M (Unit {0})
  stop_open_process pid = do
    sent ← outcome_of (call env (send_term pid))
    (elim sent [
      | err e ↦ if is_absent e then done else throw (wrapped "stop Firecracker process" e)
      | ok _ ↦ (do
        ended ← outcome_of (call env (wait_process pid))
        (elim ended [
          | ok _ ↦ done
          | err e ↦
              if is_absent e
              then done
              else if is_running e
              then kill_detached pid
              else throw (wrapped "verify Firecracker process deletion" e)
        ]))
    ])

  unfoldable pub stop_detached_process : ℕ → M (Unit {0})
  stop_detached_process pid w =
      let (r, w') = stop_open_process pid w in
      let (s, w'') =
        map_err (wrapped "close Firecracker process handle") (call env (close_process pid)) w' in
      elim r [ ok _ ↦ (s, w'') | err e ↦ (err (join_fault e s), w'') ]

  unfoldable pub require_process_absent : Text → M (Unit {0})
  require_process_absent path = do
    found ← map_err (wrapped "verify Firecracker process deletion") (find_process_by_socket path)
    (elim found [
      | none ↦ done
      | some pid ↦ (do
        map_err (wrapped "verify Firecracker process deletion") (call env (close_process pid))
        throw (other "verify Firecracker process deletion: a process remains"))
    ])
