-- ===== src/Firecracker/Delete/Order.antt =====
-- What a deletion does to what belongs to a VM whose process may still run, and the handles that
-- it leaves open.
use stockyard.Base.{
  ℕ, suc, ◌≡◌, refl, Result, inl, inr, Text, String, Option, none, some, List, [], ◌∷◌, ok, err,
  is_ok, Bool, false, arith, lookup, Option-cases, Result-cases,
}
use stockyard.Firecracker.Host.{
  Call, check_context, ip, remove_all, destroy_rootfs, archive, Env, Client, M, call, Fault,
  open_process, read_identity, candidate_pids, resolve_executable,
}
use stockyard.Firecracker.Processes.{
  find_process_by_socket, scan_candidates, probe, examine, fail_with, or_fail, fail_closing,
  close_handle, stop_open_process, kill_detached, stop_detached_process, require_process_absent,
}
use stockyard.Firecracker.Delete.{
  default_namespace, vm_dir, api_socket_path, path_exists, signal_child, stop_tracked,
  stop_untracked, stop_process, end_process, delete_vm_at, delete_vm,
}

-- How many calls delete or archive what belongs to a VM: every `ip` command counts.
unfoldable pub removals : List Call → ℕ
removals [] = 0
removals (ip _ ∷ h) = suc (removals h)
removals (remove_all _ ∷ h) = suc (removals h)
removals (destroy_rootfs _ ∷ h) = suc (removals h)
removals (archive _ _ _ ∷ h) = suc (removals h)
removals (_ ∷ h) = removals h

module _ (env : Env) where
  -- No call of `m` removes anything.
  abbrev Spares : {A : Type 0} → M A → Type 0
  Spares m = (w : Client) → removals (m w).1.history ≡ removals w.history

  examine-Spares :
      (path : Text) (found : Option ℕ) (pid : ℕ) (read : Result Fault (List Text × Bool))
      → Spares (examine env path found pid read)
  unfolding examine fail_with or_fail fail_closing close_handle removals
  examine-Spares path none pid (err e) w = ground arith
  examine-Spares path (some q) pid (err e) w = ground arith
  examine-Spares path none pid (ok (arguments, same)) w = ground arith
  examine-Spares path (some q) pid (ok (arguments, same)) w = ground arith

  probe-Spares : (path : Text) (found : Option ℕ) (pid : ℕ) → Spares (probe env path found pid)
  unfolding probe fail_with close_handle removals
  probe-Spares path found pid w =
      let h₁ = open_process pid ∷ w.history in
      let h₂ = read_identity pid ∷ h₁ in
      elim (Option-cases (env.outcome h₁)) [
        | inr (e, q) ↦ elim (Option-cases found) [
          | inl f ↦ ground arith
          | inr (first, f) ↦ ground arith
        ]
        | inl q ↦ elim (Option-cases (env.outcome h₂)) [
          | inr (e, s) ↦
              ground (arith, examine-Spares path found pid (err e) (record w { history = h₂ }))
          | inl s ↦ ground (
            arith,
            examine-Spares path found pid (ok (env.texts h₂, env.yes h₂))
                (record w { history = h₂ }),
          )
        ]
      ]

  scan_candidates-Spares :
      (path : Text) (found : Option ℕ) (pids : List ℕ)
      → Spares (scan_candidates env path found pids)
  unfolding scan_candidates
  scan_candidates-Spares path found [] w = refl
  scan_candidates-Spares path found (pid ∷ rest) w =
      let w₁ = (probe env path found pid w).1 in
      elim (Result-cases (probe env path found pid w).0) [
        | inr (e, q) ↦ ground (arith, probe-Spares path found pid w)
        | inl (next, q) ↦
            ground (arith, probe-Spares path found pid w, scan_candidates-Spares path next rest w₁)
      ]

  find_process-Spares : (path : Text) → Spares (find_process_by_socket env path)
  unfolding find_process_by_socket removals
  find_process-Spares path w =
      let h₁ = candidate_pids path ∷ w.history in
      let h₂ = resolve_executable env.firecracker_bin ∷ h₁ in
      elim (Option-cases (env.outcome h₁)) [
        | inr (e, q) ↦ ground arith
        | inl q ↦ elim (Option-cases (env.outcome h₂)) [
          | inr (e, s) ↦ ground arith
          | inl s ↦
              ground
                (arith, scan_candidates-Spares path none (env.pids h₁) (record w { history = h₂ }))
        ]
      ]

  stop_detached-Spares : (pid : ℕ) → Spares (stop_detached_process env pid)
  unfolding stop_open_process kill_detached stop_detached_process removals
  stop_detached-Spares pid w = ground arith

  stop_process-Spares : (id : String) (path : Text) → Spares (stop_process env id path)
  unfolding stop_process stop_tracked stop_untracked signal_child removals
  stop_process-Spares id path w = elim (Option-cases (lookup id w.procs)) [
    | inr (proc, q) ↦ ground arith
    | inl q ↦ elim (Result-cases (find_process_by_socket env path w).0) [
      | inr (e, s) ↦ ground (arith, find_process-Spares path w)
      | inl (found, s) ↦
          let w₁ = (find_process_by_socket env path w).1 in
          elim (Option-cases found) [
            | inl t ↦ ground (arith, find_process-Spares path w)
            | inr (pid, t) ↦ ground (arith, find_process-Spares path w, stop_detached-Spares pid w₁)
          ]
    ]
  ]

  require_absent-Spares : (path : Text) → Spares (require_process_absent env path)
  unfolding require_process_absent removals
  require_absent-Spares path w = elim (Result-cases (find_process_by_socket env path w).0) [
    | inr (e, s) ↦ ground (arith, find_process-Spares path w)
    | inl (found, s) ↦ elim (Option-cases found) [
      | inl t ↦ ground (arith, find_process-Spares path w)
      | inr (pid, t) ↦ ground (arith, find_process-Spares path w)
    ]
  ]

  end_process-Spares : (id : String) (path : Text) → Spares (end_process env id path)
  unfolding end_process
  end_process-Spares id path w =
      let w₁ = (stop_process env id path w).1 in
      elim (Result-cases (stop_process env id path w).0) [
        | inr (e, s) ↦ ground (arith, stop_process-Spares id path w)
        | inl (_, s) ↦ ground (arith, stop_process-Spares id path w, require_absent-Spares path w₁)
      ]

  -- The client when a deletion comes to the process.
  abbrev pub before_process : Text → String → Client → Client
  before_process namespace id w =
      (path_exists env (vm_dir env (default_namespace namespace) id) (call env check_context w).1).1

  abbrev pub socket_of : Text → String → Text
  socket_of namespace id = api_socket_path env (vm_dir env (default_namespace namespace) id)

  -- Where the process cannot be stopped or is not shown to be absent, `DeleteVM` fails, and no call
  -- of it has archived or removed what belongs to the VM.
  pub delete_vm-guarded :
      (namespace : Text) (id : String) (w : Client) (e : Fault)
      → (end_process env id (socket_of namespace id) (before_process namespace id w)).0 ≡ err e
      → let (r, v) = delete_vm env namespace id w in
        (is_ok r ≡ false) × (removals v.history ≡ removals w.history)
  unfolding delete_vm delete_vm_at path_exists removals
  delete_vm-guarded namespace id w e failed =
      ground (arith, end_process-Spares id (socket_of namespace id) (before_process namespace id w))
