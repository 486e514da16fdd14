-- ===== src/Firecracker/Delete/Handles.antt =====
-- A deletion leaves no process handle open.
use stockyard.Base.{
  ℕ, ◌+◌, ◌≡◌, inl, inr, Text, String, none, some, arith, lookup, Option-cases, Result-cases, codes,
}
use stockyard.Base.Steps.{when, ignore}
use stockyard.Firecracker.Host.{check_context, archive, Env, Client, M, call}
use stockyard.Firecracker.Network.{tap_name_for_vm, delete_tap, link_exists}
use stockyard.Firecracker.Processes.{
  find_process_by_socket, stop_open_process, kill_detached, stop_detached_process,
  require_process_absent,
}
use stockyard.Firecracker.Processes.Handles.{opened, closed, Balance, find_process-Balance}
use stockyard.Firecracker.Delete.{
  default_namespace, vm_dir, vm_dataset_path, api_socket_path, path_exists, tap_exists,
  signal_child, stop_tracked, stop_untracked, stop_process, end_process, remove_tap, remove_rootfs,
  remove_directory, remove_resources, delete_vm_at, delete_vm,
}

module _ (env : Env) (p : ℕ) where
  -- Every handle that `m` opens it closes.
  abbrev Even : {A : Type 0} → M A → Type 0
  Even m = (w : Client) → Balance env p none none w (m w).1

  stop_detached-Balance :
      (pid : ℕ) (w : Client) → Balance env p (some pid) none w (stop_detached_process env pid w).1
  unfolding stop_open_process kill_detached stop_detached_process opened closed
  stop_detached-Balance pid w = ground arith

  stop_process-Even : (id : String) (path : Text) → Even (stop_process env id path)
  unfolding stop_process stop_tracked stop_untracked signal_child opened closed
  stop_process-Even id path w = elim (Option-cases (lookup id w.procs)) [
    | inr (proc, q) ↦ ground arith
    | inl q ↦
        let w₁ = (find_process_by_socket env path w).1 in
        elim (Result-cases (find_process_by_socket env path w).0) [
          | inr (e, s) ↦ ground (arith, find_process-Balance env p path w)
          | inl (found, s) ↦ elim (Option-cases found) [
            | inl t ↦ ground (arith, find_process-Balance env p path w)
            | inr (pid, t) ↦
                ground (arith, find_process-Balance env p path w, stop_detached-Balance pid w₁)
          ]
        ]
  ]

  require_absent-Even : (path : Text) → Even (require_process_absent env path)
  unfolding require_process_absent opened closed
  require_absent-Even path w = elim (Result-cases (find_process_by_socket env path w).0) [
    | inr (e, s) ↦ ground (arith, find_process-Balance env p path w)
    | inl (found, s) ↦ elim (Option-cases found) [
      | inl t ↦ ground (arith, find_process-Balance env p path w)
      | inr (pid, t) ↦ ground (arith, find_process-Balance env p path w)
    ]
  ]

  end_process-Even : (id : String) (path : Text) → Even (end_process env id path)
  unfolding end_process
  end_process-Even id path w =
      let w₁ = (stop_process env id path w).1 in
      elim (Result-cases (stop_process env id path w).0) [
        | inr (e, s) ↦ ground (arith, stop_process-Even id path w)
        | inl (_, s) ↦ ground (arith, stop_process-Even id path w, require_absent-Even path w₁)
      ]

  remove_tap-Even : (name : Text) → Even (remove_tap env name)
  unfolding remove_tap delete_tap link_exists tap_exists opened closed
  remove_tap-Even name w = ground arith

  remove_rootfs-Even : (dataset : Text) → Even (remove_rootfs env dataset)
  unfolding remove_rootfs opened closed
  remove_rootfs-Even dataset w = ground arith

  remove_directory-Even : (dir : Text) → Even (remove_directory env dir)
  unfolding remove_directory path_exists opened closed
  remove_directory-Even dir w = ground arith

  remove_resources-Even : (id : String) (dir : Text) → Even (remove_resources env id dir)
  unfolding remove_resources opened closed
  remove_resources-Even id dir w =
      let w₁ = (remove_tap env (tap_name_for_vm id) w).1 in
      let w₂ =
        (when env.has_archive (ignore (call env (archive dir id (codes "delete_vm")))) w₁).1 in
      let w₃ = (when env.has_zfs (remove_rootfs env (vm_dataset_path env id)) w₂).1 in
      ground (
        arith,
        remove_tap-Even (tap_name_for_vm id) w,
        remove_rootfs-Even (vm_dataset_path env id) w₂,
        remove_directory-Even dir w₃,
      )

  -- However it ends, `DeleteVM` closes every process handle as often as it opens it.
  pub delete_vm-Even :
      (namespace : Text) (id : String) (w : Client)
      → let v = (delete_vm env namespace id w).1 in
        opened env p v.history + closed p w.history ≡ opened env p w.history + closed p v.history
  unfolding delete_vm delete_vm_at path_exists opened closed
  delete_vm-Even namespace id w =
      let dir = vm_dir env (default_namespace namespace) id in
      let path = api_socket_path env dir in
      let w₁ = (path_exists env dir (call env check_context w).1).1 in
      let w₂ = (end_process env id path w₁).1 in
      let w₃ = (remove_resources env id dir w₂).1 in
      ground (
        arith,
        end_process-Even id path w₁,
        remove_resources-Even id dir w₂,
        require_absent-Even path w₃,
      )
