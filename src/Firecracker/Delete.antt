-- ===== src/Firecracker/Delete.antt =====
-- `DeleteVM` of pkg/firecracker/client.go, with the paths and the looks at the host that it shares
-- with the client's other operations.
pub mod Verified
pub mod Order
pub mod Handles
use stockyard.Base.{
  ℕ, Text, codes, text_eq, Bool, true, false, not, ◌||◌, String, Option, none, some, List, [], ◌∷◌,
  ◌++◌, ok, err, lookup, erase, if◌then◌else◌,
}
use stockyard.Base.Steps.{◌>>=◌, ◌>>◌, return, throw, done, when, ignore, outcome_of, map_err}
use stockyard.Firecracker.Host.{
  Call, check_context, stat, list_interfaces, terminate, kill, exits_within, wait_child, archive,
  destroy_rootfs, rootfs_exists, remove_all, Fault, other, wrapped, is_not_exist, is_done, Env,
  TrackedProc, M, effect, call, ask,
}
use stockyard.Firecracker.Network.{tap_name_for_vm, delete_tap}
use stockyard.Firecracker.Processes.{
  find_process_by_socket, stop_detached_process, require_process_absent,
}

abbrev pub default_namespace : Text → Text
default_namespace namespace = if text_eq namespace [] then codes "default" else namespace

unfoldable pub mem_text : Text → List Text → Bool
mem_text name [] = false
mem_text name (t ∷ ts) = text_eq t name || mem_text name ts

module _ (env : Env) where
  abbrev pub vm_dir : Text → String → Text
  vm_dir namespace id = env.join (env.state_dir ∷ namespace ∷ codes id ∷ [])

  abbrev pub api_socket_path : Text → Text
  api_socket_path dir = env.join (dir ∷ codes "api.sock" ∷ [])

  abbrev pub vm_dataset_path : String → Text
  vm_dataset_path id = env.pool_name ++ codes "/" ++ env.vms_path ++ codes "/" ++ codes id

  -- `pathExists`
  unfoldable pub path_exists : Text → M Bool
  path_exists path w =
      let (r, w') = call env (stat path) w in
      elim r [
        | ok _ ↦ (ok true, w')
        | err e ↦ if is_not_exist e then (ok false, w') else (err e, w')
      ]

  -- `tapExists`
  unfoldable pub tap_exists : Text → M Bool
  tap_exists name = do names ← ask env env.texts list_interfaces; return (mem_text name names)

  -- `delete(c.procs, id)`
  abbrev pub forget : String → M (Unit {0})
  forget id w = (ok tt, record w { procs = erase id w.procs })

  -- A signal to a child, which may have ended before.
  unfoldable pub signal_child : String → Call → M (Unit {0})
  signal_child what c w =
      let (r, w') = call env c w in
      elim r [
        | ok _ ↦ (ok tt, w')
        | err e ↦ if is_done e then (ok tt, w') else (err (wrapped what e), w')
      ]

  -- The tracked process: SIGTERM, a second, SIGKILL.
  unfoldable pub stop_tracked : String → TrackedProc → M (Unit {0})
  unfolding signal_child
  stop_tracked id proc = do
    signal_child "stop Firecracker process" (terminate proc.pid)
    reaped ← λ w.
        let h = exits_within proc.pid 1 ∷ w.history in (ok (env.yes h), record w { history = h })
    when (not reaped)
        (do signal_child "kill Firecracker process" (kill proc.pid); effect (wait_child proc.pid))
    forget id

  -- A process that is not tracked, by its socket.
  unfoldable pub stop_untracked : Text → M (Unit {0})
  stop_untracked path = do
    found ← map_err (wrapped "read Firecracker process") (find_process_by_socket env path)
    (elim found [ none ↦ done | some pid ↦ stop_detached_process env pid ])

  unfoldable pub stop_process : String → Text → M (Unit {0})
  unfolding stop_tracked stop_untracked
  stop_process id path w = elim (lookup id w.procs) [
    | some proc ↦ stop_tracked id proc w
    | none ↦ stop_untracked path w
  ]

  unfoldable pub remove_tap : Text → M (Unit {0})
  unfolding tap_exists
  remove_tap name = do
    delete_tap env name
    there ← map_err (wrapped "verify TAP deletion") (tap_exists name)
    (if there then throw (other "verify TAP deletion: the device remains") else done)

  unfoldable pub remove_rootfs : Text → M (Unit {0})
  remove_rootfs dataset = do
    map_err (wrapped "destroy VM rootfs clone") (call env (destroy_rootfs dataset))
    there ←
        map_err (wrapped "verify VM rootfs clone deletion")
          (ask env env.yes (rootfs_exists dataset))
    (if there then throw (other "verify VM rootfs clone deletion: it remains") else done)

  unfoldable pub remove_directory : Text → M (Unit {0})
  unfolding path_exists
  remove_directory dir = do
    map_err (wrapped "failed to remove VM directory") (call env (remove_all dir))
    there ← map_err (wrapped "verify VM directory deletion") (path_exists dir)
    (if there then throw (other "verify VM directory deletion: it remains") else done)

  -- The process is stopped and shown to be absent.
  unfoldable pub end_process : String → Text → M (Unit {0})
  unfolding stop_process
  end_process id path = do stop_process id path; require_process_absent env path

  -- What belongs to a VM whose process has ended.
  unfoldable pub remove_resources : String → Text → M (Unit {0})
  unfolding remove_tap remove_rootfs remove_directory
  remove_resources id dir = do
    remove_tap (tap_name_for_vm id)
    when env.has_archive (ignore (call env (archive dir id (codes "delete_vm"))))
    when env.has_zfs (remove_rootfs (vm_dataset_path id))
    remove_directory dir

  -- `DeleteVM` with the directory of the VM.
  unfoldable pub delete_vm_at : String → Text → M (Unit {0})
  unfolding path_exists end_process remove_resources
  delete_vm_at id dir = do
    call env check_context
    map_err (wrapped "read VM directory") (path_exists dir)
    end_process id (api_socket_path dir)
    remove_resources id dir
    require_process_absent env (api_socket_path dir)

  unfoldable pub delete_vm : Text → String → M (Unit {0})
  unfolding delete_vm_at
  delete_vm namespace id = delete_vm_at id (vm_dir (default_namespace namespace) id)
