-- ===== src/Daemon/Access.antt =====
-- The locked bodies of pkg/daemon/task_lifecycle.go: reads of a task, and its snapshots.
use stockyard.Base.{ℕ, String, List, ok, err, str_eq, ◌==◌, if◌then◌else◌}
use stockyard.Daemon.World.{
  Task, SnapshotRow, other, sync_workspace, create_snapshot, restore_snapshot, list_snapshots, Env,
  M, ◌>>=◌, ◌>>◌, return, when, call,
}
use stockyard.Daemon.State.{get_task}
use stockyard.Daemon.Snapshots.{record_snapshot, list_task_snapshots}
use stockyard.Daemon.Tasks.{reject_cleanup_pending, stop_task_locked}

module _ (env : Env) where
  -- `GetAttachTask`
  unfoldable pub get_attach_task : String → M Task
  get_attach_task id = do task ← get_task env id; reject_cleanup_pending task; return task

  unfoldable pub get_vm_cid : String → M ℕ
  unfolding get_attach_task
  get_vm_cid id = do
    task ← get_attach_task id
    λ w. if task.cid == 0 then (err (other "VM CID not available"), w) else (ok task.cid, w)

  unfoldable pub get_vsock_path : String → M String
  unfolding get_attach_task
  get_vsock_path id = do
    task ← get_attach_task id
    λ w.
        if str_eq task.vsock_path ""
        then (err (other "vsock path not available"), w)
        else (ok task.vsock_path, w)

  -- `tm.daemon.zfs == nil`
  unfoldable pub require_zfs : M (Unit {0})
  require_zfs w = if env.has_zfs then (ok tt, w) else (err (other "ZFS manager not available"), w)

  unfoldable pub list_admitted : String → M (List String)
  unfolding require_zfs
  list_admitted id = do
    require_zfs
    call env (list_snapshots id)
    λ w. (ok (env.names w.history), w)

  unfoldable pub list_zfs_snapshots : String → M (List String)
  unfolding list_admitted
  list_zfs_snapshots id = do task ← get_task env id; reject_cleanup_pending task; list_admitted id

  unfoldable pub list_recorded_snapshots : String → M (List SnapshotRow)
  list_recorded_snapshots id = do
    task ← get_task env id
    reject_cleanup_pending task
    list_task_snapshots env id

  unfoldable pub create_admitted : String → M String
  unfolding require_zfs
  create_admitted id = do
    require_zfs
    call env (sync_workspace id)
    call env (create_snapshot id)
    λ w. (do record_snapshot env id (env.text w.history); return (env.text w.history)) w

  unfoldable pub create_task_snapshot : String → M String
  create_task_snapshot id = do
    task ← get_task env id
    reject_cleanup_pending task
    create_admitted id

  unfoldable pub restore_admitted : String → Task → M (Unit {0})
  restore_admitted id task = do
    require_zfs
    when (str_eq task.status "running") (stop_task_locked env id)
    call env (restore_snapshot id)

  unfoldable pub restore_task_snapshot : String → M (Unit {0})
  restore_task_snapshot id = do
    task ← get_task env id
    reject_cleanup_pending task
    restore_admitted id task
