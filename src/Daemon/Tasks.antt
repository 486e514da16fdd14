-- ===== src/Daemon/Tasks.antt =====
-- The locked bodies of pkg/daemon/tasks.go that stop, fail, restart and destroy a task.
use stockyard.Base.{
  Bool, true, false, not, ◌&&◌, ◌||◌, String, Option, none, some, List, [], ◌∷◌, Result, ok, err,
  str_eq, if◌then◌else◌, ◌==◌,
}
use stockyard.Network.Pool.Defs.{release}
use stockyard.Daemon.World.{
  Task, VmInfo, Error, task_not_found, task_cleanup_pending, task_not_stopped, canceled,
  not_allocated, not_released, other, joined, stop_tailing, stop_metrics, tail_logs, start_vm,
  stop_vm, delete_vm, destroy_dataset, dataset_exists, vm_started, vm_stopped, vm_failed,
  remove_device, release_ip, Env, World, M, ◌>>=◌, ◌>>◌, done, when, ignore, effect, call,
  check_ctx,
}
use stockyard.Daemon.State.{
  cleanup_pending, get_task, list_tasks, update_task_status, mark_task_cleanup_pending,
  update_task_cid, update_task_vsock_path, update_task_ip, delete_task,
}

-- `errors.Is(err, ErrTaskNotFound)`
unfoldable pub is_not_found : Error → Bool
is_not_found (task_not_found id) = true
is_not_found task_cleanup_pending = false
is_not_found (task_not_stopped id status) = false
is_not_found canceled = false
is_not_found (not_allocated e) = false
is_not_found (not_released e) = false
is_not_found (other text) = false
is_not_found (joined d e) = is_not_found d || is_not_found e

-- `rejectCleanupPending`
abbrev pub reject_cleanup_pending : Task → M (Unit {0})
reject_cleanup_pending task w =
    if str_eq task.status cleanup_pending then (err task_cleanup_pending, w) else (ok tt, w)

module _ (env : Env) where
  abbrev pub has_vm : Task → Bool
  has_vm task = env.has_backend && not (str_eq task.vmid "")

  -- `tm.daemon.zfs != nil` on a Firecracker daemon.
  abbrev pub uses_zfs : Bool
  uses_zfs = env.has_zfs && (str_eq env.backend "" || str_eq env.backend "firecracker")

  -- Log tailing and metrics end.
  unfoldable pub stop_watching : String → M (Unit {0})
  stop_watching id = do
    when env.has_log_tailer (effect (stop_tailing id))
    when env.has_metrics_poller (effect (stop_metrics id))

  unfoldable pub stop_admitted : String → Task → M (Unit {0})
  stop_admitted id task = do
    stop_watching id
    when (has_vm task) (ignore (call env (stop_vm task.vmid)))
    update_task_status env id "stopped"
    when env.has_activity_feed (effect (vm_stopped id))

  unfoldable pub stop_task_locked : String → M (Unit {0})
  stop_task_locked id = do
    task ← get_task env id
    reject_cleanup_pending task
    stop_admitted id task

  unfoldable pub fail_admitted : String → Task → M (Unit {0})
  fail_admitted id task = do
    stop_watching id
    update_task_status env id "failed"
    when env.has_activity_feed (effect (vm_failed id))

  unfoldable pub fail_task_locked : String → M (Unit {0})
  fail_task_locked id = do
    task ← get_task env id
    reject_cleanup_pending task
    fail_admitted id task

  -- The connection info of the started VM; a failure to store it is only logged.
  unfoldable pub store_info : String → VmInfo → M (Unit {0})
  store_info id info = do
    when (not (info.cid == 0)) (ignore (update_task_cid env id info.cid))
    when (not (str_eq info.vsock_path "")) (ignore (update_task_vsock_path env id info.vsock_path))
    when (not (str_eq info.ip "")) (ignore (update_task_ip env id info.ip))

  -- The start of the VM; a failure makes the task `failed`, and that update's error is dropped.
  unfoldable pub start_or_fail : String → Task → M (Option VmInfo)
  start_or_fail id task w =
      let (r, w') = call env (start_vm task.vmid) w in
      let started : Result Error (Option VmInfo) × World = elim r [
        | ok _ ↦ (ok (some (env.vm_info w'.history)), w')
        | err e ↦ let (_, w'') = update_task_status env id "failed" w' in (err e, w'')
      ] in
      if has_vm task then started else (ok none, w)

  unfoldable pub store_vm : String → Option VmInfo → M (Unit {0})
  unfolding store_info
  store_vm id none = done
  store_vm id (some info) = store_info id info

  unfoldable pub require_stopped : String → Task → M (Unit {0})
  require_stopped id task w =
      if str_eq task.status "stopped" || str_eq task.status "failed"
      then (ok tt, w)
      else (err (task_not_stopped id task.status), w)

  -- The restart of a task that is stopped or failed.
  unfoldable pub restart_stopped : String → Task → M (Unit {0})
  restart_stopped id task = do
    update_task_status env id "starting"
    info ← start_or_fail id task
    update_task_status env id "running"
    store_vm id info
    when (env.has_log_tailer && not (str_eq task.vmid "")) (effect (tail_logs id))
    when env.has_activity_feed (effect (vm_started id))

  unfoldable pub restart_admitted : String → Task → M (Unit {0})
  restart_admitted id task = do require_stopped id task; restart_stopped id task

  unfoldable pub restart_task_locked : String → M (Unit {0})
  restart_task_locked id = do
    task ← get_task env id
    reject_cleanup_pending task
    restart_admitted id task

  -- `destroyTaskLocked` up to the point where the VM is gone.
  unfoldable pub destroy_vm : Task → M (Unit {0})
  destroy_vm task = when (has_vm task) (call env (delete_vm task.vmid) >> check_ctx env)

  -- The workspace is destroyed, and looked for once more.
  unfoldable pub verify_gone : M (Unit {0})
  verify_gone w =
      if env.dataset_there w.history then (err (other "dataset remains"), w) else (ok tt, w)

  unfoldable pub look_for_workspace : String → M (Unit {0})
  unfolding verify_gone
  look_for_workspace id = do call env (dataset_exists id); verify_gone; check_ctx env

  unfoldable pub destroy_workspace : String → M (Unit {0})
  unfolding look_for_workspace
  destroy_workspace id =
      when uses_zfs ((call env (destroy_dataset id) >> check_ctx env) >> look_for_workspace id)

  -- The dashboard is told, and the Tailscale device is given up.
  unfoldable pub announce_gone : String → Task → M (Unit {0})
  announce_gone id task = do
    when (str_eq task.status "running" && env.has_activity_feed) (effect (vm_stopped id))
    when (not (str_eq task.tailscale_hostname ""))
        (ignore (call env (remove_device task.tailscale_hostname)))
    check_ctx env

  -- All that goes before the row is touched.
  unfoldable pub tear_down : String → Task → M (Unit {0})
  tear_down id task = do
    stop_watching id
    destroy_vm task
    destroy_workspace id
    announce_gone id task

  unfoldable pub mark_pending : String → Task → M (Unit {0})
  mark_pending id task =
      when (not (str_eq task.status cleanup_pending))
        (do mark_task_cleanup_pending env id; check_ctx env)

  -- `IPPool().Release`, where the daemon has a pool.
  unfoldable pub release_task_ip : String → M (Unit {0})
  release_task_ip id w = elim w.pool [
    | none ↦ (ok tt, w)
    | some p ↦
        let h = release_ip id ∷ w.history in
        let (e, p', d') = release (env.disk_fails h) id p w.disk in
        let w' = record w { pool = some p'; disk = d'; history = h } in
        elim e [ none ↦ (ok tt, w') | some pe ↦ (err (not_released pe), w') ]
  ]

  -- The mark, and the release of the address.
  unfoldable pub let_go : String → Task → M (Unit {0})
  let_go id task = do mark_pending id task; release_task_ip id; check_ctx env

  unfoldable pub settle : String → Task → M (Unit {0})
  settle id task = do let_go id task; delete_task env id

  unfoldable pub destroy_task_locked : String → M (Unit {0})
  destroy_task_locked id = do
    check_ctx env
    λ w.
        let (r, w') = get_task env id w in
        elim r [
          | ok task ↦ (do tear_down id task; settle id task) w'
          | err e ↦ if is_not_found e then (ok tt, w') else (err e, w')
        ]

  -- The loop of `DestroyTasksByImage`: the first error ends it.
  unfoldable pub destroy_each : String → List Task → M (Unit {0})
  destroy_each image [] = done
  destroy_each image (t ∷ ts) =
      if str_eq t.image image
      then (do destroy_task_locked t.id; destroy_each image ts)
      else destroy_each image ts

  unfoldable pub destroy_tasks_by_image : String → M (Unit {0})
  unfolding destroy_each
  destroy_tasks_by_image image = do tasks ← list_tasks env ""; destroy_each image tasks

  -- `cleanupCreateTask`: what a failed creation undoes. The address is kept where the VM may remain.
  unfoldable pub cleanup_create_task : String → String → Bool → World → List Error × World
  cleanup_create_task id vm_id dataset_created w =
      let (r, w₁) =
        when (env.has_backend && not (str_eq vm_id "")) (call env (delete_vm vm_id)) w in
      let (s, w₂) = when (dataset_created && env.has_zfs) (call env (destroy_dataset id)) w₁ in
      elim r [
        | err e ↦ elim s [ err e' ↦ (e ∷ e' ∷ [], w₂) | ok _ ↦ (e ∷ [], w₂) ]
        | ok _ ↦
            let (t, w₃) = release_task_ip id w₂ in
            elim s [
              | err e' ↦ elim t [ err e'' ↦ (e' ∷ e'' ∷ [], w₃) | ok _ ↦ (e' ∷ [], w₃) ]
              | ok _ ↦ elim t [ err e'' ↦ (e'' ∷ [], w₃) | ok _ ↦ ([], w₃) ]
            ]
      ]
