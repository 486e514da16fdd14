-- ===== src/Daemon/Reconcile.antt =====
-- The reconciliation of pkg/daemon/daemon.go, when the daemon starts: rows that say `running` against
-- the processes or the backend's VMs.
pub mod Outcome
pub mod Dead
use stockyard.Base.{
  ℤ, Bool, true, false, not, ◌&&◌, ◌||◌, String, Option, none, some, List, [], ◌∷◌, ok, err, str_eq,
  if◌then◌else◌,
}
use stockyard.Daemon.World.{
  Task, Error, list_vms, ensure_log_follower, Env, World, M, ◌>>=◌, ◌>>◌, done, when, ignore, call,
}
use stockyard.Daemon.State.{list_tasks, update_task_status}

-- What the host and the backend say. `pid_file` is the number that fmt.Sscanf reads in a task's
-- `firecracker.pid`, where there is a file and a number in it.
pub record Vms : Type 0 where
  pub pid_file : String → Option (Option ℤ)
  pub process_there : ℤ → Bool
  pub answers : ℤ → Bool
  pub states : List (String × String)
  pub has_log_ensurer : Bool

module _ (env : Env) (vms : Vms) where
  -- The process of a task is there and takes signal 0.
  unfoldable pub is_alive : String → Bool
  is_alive id = elim (vms.pid_file id) [
    | none ↦ false
    | some found ↦ elim found [ none ↦ false | some pid ↦ vms.process_there pid && vms.answers pid ]
  ]

  -- `running[id]`
  unfoldable pub is_listed : String → List (String × String) → Bool
  is_listed id [] = false
  is_listed id ((vm_id, status) ∷ states) =
      (str_eq vm_id id && str_eq status "running") || is_listed id states

  unfoldable pub mark_stopped : Task → M (Unit {0})
  mark_stopped task = ignore (update_task_status env task.id "stopped")

  unfoldable pub reconcile_processes : List Task → M (Unit {0})
  unfolding mark_stopped
  reconcile_processes [] = done
  reconcile_processes (t ∷ ts) = do
    when (not (is_alive t.id)) (mark_stopped t)
    reconcile_processes ts

  unfoldable pub reconcile_containers : List Task → M (Unit {0})
  unfolding mark_stopped
  reconcile_containers [] = done
  reconcile_containers (t ∷ ts) = do
    when (not (is_listed t.vmid vms.states)) (mark_stopped t)
    when (is_listed t.vmid vms.states && (vms.has_log_ensurer && not (str_eq t.vmid "")))
        (ignore (call env (ensure_log_follower t.vmid)))
    reconcile_containers ts

  unfoldable pub reconcile_via_backend : List Task → M (Unit {0})
  unfolding reconcile_containers
  reconcile_via_backend tasks =
      when env.has_backend (ignore (do call env list_vms; reconcile_containers tasks))

  unfoldable pub reconcile_running_vms : M (Unit {0})
  unfolding reconcile_processes reconcile_via_backend
  reconcile_running_vms = ignore (do
    tasks ← list_tasks env "running"
    if str_eq env.backend "apple-container"
        then reconcile_via_backend tasks
        else reconcile_processes tasks)
