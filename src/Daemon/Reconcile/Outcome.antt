-- ===== src/Daemon/Reconcile/Outcome.antt =====
-- Which rows the reconciliation on start-up changes (pkg/daemon/daemon.go).
use stockyard.Base.{
  ◌≡◌, ◌≢◌, ◌⊎◌, inl, inr, ap, false, String, List, ◌∷◌, str_eq, eq_iff, arith, Option-cases,
}
use stockyard.Daemon.World.{Task, select_tasks, Env, World, call}
use stockyard.Daemon.State.{find_task, list_tasks, with_status, newest_first}
use stockyard.Daemon.Keeps.{Keeps}
use stockyard.Daemon.Status.{update_task_status_lem}
use stockyard.Daemon.Reconcile.{Vms, mark_stopped, reconcile_processes, reconcile_running_vms}

module _ (env : Env) (vms : Vms) where
  -- Marking another task leaves a row as it is.
  pub mark_stopped-other :
      (t : Task) (j : String) (w : World)
      → t.id ≢ j
      → find_task j (mark_stopped env vms t w).1.tasks ≡ find_task j w.tasks
  unfolding mark_stopped
  mark_stopped-other t j w ne = elim (update_task_status_lem env t.id "stopped" w).1 [
    | inl (same, _) ↦ ap (find_task j) same
    | inr (_, _, (n, rows), _) ↦ ground (arith, rows j, eq_iff t.id j)
  ]

  module _ (j : String) (v : World) where
    abbrev Unmoved : World → Type 0
    Unmoved w = find_task j w.tasks ≡ find_task j v.tasks

  -- The list that the reconciliation walks.
  abbrev pub listed : World → List Task
  listed w = newest_first (with_status "running" w.tasks)

  abbrev pub UsesProcesses : Type 0
  UsesProcesses = str_eq env.backend "apple-container" ≡ false

  pub run-list :
      (w : World)
      → UsesProcesses
      → let v = (call env select_tasks w).1 in
        ((reconcile_running_vms env vms w).1 ≡ v)
        ⊎ ((reconcile_running_vms env vms w).1 ≡ (reconcile_processes env vms (listed w) v).1)
  unfolding reconcile_running_vms list_tasks
  run-list w firecracker = elim (Option-cases (env.outcome (select_tasks ∷ w.history))) [
    | inr (text, e) ↦ inl (ground arith)
    | inl e ↦ inr (ground arith)
  ]
