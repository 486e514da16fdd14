-- ===== src/Daemon/Guards.antt =====
-- A task whose cleanup is pending: only a destruction touches it.
use stockyard.Base.{◌≡◌, ◌⊎◌, inl, inr, String, some, ◌∷◌, err, eq_iff, arith, Option-cases}
use stockyard.Daemon.World.{
  Task, task_cleanup_pending, other, Env, World, M, select_task, ◌>>=◌, ◌>>◌, return,
}
use stockyard.Daemon.State.{cleanup_pending, find_task, get_task}
use stockyard.Daemon.Tasks.{
  reject_cleanup_pending, stop_task_locked, stop_admitted, fail_admitted, restart_admitted,
  fail_task_locked, restart_task_locked,
}
use stockyard.Daemon.Access.{
  get_attach_task, list_zfs_snapshots, list_recorded_snapshots, create_task_snapshot,
  restore_task_snapshot, list_admitted, create_admitted, restore_admitted,
}
use stockyard.Daemon.Snapshots.{list_task_snapshots}
use stockyard.Daemon.TearDown.{Same}

-- The method ends with an error, `ErrTaskCleanupPending` unless the row could not be read. It has made
-- no call but the one that reads the row, and has changed neither rows nor addresses.
abbrev pub Refused : {A : Type 0} → String → M A → World → Type 0
Refused id m w =
    Same w (m w).1
    × ((m w).1.history ≡ select_task id ∷ w.history)
    × ((m w).1.snapshots ≡ w.snapshots)
    × (((m w).0 ≡ err task_cleanup_pending) ⊎ ((text : String) × ((m w).0 ≡ err (other text))))

module _ (env : Env) (id : String) (t : Task) (w : World) (there : find_task id w.tasks ≡ some t)
    (marked : t.status ≡ cleanup_pending) where
  -- Every method that reads the row and looks at its status first.
  refuse :
      {A : Type 0} (k : Task → M A)
      → Refused id (get_task env id >>= λ task. (reject_cleanup_pending task >> k task)) w
  unfolding get_task
  refuse k =
      let q = eq_iff t.status cleanup_pending in
      elim (Option-cases (env.outcome (select_task id ∷ w.history))) [
        | inl e ↦ (ground (arith, q), ground (arith, q), ground (arith, q), inl (ground (arith, q)))
        | inr (text, e) ↦ (ground arith, ground arith, ground arith, inr (text, ground arith))
      ]

  -- A task whose row is marked `cleanup_pending` is not stopped, failed or restarted, no session is
  -- attached to it, and its snapshots are not listed, taken or restored: each of these methods ends
  -- with an error, its only call is the one that reads the row, and it leaves rows, addresses and
  -- recorded snapshots as they were.
  pub cleanup_pending-Refused :
      Refused id (stop_task_locked env id) w
      × Refused id (fail_task_locked env id) w
      × Refused id (restart_task_locked env id) w
      × Refused id (get_attach_task env id) w
      × Refused id (list_zfs_snapshots env id) w
      × Refused id (list_recorded_snapshots env id) w
      × Refused id (create_task_snapshot env id) w
      × Refused id (restore_task_snapshot env id) w
  unfolding stop_task_locked fail_task_locked restart_task_locked get_attach_task list_zfs_snapshots
      list_recorded_snapshots create_task_snapshot restore_task_snapshot
  cleanup_pending-Refused = (
    refuse (stop_admitted env id),
    refuse (fail_admitted env id),
    refuse (restart_admitted env id),
    refuse return,
    refuse (λ _. list_admitted env id),
    refuse (λ _. list_task_snapshots env id),
    refuse (λ _. create_admitted env id),
    refuse (restore_admitted env id),
  )
