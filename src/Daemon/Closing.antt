-- ===== src/Daemon/Closing.antt =====
-- The three calls that end `destroyTaskLocked`, each on its own: the mark, the release of the
-- address, the deletion of the row.
use stockyard.Base.{
  ◌≡◌, ◌≢◌, ◌⊎◌, inl, inr, refl, ap, ◌∙◌, String, Option, none, some, ◌∷◌, Text, lookup, str_eq,
  eq_iff, arith, ok, err, Option-cases, if◌then◌else◌,
}
use stockyard.Network.Pool.Results.{release_lem, calls_frame}
use stockyard.Daemon.World.{
  Task, Error, other, task_not_found, not_released, Env, World, release_ip, write_status,
  delete_row,
}
use stockyard.Daemon.State.{cleanup_pending, find_task, delete_task, mark_task_cleanup_pending}
use stockyard.Daemon.Rows.{map_row, find_task-update_rows, find_task-delete_rows}
use stockyard.Daemon.Tasks.{release_task_ip}
use stockyard.Daemon.Keeps.{Keeps, Closed}

-- The address that the pool holds for a task.
abbrev pub allocation_of : String → World → Option Text
allocation_of id w = elim w.pool [ none ↦ none | some p ↦ lookup id p.allocated ]

abbrev pub pending : Task → Task
pending t = record t { status = cleanup_pending }

-- What two worlds say of the tasks other than `id`.
abbrev pub SameOthers : String → World → World → Type 0
SameOthers id v w =
    (j : String)
    → id ≢ j
    → (find_task j w.tasks ≡ find_task j v.tasks) × (allocation_of j w ≡ allocation_of j v)

-- The row is there, as it was or marked.
abbrev pub Retained : String → Task → World → Type 0
Retained id task w =
    (find_task id w.tasks ≡ some task) ⊎ (find_task id w.tasks ≡ some (pending task))

module _ (env : Env) (id : String) where
  -- `MarkTaskCleanupPending` marks the row, or fails and changes no row.
  pub mark-cases :
      (w : World)
      → ((mark_task_cleanup_pending env id w).1.pool ≡ w.pool)
        × (((mark_task_cleanup_pending env id w).1.tasks ≡ w.tasks)
              × ((e : Error) × ((mark_task_cleanup_pending env id w).0 ≡ err e))
            ⊎ ((mark_task_cleanup_pending env id w).0 ≡ ok tt)
              × ((j : String)
                  → find_task j (mark_task_cleanup_pending env id w).1.tasks ≡ (
                      if str_eq id j
                      then map_row pending (find_task j w.tasks)
                      else find_task j w.tasks)))
  unfolding mark_task_cleanup_pending
  mark-cases w = elim (Option-cases (env.outcome (write_status id cleanup_pending ∷ w.history))) [
    | inr (text, e) ↦ (ground arith, inl (ground arith, (other text, ground arith)))
    | inl e ↦ elim (Option-cases (find_task id w.tasks)) [
      | inl q ↦ (ground arith, inl (ground arith, (task_not_found id, ground arith)))
      | inr (t, q) ↦ (
        ground arith,
        inr (
          ground arith,
          λ j. ground (arith, find_task-update_rows id j pending w.tasks (λ u. refl)),
        ),
      )
    ]
  ]

  pub delete-cases :
      (w : World)
      → ((delete_task env id w).1.pool ≡ w.pool)
        × (((delete_task env id w).1.tasks ≡ w.tasks)
              × ((e : Error) × ((delete_task env id w).0 ≡ err e))
            ⊎ ((delete_task env id w).0 ≡ ok tt)
              × ((j : String)
                  → find_task j (delete_task env id w).1.tasks
                    ≡ (if str_eq id j then none else find_task j w.tasks)))
  unfolding delete_task
  delete-cases w = elim (Option-cases (env.outcome (delete_row id ∷ w.history))) [
    | inr (text, e) ↦ (ground arith, inl (ground arith, (other text, ground arith)))
    | inl e ↦ elim (Option-cases (find_task id w.tasks)) [
      | inl q ↦ (ground arith, inl (ground arith, (task_not_found id, ground arith)))
      | inr (t, q) ↦ (
        ground arith,
        inr (ground arith, λ j. ground (arith, find_task-delete_rows id j w.tasks)),
      )
    ]
  ]

  -- `Release` by the daemon: the rows stay, other tasks' addresses stay, and the task's own address
  -- is gone where no error is returned; with an error the pool is as it was.
  pub release-cases :
      (w : World)
      → ((release_task_ip env id w).1.tasks ≡ w.tasks)
        × ((j : String) → id ≢ j → allocation_of j (release_task_ip env id w).1 ≡ allocation_of j w)
        × (((release_task_ip env id w).0 ≡ ok tt)
              × (allocation_of id (release_task_ip env id w).1 ≡ none)
            ⊎ ((release_task_ip env id w).1.pool ≡ w.pool)
              × ((e : Error) × ((release_task_ip env id w).0 ≡ err e)))
  unfolding release_task_ip
  release-cases w = elim (Option-cases w.pool) [
    | inl q ↦ (ground arith, λ j h. ground arith, inl (ground arith, ground arith))
    | inr (p, q) ↦
        let f = env.disk_fails (release_ip id ∷ w.history) in
        let l = release_lem f id w.disk p in
        elim l [
          | inl (e, gone) ↦ (
            ground arith,
            λ j h. ground (arith, (calls_frame f id w.disk p j h).1),
            inl (ground arith, ground (arith, gone)),
          )
          | inr (pe, e, same) ↦ (
            ground arith,
            λ j h. ground (arith, (calls_frame f id w.disk p j h).1),
            inr (ground (arith, same), (not_released pe, ground arith)),
          )
        ]
  ]

  pub others-Keeps-mark : (v : World) → Keeps (SameOthers id v) (mark_task_cleanup_pending env id)
  others-Keeps-mark v w h j ne = elim (mark-cases w).1 [
    | inl (same, _) ↦ ground (arith, h j ne, mark-cases w)
    | inr (_, rows) ↦ ground (arith, h j ne, mark-cases w, rows j, eq_iff id j)
  ]

  pub others-Keeps-release : (v : World) → Keeps (SameOthers id v) (release_task_ip env id)
  others-Keeps-release v w h j ne =
      let c = release-cases w in (ap (find_task j) c.0 ∙ (h j ne).0, c.1 j ne ∙ (h j ne).1)

  pub others-Keeps-delete : (v : World) → Keeps (SameOthers id v) (delete_task env id)
  others-Keeps-delete v w h j ne = elim (delete-cases w).1 [
    | inl (same, _) ↦ ground (arith, h j ne, delete-cases w)
    | inr (_, rows) ↦ ground (arith, h j ne, delete-cases w, rows j, eq_iff id j)
  ]

  pub others-Closed : (v : World) → Closed (SameOthers id v)
  others-Closed v c w h = h
