-- ===== src/Daemon/Status.antt =====
-- `UpdateTaskStatus`, and the status that each method leaves.
use stockyard.Base.{
  ℕ, ◌≡◌, ◌≢◌, ◌⊎◌, inl, inr, not, ◌&&◌, String, some, ◌∷◌, ok, err, str_eq, eq_iff, arith,
  Option-cases, Bool-cases, if◌then◌else◌,
}
use stockyard.Daemon.World.{
  Task, Error, task_not_found, task_cleanup_pending, other, read_status, write_status, notify, Env,
  World,
}
use stockyard.Daemon.State.{cleanup_pending, find_task, set_status, update_task_status}
use stockyard.Daemon.Rows.{map_row, find_task-update_rows}

pub set_status-id : (status : String) (n : ℕ) (t : Task) → (set_status status n t).id ≡ t.id
unfolding set_status
set_status-id status n t = ground arith

pub set_status-status :
    (status : String) (n : ℕ) (t : Task) → (set_status status n t).status ≡ status
unfolding set_status
set_status-status status n t = ground arith

module _ (env : Env) (id status : String) (w : World) where
  abbrev updated : World
  updated = (update_task_status env id status w).1

  -- An update with no error writes the status of the one row, and tells the callback exactly where
  -- the status is another than before: the last call is the notification, or the write. An update
  -- with an error leaves every row as it was. The pool is as it was in both cases.
  pub update_task_status_lem :
      (updated.pool ≡ w.pool)
      × ((updated.tasks ≡ w.tasks)
            × ((e : Error) × ((update_task_status env id status w).0 ≡ err e))
          ⊎ ((update_task_status env id status w).0 ≡ ok tt)
            × (status ≢ cleanup_pending)
            × ((n : ℕ) × ((j : String)
                  → find_task j updated.tasks ≡ (
                      if str_eq id j
                      then map_row (set_status status n) (find_task j w.tasks)
                      else find_task j w.tasks)))
            × ((t : Task) × (find_task id w.tasks ≡ some t)
                × (updated.history ≡ (
                    let h = write_status id status ∷ read_status id ∷ w.history in
                    if not (str_eq t.status status) && env.has_callback
                    then notify id t.status status ∷ h
                    else h))))
  unfolding update_task_status
  update_task_status_lem = elim (Bool-cases (str_eq status cleanup_pending)) [
    | inl q ↦ (ground arith, inl (ground arith, (task_cleanup_pending, ground arith)))
    | inr q ↦ elim (Option-cases (env.outcome (read_status id ∷ w.history))) [
      | inr (text, e) ↦ (ground arith, inl (ground arith, (other text, ground arith)))
      | inl e ↦ elim (Option-cases (find_task id w.tasks)) [
        | inl m ↦ (ground arith, inl (ground arith, (task_not_found id, ground arith)))
        | inr (t, m) ↦
            elim (Option-cases
              (env.outcome (write_status id status ∷ read_status id ∷ w.history))) [
                | inr (text, e') ↦ (ground arith, inl (ground arith, (other text, ground arith)))
                | inl e' ↦
                    let n = env.now (write_status id status ∷ read_status id ∷ w.history) in
                    let f = set_status status n in
                    (
                      ground arith,
                      inr (
                        ground arith,
                        λ c. ground (arith, eq_iff status cleanup_pending),
                        (
                          n,
                          λ j. ground (
                            arith,
                            find_task-update_rows id j f w.tasks (set_status-id status n),
                          ),
                        ),
                        (t, m, ground arith),
                      ),
                    )
              ]
      ]
    ]
  ]
