-- ===== src/Daemon/State.antt =====
-- The statements of pkg/daemon/state.go about the table `tasks`. `id` is its primary key. Each
-- statement is a call whose failure leaves the table as it was.
use stockyard.Base.{
  ℕ, Bool, true, false, not, ◌&&◌, String, Option, none, some, List, [], ◌∷◌, ◌++◌, ok, err, str_eq,
  ltb, ◌==◌, if◌then◌else◌,
}
use stockyard.Daemon.World.{
  Task, task_not_found, task_cleanup_pending, other, select_task, insert_task, read_status,
  delete_row, select_tasks, write_status, write_column, notify, Env, World, M, ◌>>=◌, ◌>>◌, when,
  effect, call,
}

abbrev pub cleanup_pending : String
cleanup_pending = "cleanup_pending"

-- `WHERE id = ?`
unfoldable pub find_task : String → List Task → Option Task
find_task id [] = none
find_task id (t ∷ ts) = if str_eq t.id id then some t else find_task id ts

-- `UPDATE tasks SET … WHERE id = ?`
unfoldable pub update_rows : String → (Task → Task) → List Task → List Task
update_rows id f [] = []
update_rows id f (t ∷ ts) = (if str_eq t.id id then f t else t) ∷ update_rows id f ts

-- `DELETE FROM tasks WHERE id = ?`
unfoldable pub delete_rows : String → List Task → List Task
delete_rows id [] = []
delete_rows id (t ∷ ts) = let rest = delete_rows id ts in if str_eq t.id id then rest else t ∷ rest

-- `WHERE status = ?`, or no condition where the text is empty.
unfoldable pub with_status : String → List Task → List Task
with_status status [] = []
with_status status (t ∷ ts) =
    let rest = with_status status ts in
    if str_eq status "" then t ∷ rest else if str_eq t.status status then t ∷ rest else rest

-- `ORDER BY created_at DESC`
unfoldable pub insert_newest : Task → List Task → List Task
insert_newest t [] = t ∷ []
insert_newest t (u ∷ us) =
    if ltb t.created_at u.created_at then u ∷ insert_newest t us else t ∷ u ∷ us

unfoldable pub newest_first : List Task → List Task
newest_first [] = []
newest_first (t ∷ ts) = insert_newest t (newest_first ts)

-- `WHERE cid = ? AND status = 'running'`
unfoldable pub find_cid : ℕ → List Task → Option Task
find_cid cid [] = none
find_cid cid (t ∷ ts) =
    if t.cid == cid && str_eq t.status "running" then some t else find_cid cid ts

-- No row, or the row.
abbrev pub or_not_found : String → Option Task → M Task
or_not_found id none w = (err (task_not_found id), w)
or_not_found id (some t) w = (ok t, w)

-- `RowsAffected() == 0`
abbrev pub affected : String → World → Bool
affected id w = elim (find_task id w.tasks) [ none ↦ false | some t ↦ true ]

-- The UPDATE of `UpdateTaskStatus`, which sets `stopped_at` too on a stop.
unfoldable pub set_status : String → ℕ → Task → Task
set_status status now t =
    if str_eq status "stopped"
    then record t { status = status; stopped_at = some now }
    else record t { status = status }

module _ (env : Env) where
  -- The row with a column written, or the error that there is no such row.
  unfoldable pub write_rows : String → (Task → Task) → M (Unit {0})
  write_rows id f w =
      if affected id w
      then (ok tt, record w { tasks = update_rows id f w.tasks })
      else (err (task_not_found id), w)

  unfoldable pub create_task : Task → M (Unit {0})
  create_task task w =
      if str_eq task.status cleanup_pending
      then (err task_cleanup_pending, w)
      else let (r, w') = call env (insert_task task.id) w in
        elim r [
          | err e ↦ (err e, w')
          | ok _ ↦
              if affected task.id w'
              then (err (other "failed to create task"), w')
              else (ok tt, record w' { tasks = w'.tasks ++ (task ∷ []) })
        ]

  unfoldable pub get_task : String → M Task
  get_task id = do call env (select_task id); λ w. or_not_found id (find_task id w.tasks) w

  unfoldable pub list_tasks : String → M (List Task)
  list_tasks status = do
    call env select_tasks
    λ w. (ok (newest_first (with_status status w.tasks)), w)

  unfoldable pub get_task_by_cid : ℕ → M Task
  get_task_by_cid cid = do
    call env select_tasks
    λ w. elim (find_cid cid w.tasks) [
      | none ↦ (err (other "no running task with CID"), w)
      | some t ↦ (ok t, w)
    ]

  unfoldable pub update_task_status : String → String → M (Unit {0})
  unfolding set_status
  update_task_status id status w =
      if str_eq status cleanup_pending
      then (err task_cleanup_pending, w)
      else (do
        call env (read_status id)
        old ← (λ v. or_not_found id (find_task id v.tasks) v)
        call env (write_status id status)
        (λ v. (
          ok tt,
          record v { tasks = update_rows id (set_status status (env.now v.history)) v.tasks },
        ))
        when (not (str_eq old.status status) && env.has_callback)
            (effect (notify id old.status status)))
          w

  unfoldable pub mark_task_cleanup_pending : String → M (Unit {0})
  unfolding write_rows
  mark_task_cleanup_pending id = do
    call env (write_status id cleanup_pending)
    write_rows id (λ t. record t { status = cleanup_pending })

  unfoldable pub update_task_vmid : String → String → M (Unit {0})
  unfolding write_rows
  update_task_vmid id vmid = do
    call env (write_column id "vmid")
    write_rows id (λ t. record t { vmid = vmid })

  unfoldable pub update_task_cid : String → ℕ → M (Unit {0})
  unfolding write_rows
  update_task_cid id cid = do
    call env (write_column id "cid")
    write_rows id (λ t. record t { cid = cid })

  unfoldable pub update_task_vsock_path : String → String → M (Unit {0})
  unfolding write_rows
  update_task_vsock_path id path = do
    call env (write_column id "vsock_path")
    write_rows id (λ t. record t { vsock_path = path })

  unfoldable pub update_task_ip : String → String → M (Unit {0})
  unfolding write_rows
  update_task_ip id ip = do
    call env (write_column id "ip")
    write_rows id (λ t. record t { ip = ip })

  unfoldable pub delete_task : String → M (Unit {0})
  delete_task id = do
    call env (delete_row id)
    λ w.
        if affected id w
        then (ok tt, record w { tasks = delete_rows id w.tasks })
        else (err (task_not_found id), w)
