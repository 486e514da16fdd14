-- ===== src/Daemon/Methods.antt =====
-- What stopping, failing and restarting a task have in common: they touch its own row only, and
-- never mark it `cleanup_pending`.
use stockyard.Base.{
  ◌≡◌, ◌≢◌, inl, inr, refl, sym, ap, ◌∙◌, String, some, eq_iff, arith, Option-cases,
}
use stockyard.Daemon.World.{Task, Call, write_column, Env, World, ◌>>◌, call}
use stockyard.Daemon.State.{
  cleanup_pending, find_task, update_task_status, write_rows, update_task_cid,
  update_task_vsock_path, update_task_ip,
}
use stockyard.Daemon.Rows.{KeepsId, find_task-update_rows}
use stockyard.Daemon.Status.{update_task_status_lem, set_status-status}
use stockyard.Daemon.Keeps.{Keeps, Closed, then-Keeps, call-Keeps}
use stockyard.Daemon.Tasks.{stop_task_locked, fail_task_locked, restart_task_locked}
use stockyard.Daemon.Closing.{allocation_of, SameOthers}
use stockyard.Daemon.Bodies.{stop-Keeps, fail-Keeps, restart-Keeps}

-- No row of that id is marked.
abbrev pub Unmarked : String → World → Type 0
Unmarked j w = (t : Task) → find_task j w.tasks ≡ some t → t.status ≢ cleanup_pending

module _ (env : Env) (id : String) where
  status-Unmarked : (j s : String) → Keeps (Unmarked j) (update_task_status env id s)
  status-Unmarked j s w h t q = elim (update_task_status_lem env id s w).1 [
    | inl (same, _) ↦ h t (ap (find_task j) (sym same) ∙ q)
    | inr (fine, plain, (n, rows), _) ↦ elim (Option-cases (find_task j w.tasks)) [
      | inl z ↦ ground (arith, rows j)
      | inr (u, z) ↦ λ m. ground (arith, rows j, set_status-status s n u, h u z)
    ]
  ]

  write-Unmarked :
      (j : String) (f : Task → Task)
      → KeepsId f
      → ((t : Task) → (f t).status ≡ t.status)
      → Keeps (Unmarked j) (write_rows env id f)
  unfolding write_rows
  write-Unmarked j f keeps plain w h t q = elim (Option-cases (find_task id w.tasks)) [
    | inl z ↦ h t (ground arith)
    | inr (u, z) ↦ elim (Option-cases (find_task j w.tasks)) [
      | inl y ↦ ground (arith, find_task-update_rows id j f w.tasks keeps)
      | inr (v, y) ↦ λ m. ground (arith, find_task-update_rows id j f w.tasks keeps, plain v, h v y)
    ]
  ]

  status-others : (v : World) (s : String) → Keeps (SameOthers id v) (update_task_status env id s)
  status-others v s w h j ne =
      let l = update_task_status_lem env id s w in
      elim l.1 [
        | inl (same, _) ↦ ground (arith, h j ne, l.0)
        | inr (fine, plain, (n, rows), _) ↦ ground (arith, h j ne, l.0, rows j, eq_iff id j)
      ]

  write-others :
      (v : World) (f : Task → Task) → KeepsId f → Keeps (SameOthers id v) (write_rows env id f)
  unfolding write_rows
  write-others v f keeps w h j ne = elim (Option-cases (find_task id w.tasks)) [
    | inl z ↦ ground (arith, h j ne)
    | inr (u, z) ↦ ground (arith, h j ne, find_task-update_rows id j f w.tasks keeps, eq_iff id j)
  ]

  -- The column updates of a restart.
  module _ {ℓ} (P : World → Type ℓ) (closed : Closed P)
      (write : (f : Task → Task)
        → KeepsId f
        → ((t : Task) → (f t).status ≡ t.status)
        → Keeps P (write_rows env id f))
      (status_kept : (s : String) → Keeps P (update_task_status env id s)) where
    column :
        (c : Call) (f : Task → Task)
        → KeepsId f
        → ((t : Task) → (f t).status ≡ t.status)
        → Keeps P (call env c >> write_rows env id f)
    column c f keeps plain =
        then-Keeps P (call env c) (write_rows env id f) (call-Keeps P closed env c)
          (write f keeps plain)

    methods-Keep :
        Keeps P (stop_task_locked env id)
        × Keeps P (fail_task_locked env id)
        × Keeps P (restart_task_locked env id)
    unfolding update_task_cid update_task_vsock_path update_task_ip
    methods-Keep = (
      stop-Keeps P closed env id status_kept,
      fail-Keeps P closed env id status_kept,
      restart-Keeps P closed env id status_kept
          (λ n. column (write_column id "cid") (λ t. record t { cid = n }) (λ t. refl) (λ t. refl))
          (λ s.
            column (write_column id "vsock_path") (λ t. record t { vsock_path = s }) (λ t. refl)
              (λ t. refl))
          (λ s. column (write_column id "ip") (λ t. record t { ip = s }) (λ t. refl) (λ t. refl)),
    )

  -- Stopping, failing or restarting a task leaves the rows and the addresses of all other tasks as
  -- they were, on every way out.
  pub methods_frame :
      (v : World) (j : String)
      → id ≢ j
      → (find_task j (stop_task_locked env id v).1.tasks ≡ find_task j v.tasks)
        × (find_task j (fail_task_locked env id v).1.tasks ≡ find_task j v.tasks)
        × (find_task j (restart_task_locked env id v).1.tasks ≡ find_task j v.tasks)
        × (allocation_of j (stop_task_locked env id v).1 ≡ allocation_of j v)
        × (allocation_of j (fail_task_locked env id v).1 ≡ allocation_of j v)
        × (allocation_of j (restart_task_locked env id v).1 ≡ allocation_of j v)
  methods_frame v j ne =
      let k =
        methods-Keep (SameOthers id v) (λ c w h. h) (λ f keeps _. write-others v f keeps)
          (status-others v) in
      let start : SameOthers id v v = λ j ne. (refl, refl) in
      let s = k.0 v start j ne in
      let f = k.1 v start j ne in let r = k.2 v start j ne in (s.0, f.0, r.0, s.1, f.1, r.1)

  -- None of them marks a row `cleanup_pending`, its own or another.
  pub methods_mark_nothing :
      (j : String) (v : World)
      → Unmarked j v
      → Unmarked j (stop_task_locked env id v).1
        × Unmarked j (fail_task_locked env id v).1
        × Unmarked j (restart_task_locked env id v).1
  methods_mark_nothing j v h =
      let k = methods-Keep (Unmarked j) (λ c w u. u) (write-Unmarked j) (status-Unmarked j) in
      (k.0 v h, k.1 v h, k.2 v h)
