-- ===== src/Daemon/Destroy.antt =====
-- `destroyTaskLocked`: what it leaves on each of its ways out.
use stockyard.Base.{
  ◌≡◌, ◌≢◌, ◌⊎◌, inl, inr, refl, ap, subst, ◌∙◌, true, false, String, none, some, ◌∷◌, arith, ok,
  err, Option-cases, Result-cases, sym, Bool-cases,
}
use stockyard.Daemon.World.{
  Task, Error, task_not_found, Env, World, delete_vm, select_task, destroy_dataset, other, canceled,
  check_context, check_ctx, destroy_dataset,
}
use stockyard.Daemon.State.{find_task, get_task}
use stockyard.Daemon.TearDown.{Same, Same-Closed, tear_down-Keeps, tear_down-done, Past}
use stockyard.Daemon.Closing.{Retained, allocation_of, pending}
use stockyard.Daemon.Settle.{
  settle-others, settle-Retained, settle-Settled, settle-guarded, settle-Past,
}
use stockyard.Daemon.Tasks.{
  is_not_found, uses_zfs, uses_zfs, tear_down, settle, destroy_task_locked, has_vm,
}

module _ (env : Env) (id : String) where
  get_task-cases :
      (w : World)
      → Same w (get_task env id w).1
        × (((t : Task) × ((get_task env id w).0 ≡ ok t) × (find_task id w.tasks ≡ some t))
            ⊎ (((get_task env id w).0 ≡ err (task_not_found id)) × (find_task id w.tasks ≡ none))
            ⊎ ((e : Error) × ((get_task env id w).0 ≡ err e) × (is_not_found e ≡ false)))
  unfolding get_task is_not_found
  get_task-cases w = elim (Option-cases (env.outcome (select_task id ∷ w.history))) [
    | inl e ↦ elim (Option-cases (find_task id w.tasks)) [
      | inl q ↦ (ground arith, inr (inl (ground arith, q)))
      | inr (t, q) ↦ (ground arith, inl (t, ground arith, q))
    ]
    | inr (text, e) ↦ (ground arith, inr (inr (other text, ground arith, refl)))
  ]

  -- The row is read, and all before the mark has been done.
  abbrev Begun : World → Task → World → Type 0
  Begun w t v =
      Same w v
      × (find_task id w.tasks ≡ some t)
      × (has_vm env t ≡ true → Past env id t (delete_vm t.vmid) v)
      × (uses_zfs env ≡ true → Past env id t (destroy_dataset id) v)

  -- The ways of `destroyTaskLocked`: an error before the mark, no row, or the end of the body.
  destroy-cases :
      (w : World)
      → (Same w (destroy_task_locked env id w).1
          × ((e : Error) × ((destroy_task_locked env id w).0 ≡ err e)))
        ⊎ (Same w (destroy_task_locked env id w).1
            × ((destroy_task_locked env id w).0 ≡ ok tt)
            × (find_task id w.tasks ≡ none))
        ⊎ ((t : Task) × (v : World) × Begun w t v
            × (destroy_task_locked env id w ≡ settle env id t v))
  unfolding destroy_task_locked is_not_found
  destroy-cases w = elim (Option-cases (env.outcome (check_context ∷ w.history))) [
    | inr (text, e) ↦ inl (ground arith, (canceled, ground arith))
    | inl e ↦
        let w₁ = (check_ctx env w).1 in
        let w₂ = (get_task env id w₁).1 in
        let c = get_task-cases w₁ in
        elim c.1 [
          | inl (t, q, there) ↦
              let read : Same w w₂ = ground (arith, c.0) in
              let begun = tear_down-Keeps (Same w) (Same-Closed w) env id t w₂ read in
              elim (Result-cases (tear_down env id t w₂).0) [
                | inl (_, p) ↦
                    let done = tear_down-done env id t w₂ p in
                    inr (
                      inr (
                        t,
                        (tear_down env id t w₂).1,
                        (begun, ground arith, done.0, done.1),
                        ground arith,
                      ))
                | inr (x, p) ↦ inl (ground (arith, begun), (x, ground arith))
              ]
          | inr (inl (q, gone)) ↦ inr (inl (ground (arith, c.0), ground arith, ground arith))
          | inr (inr (x, q, unknown)) ↦ inl (ground (arith, c.0), (x, ground arith))
        ]
  ]

  -- A destruction that returns no error leaves no row of the task; and where there was a row, the
  -- pool holds no address for the task any more.
  pub destroy_ok :
      (w : World)
      → (destroy_task_locked env id w).0 ≡ ok tt
      → (find_task id (destroy_task_locked env id w).1.tasks ≡ none)
        × ((find_task id w.tasks ≡ none)
            ⊎ (allocation_of id (destroy_task_locked env id w).1 ≡ none))
  destroy_ok w h = elim (destroy-cases w) [
    | inl (same, (e, q)) ↦ ground arith
    | inr (inl (same, q, gone)) ↦ (ground (arith, same.tasks), inl gone)
    | inr (inr (t, v, begun, q)) ↦
        let d = settle-Settled env id t v (ground arith) in
        (ground (arith, d), inr (ground (arith, d)))
  ]

  -- A destruction that fails keeps the row, as it was or marked `cleanup_pending`, so that it can be
  -- tried again.
  pub destroy_err :
      (w : World) (t : Task) {e : Error}
      → find_task id w.tasks ≡ some t
      → (destroy_task_locked env id w).0 ≡ err e
      → Retained id t (destroy_task_locked env id w).1
  destroy_err w t {e} there h = elim (destroy-cases w) [
    | inl (same, (x, q)) ↦ inl (ap (find_task id) same.tasks ∙ there)
    | inr (inl (same, q, gone)) ↦ ground arith
    | inr (inr (u, v, begun, q)) ↦
        let found = ap (find_task id) begun.0.tasks ∙ begun.1 in
        let d = settle-Retained env id u v {e = e} (inl found) (ground arith) in ground (arith, d)
  ]

  -- The rows and the addresses of the other tasks are as they were, whatever happens.
  pub destroy_frame :
      (w : World) (j : String)
      → id ≢ j
      → let v = (destroy_task_locked env id w).1 in
        (find_task j v.tasks ≡ find_task j w.tasks) × (allocation_of j v ≡ allocation_of j w)
  destroy_frame w j ne = elim (destroy-cases w) [
    | inl (same, (x, q)) ↦ ground (arith, same)
    | inr (inl (same, q, gone)) ↦ ground (arith, same)
    | inr (inr (u, v, begun, q)) ↦
        let d = settle-others env id u w v (λ k nk. ground (arith, begun.0)) j ne in
        ground (arith, d)
  ]

  -- While the row is not marked `cleanup_pending`, the address is not given back.
  pub destroy_guarded :
      (w : World) (t : Task)
      → find_task id w.tasks ≡ some t
      → let v = (destroy_task_locked env id w).1 in
        (v.pool ≡ w.pool)
        ⊎ (find_task id v.tasks ≡ none)
        ⊎ (find_task id v.tasks ≡ some (pending t))
  destroy_guarded w t there = elim (destroy-cases w) [
    | inl (same, (x, q)) ↦ inl same.pool
    | inr (inl (same, q, gone)) ↦ inl same.pool
    | inr (inr (u, v, begun, q)) ↦
        let d = settle-guarded env id u v (ap (find_task id) begun.0.tasks ∙ begun.1) in
        ground (arith, d, begun)
  ]

  -- The row and the address outlive the resources: where a destruction changes a row or the pool at
  -- all, the VM of the task and its workspace have been destroyed with no error before.
  pub destroy_resources_first :
      (w : World) (t : Task)
      → find_task id w.tasks ≡ some t
      → let v = (destroy_task_locked env id w).1 in
        Same w v
        ⊎ (((has_vm env t ≡ false) ⊎ Past env id t (delete_vm t.vmid) v)
            × ((uses_zfs env ≡ false) ⊎ Past env id t (destroy_dataset id) v))
  destroy_resources_first w t there = elim (destroy-cases w) [
    | inl (same, (x, q)) ↦ inl same
    | inr (inl (same, q, gone)) ↦ inl same
    | inr (inr (u, v, begun, q)) ↦
        let c = delete_vm u.vmid in
        let d = destroy_dataset id in
        let e : u ≡ t = ground (arith, begun.1) in
        let v' = (destroy_task_locked env id w).1 in
        inr (
          elim (Bool-cases (has_vm env t)) [
            | inr off ↦ inl off
            | inl on ↦ inr (
                subst (λ t'. Past env id u (delete_vm t'.vmid) v') e
                  (rw q (
                    settle-Past env id u c v
                      (begun.2 (subst (λ t'. has_vm env t' ≡ true) (sym e) on)))))
          ],
          elim (Bool-cases (uses_zfs env)) [
            | inr off ↦ inl off
            | inl on ↦ inr (rw q (settle-Past env id u d v (begun.3 on)))
          ],
        )
  ]
