-- ===== src/Daemon/Retry.antt =====
-- A destruction with no obstacle comes to its end.
use stockyard.Base.{
  ◌≡◌, refl, inl, inr, Bool, true, false, not, ◌&&◌, none, some, List, ◌∷◌, String, str_eq, eq_iff,
  arith, ok, Option-cases,
}
use stockyard.Network.Pool.Disk.{PersistStep}
use stockyard.Network.Pool.Results.{release-Calm}
use stockyard.Daemon.World.{
  Task, Call, check_context, delete_row, delete_vm, destroy_dataset, dataset_exists, stop_tailing,
  stop_metrics, vm_stopped, remove_device, release_ip, select_task, write_status, Env, World, M,
  ◌>>◌, when, ignore, effect, call, check_ctx,
}
use stockyard.Daemon.State.{
  cleanup_pending, find_task, get_task, delete_task, mark_task_cleanup_pending,
}
use stockyard.Daemon.Rows.{find_task-update_rows}
use stockyard.Daemon.Tasks.{
  is_not_found, has_vm, uses_zfs, stop_watching, destroy_vm, verify_gone, look_for_workspace,
  destroy_workspace, announce_gone, tear_down, mark_pending, release_task_ip, let_go, settle,
  destroy_task_locked,
}
use stockyard.Daemon.Closing.{pending}

-- No call fails, the context lives on, the workspace is gone once destroyed, and the disk takes
-- every write.
pub record Calm (env : Env) : Type 0 where
  pub outcome : (h : List Call) → env.outcome h ≡ none
  pub gone : (h : List Call) → env.dataset_there h ≡ false
  pub disk : (h : List Call) (s : PersistStep) → env.disk_fails h s ≡ false

-- The row of the task is there.
abbrev HasRow : String → World → Type 0
HasRow id w = (t : Task) × (find_task id w.tasks ≡ some t)

module _ (env : Env) (calm : Calm env) (id : String) where
  abbrev Fine : M (Unit {0}) → Type 0
  Fine m = (w : World) → HasRow id w → ((m w).0 ≡ ok tt) × HasRow id (m w).1

  then-Fine : (m k : M (Unit {0})) → Fine m → Fine k → Fine (m >> k)
  then-Fine m k fm fk w h = rw ((fm w h).0, ◌>>◌) (fk (m w).1 (fm w h).1)

  when-Fine : (b : Bool) (m : M (Unit {0})) → Fine m → Fine (when b m)
  when-Fine true m fm w h = fm w h
  when-Fine false m fm w h = (refl, h)

  call-Fine : (c : Call) → Fine (call env c)
  call-Fine c w h = rw (calm.outcome (c ∷ w.history), call) (refl, h)

  check_ctx-Fine : Fine (check_ctx env)
  check_ctx-Fine w h = rw (calm.outcome (check_context ∷ w.history), check_ctx) (refl, h)

  effect-Fine : (c : Call) → Fine (effect c)
  effect-Fine c w h = (refl, h)

  ignored-Fine : (c : Call) → Fine (ignore (call env c))
  ignored-Fine c w h = (refl, (call-Fine c w h).1)

  verify_gone-Fine : Fine (verify_gone env)
  unfolding verify_gone
  verify_gone-Fine w h = rw (calm.gone w.history) (refl, h)

  stop_watching-Fine : Fine (stop_watching env id)
  unfolding stop_watching
  stop_watching-Fine =
      then-Fine (when env.has_log_tailer (effect (stop_tailing id)))
        (when env.has_metrics_poller (effect (stop_metrics id)))
        (when-Fine env.has_log_tailer (effect (stop_tailing id)) (effect-Fine (stop_tailing id)))
        (when-Fine env.has_metrics_poller (effect (stop_metrics id))
          (effect-Fine (stop_metrics id)))

  checked-Fine : (c : Call) → Fine (call env c >> check_ctx env)
  checked-Fine c = then-Fine (call env c) (check_ctx env) (call-Fine c) check_ctx-Fine

  destroy_workspace-Fine : Fine (destroy_workspace env id)
  unfolding destroy_workspace
  destroy_workspace-Fine =
      when-Fine (uses_zfs env)
        ((call env (destroy_dataset id) >> check_ctx env) >> look_for_workspace env id)
        (then-Fine (call env (destroy_dataset id) >> check_ctx env) (look_for_workspace env id)
          (checked-Fine (destroy_dataset id))
          (then-Fine (call env (dataset_exists id)) (verify_gone env >> check_ctx env)
            (call-Fine (dataset_exists id))
            (then-Fine (verify_gone env) (check_ctx env) verify_gone-Fine check_ctx-Fine)))

  module _ (task : Task) where
    destroy_vm-Fine : Fine (destroy_vm env task)
    unfolding destroy_vm
    destroy_vm-Fine =
        when-Fine (has_vm env task) (call env (delete_vm task.vmid) >> check_ctx env)
          (checked-Fine (delete_vm task.vmid))

    announce_gone-Fine : Fine (announce_gone env id task)
    unfolding announce_gone
    announce_gone-Fine =
        let announced = str_eq task.status "running" && env.has_activity_feed in
        let named = not (str_eq task.tailscale_hostname "") in
        let device = ignore (call env (remove_device task.tailscale_hostname)) in
        then-Fine (when announced (effect (vm_stopped id))) (when named device >> check_ctx env)
          (when-Fine announced (effect (vm_stopped id)) (effect-Fine (vm_stopped id)))
          (then-Fine (when named device) (check_ctx env)
            (when-Fine named device (ignored-Fine (remove_device task.tailscale_hostname)))
            check_ctx-Fine)

    tear_down-Fine : Fine (tear_down env id task)
    unfolding tear_down
    tear_down-Fine =
        let rest = destroy_workspace env id >> announce_gone env id task in
        then-Fine (stop_watching env id) (destroy_vm env task >> rest) stop_watching-Fine (
          then-Fine (destroy_vm env task) rest destroy_vm-Fine (
            then-Fine (destroy_workspace env id) (announce_gone env id task) destroy_workspace-Fine
              announce_gone-Fine))

  mark-Fine : Fine (mark_task_cleanup_pending env id)
  unfolding mark_task_cleanup_pending
  mark-Fine w (t, e) = (
    ground (arith, calm.outcome (write_status id cleanup_pending ∷ w.history)),
    (
      pending t,
      ground (
        arith,
        calm.outcome (write_status id cleanup_pending ∷ w.history),
        find_task-update_rows id id pending w.tasks (λ u. refl),
        eq_iff id id,
      ),
    ),
  )

  release-Fine : Fine (release_task_ip env id)
  unfolding release_task_ip
  release-Fine w (t, e) = elim (Option-cases w.pool) [
    | inl q ↦ rw (q, release_task_ip) (refl, (t, e))
    | inr (p, q) ↦
        let f = env.disk_fails (release_ip id ∷ w.history) in
        let c = release-Calm f id w.disk p (calm.disk (release_ip id ∷ w.history)) in
        (ground arith, (t, ground arith))
  ]

  let_go-Fine : (task : Task) → Fine (let_go env id task)
  unfolding let_go mark_pending
  let_go-Fine task =
      let marking = mark_task_cleanup_pending env id >> check_ctx env in
      let unmarked = not (str_eq task.status cleanup_pending) in
      then-Fine (when unmarked marking) (release_task_ip env id >> check_ctx env)
        (when-Fine unmarked marking
          (then-Fine (mark_task_cleanup_pending env id) (check_ctx env) mark-Fine check_ctx-Fine))
        (then-Fine (release_task_ip env id) (check_ctx env) release-Fine check_ctx-Fine)

  delete-done : (w : World) → HasRow id w → (delete_task env id w).0 ≡ ok tt
  unfolding delete_task
  delete-done w (t, e) = ground (arith, calm.outcome (delete_row id ∷ w.history))

  settle-done : (task : Task) (w : World) → HasRow id w → (settle env id task w).0 ≡ ok tt
  unfolding settle
  settle-done task w h =
      let f = let_go-Fine task w h in rw (f.0, ◌>>◌) (delete-done (let_go env id task w).1 f.1)

  -- Where no call fails any more and a destroyed workspace is gone, a destruction returns no error,
  -- from whatever earlier attempts have left.
  pub destroy_calm : (w : World) → (destroy_task_locked env id w).0 ≡ ok tt
  unfolding destroy_task_locked get_task is_not_found
  destroy_calm w =
      let w₁ = (check_ctx env w).1 in
      let w₂ = (get_task env id w₁).1 in
      let first = calm.outcome (check_context ∷ w.history) in
      let second = calm.outcome (select_task id ∷ w₁.history) in
      elim (Option-cases (find_task id w.tasks)) [
        | inl q ↦ ground arith
        | inr (t, q) ↦
            let torn = tear_down-Fine t w₂ (t, ground arith) in
            let end = settle-done t (tear_down env id t w₂).1 torn.1 in ground (arith, torn.0, end)
      ]
