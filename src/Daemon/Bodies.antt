-- ===== src/Daemon/Bodies.antt =====
-- What stopping, failing and restarting a task keep, by the way the bodies are built.
use stockyard.Base.{
  ℕ, inl, inr, not, ◌&&◌, ◌||◌, String, Option, none, some, str_eq, Option-cases, Bool-cases,
  Result-cases, ◌==◌,
}
use stockyard.Daemon.World.{
  Task, VmInfo, Call, select_task, stop_vm, start_vm, vm_stopped, vm_failed, vm_started,
  stop_tailing, stop_metrics, tail_logs, Env, World, M, ◌>>=◌, ◌>>◌, call, effect, when, ignore,
}
use stockyard.Daemon.State.{
  cleanup_pending, find_task, or_not_found, get_task, update_task_status, update_task_cid,
  update_task_vsock_path, update_task_ip,
}
use stockyard.Daemon.Keeps.{
  Keeps, Closed, bind-Keeps, then-Keeps, when-Keeps, done-Keeps, effect_if-Keeps, ignored_if-Keeps,
  call-Keeps,
}
use stockyard.Daemon.Tasks.{
  reject_cleanup_pending, has_vm, stop_watching, stop_admitted, stop_task_locked, fail_admitted,
  fail_task_locked, start_or_fail, store_vm, store_info, require_stopped, restart_stopped,
  restart_admitted, restart_task_locked,
}

module _ {ℓ} (P : World → Type ℓ) (closed : Closed P) (env : Env) (id : String) where
  get_task-Keeps : Keeps P (get_task env id)
  unfolding get_task
  get_task-Keeps =
      then-Keeps P (call env (select_task id)) (λ w. or_not_found id (find_task id w.tasks) w)
        (call-Keeps P closed env (select_task id))
        λ w h. elim (Option-cases (find_task id w.tasks)) [
          | inl q ↦ rw (q, or_not_found) h
          | inr (t, q) ↦ rw (q, or_not_found) h
        ]

  reject-Keeps : (t : Task) → Keeps P (reject_cleanup_pending t)
  reject-Keeps t w h = elim (Bool-cases (str_eq t.status cleanup_pending)) [
    | inl e ↦ rw (e, reject_cleanup_pending) h
    | inr e ↦ rw (e, reject_cleanup_pending) h
  ]

  -- A method that reads the row, refuses a marked one, and goes on.
  admitted-Keeps :
      (k : Task → M (Unit {0}))
      → ((t : Task) → Keeps P (k t))
      → Keeps P (get_task env id >>= λ t. (reject_cleanup_pending t >> k t))
  admitted-Keeps k kk =
      bind-Keeps P (get_task env id) (λ t. reject_cleanup_pending t >> k t) get_task-Keeps
        (λ t. then-Keeps P (reject_cleanup_pending t) (k t) (reject-Keeps t) (kk t))

  watching-Keeps : Keeps P (stop_watching env id)
  unfolding stop_watching
  watching-Keeps =
      then-Keeps P (when env.has_log_tailer (effect (stop_tailing id)))
        (when env.has_metrics_poller (effect (stop_metrics id)))
        (effect_if-Keeps P closed env.has_log_tailer (stop_tailing id))
        (effect_if-Keeps P closed env.has_metrics_poller (stop_metrics id))

  module _ (status_kept : (s : String) → Keeps P (update_task_status env id s)) where
    ending :
        (s : String) (c : Call)
        → Keeps P (update_task_status env id s >> when env.has_activity_feed (effect c))
    ending s c =
        then-Keeps P (update_task_status env id s) (when env.has_activity_feed (effect c))
          (status_kept s) (effect_if-Keeps P closed env.has_activity_feed c)

    pub stop-Keeps : Keeps P (stop_task_locked env id)
    unfolding stop_task_locked stop_admitted
    stop-Keeps = admitted-Keeps (stop_admitted env id) λ t.
        let vm = when (has_vm env t) (ignore (call env (stop_vm t.vmid))) in
        let rest =
          update_task_status env id "stopped"
          >> when env.has_activity_feed (effect (vm_stopped id)) in
        then-Keeps P (stop_watching env id) (vm >> rest) watching-Keeps (
          then-Keeps P vm rest (ignored_if-Keeps P closed env (has_vm env t) (stop_vm t.vmid))
            (ending "stopped" (vm_stopped id)))

    pub fail-Keeps : Keeps P (fail_task_locked env id)
    unfolding fail_task_locked fail_admitted
    fail-Keeps = admitted-Keeps (fail_admitted env id) λ t.
        then-Keeps P (stop_watching env id)
          (update_task_status env id "failed" >> when env.has_activity_feed (effect (vm_failed id)))
          watching-Keeps (ending "failed" (vm_failed id))

    require_stopped-Keeps : (t : Task) → Keeps P (require_stopped env id t)
    unfolding require_stopped
    require_stopped-Keeps t w h =
        elim (Bool-cases (str_eq t.status "stopped" || str_eq t.status "failed")) [
          | inl e ↦ rw e h
          | inr e ↦ rw e h
        ]

    start_or_fail-Keeps : (t : Task) → Keeps P (start_or_fail env id t)
    unfolding start_or_fail
    start_or_fail-Keeps t w h = elim (Bool-cases (has_vm env t)) [
      | inr e ↦ rw e h
      | inl e ↦
          let c = start_vm t.vmid in
          let kept = call-Keeps P closed env c w h in
          elim (Result-cases (call env c w).0) [
            | inl (_, q) ↦ rw (e, q) kept
            | inr (x, q) ↦ rw (e, q) (status_kept "failed" (call env c w).1 kept)
          ]
    ]

    module _ (cid_kept : (n : ℕ) → Keeps P (update_task_cid env id n))
        (path_kept : (s : String) → Keeps P (update_task_vsock_path env id s))
        (ip_kept : (s : String) → Keeps P (update_task_ip env id s)) where
      store_vm-Keeps : (i : Option VmInfo) → Keeps P (store_vm env id i)
      unfolding store_vm store_info
      store_vm-Keeps none = done-Keeps P
      store_vm-Keeps (some i) =
          let cid = when (not (i.cid == 0)) (ignore (update_task_cid env id i.cid)) in
          let path =
            when (not (str_eq i.vsock_path ""))
              (ignore (update_task_vsock_path env id i.vsock_path)) in
          let ip = when (not (str_eq i.ip "")) (ignore (update_task_ip env id i.ip)) in
          then-Keeps P cid (path >> ip)
            (when-Keeps P (not (i.cid == 0)) (ignore (update_task_cid env id i.cid))
              (cid_kept i.cid))
            (then-Keeps P path ip
              (when-Keeps P (not (str_eq i.vsock_path ""))
                (ignore (update_task_vsock_path env id i.vsock_path)) (path_kept i.vsock_path))
              (when-Keeps P (not (str_eq i.ip "")) (ignore (update_task_ip env id i.ip))
                (ip_kept i.ip)))

      pub restart-Keeps : Keeps P (restart_task_locked env id)
      unfolding restart_task_locked restart_admitted restart_stopped
      restart-Keeps = admitted-Keeps (restart_admitted env id) λ t.
          let tail = when (env.has_log_tailer && not (str_eq t.vmid "")) (effect (tail_logs id)) in
          let told = when env.has_activity_feed (effect (vm_started id)) in
          let after = λ (i : Option VmInfo).
            update_task_status env id "running" >> (store_vm env id i >> (tail >> told)) in
          then-Keeps P (require_stopped env id t) (restart_stopped env id t)
            (require_stopped-Keeps t)
            (then-Keeps P (update_task_status env id "starting") (start_or_fail env id t >>= after)
              (status_kept "starting")
              (bind-Keeps P (start_or_fail env id t) after (start_or_fail-Keeps t) λ i.
                then-Keeps P (update_task_status env id "running")
                  (store_vm env id i >> (tail >> told)) (status_kept "running")
                  (then-Keeps P (store_vm env id i) (tail >> told) (store_vm-Keeps i) (
                    then-Keeps P tail told
                      (effect_if-Keeps P closed (env.has_log_tailer && not (str_eq t.vmid ""))
                        (tail_logs id))
                      (effect_if-Keeps P closed env.has_activity_feed (vm_started id))))))
