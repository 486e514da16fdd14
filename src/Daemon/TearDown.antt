-- ===== src/Daemon/TearDown.antt =====
-- The first part of `destroyTaskLocked`, up to the mark: VM, workspace and announcements.
use stockyard.Base.{
  ◌≡◌, ◌⊎◌, inl, inr, true, not, ◌&&◌, String, none, List, [], ◌∷◌, str_eq, arith, ok, Bool-cases,
}
use stockyard.Daemon.World.{
  Task, Call, Env, World, delete_vm, effect, stop_tailing, stop_metrics, when, ignore, call,
  check_ctx, ◌>>◌, destroy_dataset, dataset_exists, vm_stopped, remove_device,
}
use stockyard.Daemon.Tasks.{
  stop_watching, destroy_vm, destroy_workspace, verify_gone, look_for_workspace, announce_gone,
  uses_zfs, tear_down, has_vm,
}
use stockyard.Daemon.Keeps.{
  Keeps, Closed, then-Keeps, when-Keeps, call-Keeps, check_ctx-Keeps, effect_if-Keeps,
  ignored_if-Keeps, checked-Keeps,
}

-- The rows, the pool and its state file are as they were.
pub record Same (v w : World) : Type 0 where
  pub tasks : w.tasks ≡ v.tasks
  pub pool : w.pool ≡ v.pool
  pub disk : w.disk ≡ v.disk

-- The work before the row is touched keeps whatever does not speak of the last call.
module _ {ℓ} (P : World → Type ℓ) (closed : Closed P) (env : Env) (id : String) (task : Task) where
  stop_watching-Keeps : Keeps P (stop_watching env id)
  unfolding stop_watching
  stop_watching-Keeps =
      then-Keeps P (when env.has_log_tailer (effect (stop_tailing id)))
        (when env.has_metrics_poller (effect (stop_metrics id)))
        (effect_if-Keeps P closed env.has_log_tailer (stop_tailing id))
        (effect_if-Keeps P closed env.has_metrics_poller (stop_metrics id))

  destroy_vm-Keeps : Keeps P (destroy_vm env task)
  unfolding destroy_vm
  destroy_vm-Keeps =
      when-Keeps P (has_vm env task) (call env (delete_vm task.vmid) >> check_ctx env)
        (checked-Keeps P closed env (delete_vm task.vmid))

  verify_gone-Keeps : Keeps P (verify_gone env)
  unfolding verify_gone
  verify_gone-Keeps w h = elim (Bool-cases (env.dataset_there w.history)) [
    | inl e ↦ rw e h
    | inr e ↦ rw e h
  ]

  look_for_workspace-Keeps : Keeps P (look_for_workspace env id)
  unfolding look_for_workspace
  look_for_workspace-Keeps =
      then-Keeps P (call env (dataset_exists id)) (verify_gone env >> check_ctx env)
        (call-Keeps P closed env (dataset_exists id))
        (then-Keeps P (verify_gone env) (check_ctx env) verify_gone-Keeps
          (check_ctx-Keeps P closed env))

  destroy_workspace-Keeps : Keeps P (destroy_workspace env id)
  unfolding destroy_workspace
  destroy_workspace-Keeps =
      when-Keeps P (uses_zfs env)
        ((call env (destroy_dataset id) >> check_ctx env) >> look_for_workspace env id)
        (then-Keeps P (call env (destroy_dataset id) >> check_ctx env) (look_for_workspace env id)
          (checked-Keeps P closed env (destroy_dataset id)) look_for_workspace-Keeps)

  announce_gone-Keeps : Keeps P (announce_gone env id task)
  unfolding announce_gone
  announce_gone-Keeps =
      let told =
        when (str_eq task.status "running" && env.has_activity_feed) (effect (vm_stopped id)) in
      let given_up =
        when (not (str_eq task.tailscale_hostname ""))
          (ignore (call env (remove_device task.tailscale_hostname))) in
      then-Keeps P told (given_up >> check_ctx env)
        (effect_if-Keeps P closed (str_eq task.status "running" && env.has_activity_feed)
          (vm_stopped id))
        (then-Keeps P given_up (check_ctx env)
          (ignored_if-Keeps P closed env (not (str_eq task.tailscale_hostname ""))
            (remove_device task.tailscale_hostname))
          (check_ctx-Keeps P closed env))

  pub tear_down-Keeps : Keeps P (tear_down env id task)
  unfolding tear_down
  tear_down-Keeps =
      then-Keeps P (stop_watching env id)
        (destroy_vm env task >> (destroy_workspace env id >> announce_gone env id task))
        stop_watching-Keeps
        (then-Keeps P (destroy_vm env task) (destroy_workspace env id >> announce_gone env id task)
          destroy_vm-Keeps
          (then-Keeps P (destroy_workspace env id) (announce_gone env id task)
            destroy_workspace-Keeps announce_gone-Keeps))

pub Same-Closed : (v : World) → Closed (Same v)
Same-Closed v c w s = record { tasks = s.tasks; pool = s.pool; disk = s.disk }

-- The call is in the history, and its outcome was no error.
abbrev pub Succeeded : Env → Call → List Call → Type 0
Succeeded env c [] = ⊥
Succeeded env c (x ∷ h) = ((x ≡ c) × (env.outcome (x ∷ h) ≡ none)) ⊎ Succeeded env c h

module _ (env : Env) (id : String) (task : Task) where
  abbrev pub Past : Call → World → Type 0
  Past c w = Succeeded env c w.history

  pub Past-Closed : (c : Call) → Closed (Past c)
  Past-Closed c x w h = inr h

  destroy_vm-done :
      (w : World)
      → (destroy_vm env task w).0 ≡ ok tt
      → has_vm env task ≡ true
      → Past (delete_vm task.vmid) (destroy_vm env task w).1
  unfolding destroy_vm
  destroy_vm-done w h v = ground arith

  destroy_workspace-done :
      (w : World)
      → (destroy_workspace env id w).0 ≡ ok tt
      → uses_zfs env ≡ true
      → Past (destroy_dataset id) (destroy_workspace env id w).1
  unfolding destroy_workspace
  destroy_workspace-done w h v = ground arith

  -- Where all before the mark returns no error, the VM and the workspace have been destroyed.
  pub tear_down-done :
      (w : World)
      → (tear_down env id task w).0 ≡ ok tt
      → (has_vm env task ≡ true → Past (delete_vm task.vmid) (tear_down env id task w).1)
        × (uses_zfs env ≡ true → Past (destroy_dataset id) (tear_down env id task w).1)
  unfolding tear_down
  tear_down-done w h =
      let w₁ = (stop_watching env id w).1 in
      let w₂ = (destroy_vm env task w₁).1 in
      let w₃ = (destroy_workspace env id w₂).1 in
      let vm = Past (delete_vm task.vmid) in
      let dataset = Past (destroy_dataset id) in
      let vm_kept = destroy_workspace-Keeps vm (Past-Closed (delete_vm task.vmid)) env id task w₂ in
      let vm_told = announce_gone-Keeps vm (Past-Closed (delete_vm task.vmid)) env id task w₃ in
      let told = announce_gone-Keeps dataset (Past-Closed (destroy_dataset id)) env id task w₃ in
      (
        λ v. ground (arith, destroy_vm-done w₁, vm_kept, vm_told),
        λ v. ground (arith, destroy_workspace-done w₂, told),
      )
