-- ===== src/Daemon/Create/Stages.antt =====
-- What the stages of `CreateTask` leave as it was, by the way they are built.
use stockyard.Base.{
  true, false, ◌≡◌, ◌≢◌, inl, inr, ap, ◌∙◌, Bool, String, none, some, ◌∷◌, Option-cases,
  Result-cases, Bool-cases, arith, ◌&&◌, not, str_eq, TextMap, lookup,
}
use stockyard.Network.Pool.Results.{calls_frame}
use stockyard.Daemon.World.{
  create_dataset, VmConfig, allocate_ip, delete_vm, destroy_dataset, Env, World, M, when, call,
}
use stockyard.Daemon.Keeps.{Keeps, then-Keeps}
use stockyard.Daemon.Closing.{allocation_of, release-cases}
use stockyard.Daemon.Tasks.{uses_zfs, cleanup_create_task}
use stockyard.Daemon.Images.{get_image, list_images}
use stockyard.Daemon.Registry.{attempt, validate_registered}
use stockyard.Daemon.Create.{
  or_clean_up, create_workspace, get_mountpoint, fetch_secret, build_environment, find_auth_key,
  generate_cloud_init, find_image_source, make_vm, resolve_task_image, allocate_address,
}
use stockyard.Daemon.Create.Config.{CreateTaskRequest}

-- The rows and the pool are as they were.
abbrev pub Quiet : {A : Type 0} → M A → Type 0
Quiet m = (w : World) → ((m w).1.tasks ≡ w.tasks) × ((m w).1.pool ≡ w.pool)

module _ (env : Env) where
  pub resolve_task_image-Quiet : (requested : String) → Quiet (resolve_task_image env requested)
  unfolding resolve_task_image validate_registered attempt get_image list_images
  resolve_task_image-Quiet requested w = ground arith

  pub build_environment-Quiet : (vars : TextMap) → Quiet (build_environment env vars)
  unfolding build_environment fetch_secret
  build_environment-Quiet vars w = ground arith

  pub find_auth_key-Quiet : (req : CreateTaskRequest) → Quiet (find_auth_key env req)
  unfolding find_auth_key fetch_secret
  find_auth_key-Quiet req w = ground arith

  pub generate_cloud_init-Quiet : (id : String) → Quiet (generate_cloud_init env id)
  unfolding generate_cloud_init
  generate_cloud_init-Quiet id w = ground arith

  pub find_image_source-Quiet : (image : String) → Quiet (find_image_source env image)
  unfolding find_image_source get_image
  find_image_source-Quiet image w = ground arith

  pub make_vm-Quiet : (config : VmConfig) → Quiet (make_vm env config)
  unfolding make_vm
  make_vm-Quiet config w = ground arith

-- The rows are those of `v`, and so are the addresses of the tasks other than `id`.
abbrev pub Begun : String → World → World → Type 0
Begun id v w = (w.tasks ≡ v.tasks) × ((j : String) → id ≢ j → allocation_of j w ≡ allocation_of j v)

pub same_pool :
    (v w : World) → w.pool ≡ v.pool → (j : String) → allocation_of j w ≡ allocation_of j v
same_pool v w e j = ap (λ p. elim p [ none ↦ none | some p ↦ lookup j p.allocated ]) e

module _ (env : Env) (id : String) (v : World) where
  pub Quiet-Begun : {A : Type 0} (m : M A) → Quiet m → Keeps (Begun id v) m
  Quiet-Begun m q w h = ((q w).0 ∙ h.0, λ j ne. same_pool w (m w).1 (q w).1 j ∙ h.1 j ne)

  pub allocate_address-Begun : Keeps (Begun id v) (allocate_address env id)
  unfolding allocate_address
  allocate_address-Begun w h = elim (Option-cases w.pool) [
    | inl e ↦ (ground arith, λ j ne. ground (arith, h.1 j ne))
    | inr (p, e) ↦
        let f = env.disk_fails (allocate_ip id ∷ w.history) in
        (ground arith, λ j ne. ground (arith, h.1 j ne, (calls_frame f id w.disk p j ne).0))
  ]

  -- What a failed creation undoes touches no row, and no address but the task's own.
  pub cleanup-Begun :
      (vm_id : String) (created : Bool) (w : World)
      → Begun id v w
      → Begun id v (cleanup_create_task env id vm_id created w).1
  unfolding cleanup_create_task
  cleanup-Begun vm_id created w h =
      let w₁ = (when (env.has_backend && not (str_eq vm_id "")) (call env (delete_vm vm_id)) w).1 in
      let w₂ = (when (created && env.has_zfs) (call env (destroy_dataset id)) w₁).1 in
      let c = release-cases env id w₂ in
      (ground (arith, c.0), λ j ne. ground (arith, h.1 j ne, c.1 j ne))

  pub or_clean_up-Begun :
      {A : Type 0} (vm_id : String) (created : Bool) (m : M A)
      → Keeps (Begun id v) m
      → Keeps (Begun id v) (or_clean_up env id vm_id created m)
  unfolding or_clean_up
  or_clean_up-Begun vm_id created m km w h = elim (Result-cases (m w).0) [
    | inl (a, e) ↦ rw (e, or_clean_up) (km w h)
    | inr (x, e) ↦ rw (e, or_clean_up) (cleanup-Begun vm_id created (m w).1 (km w h))
  ]

  pub create_workspace-Begun : Keeps (Begun id v) (create_workspace env id)
  unfolding create_workspace get_mountpoint
  create_workspace-Begun w h =
      let made : Keeps (Begun id v) (or_clean_up env id "" false (call env (create_dataset id))) =
        or_clean_up-Begun "" false (call env (create_dataset id))
          (Quiet-Begun (call env (create_dataset id)) (λ u. ground arith)) in
      let found : Keeps (Begun id v) (or_clean_up env id "" true (get_mountpoint env id)) =
        or_clean_up-Begun "" true (get_mountpoint env id)
          (Quiet-Begun (get_mountpoint env id) (λ u. ground arith)) in
      elim (Bool-cases (uses_zfs env)) [
        | inr e ↦ ground arith
        | inl e ↦
            rw (e, create_workspace)
              (then-Keeps (Begun id v) (or_clean_up env id "" false (call env (create_dataset id)))
                (or_clean_up env id "" true (get_mountpoint env id)) made found w h)
      ]
