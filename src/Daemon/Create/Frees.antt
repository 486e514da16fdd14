-- ===== src/Daemon/Create/Frees.antt =====
-- What `CreateTask` leaves in the address pool when it fails.
use stockyard.Base.{
  ◌≡◌, inl, inr, ◌∙◌, Bool, true, false, String, none, List, ◌∷◌, err, Option-cases, Result-cases,
  Bool-cases, if◌then◌else◌, arith, ◌&&◌, not, str_eq, TextMap,
}
use stockyard.Network.Pool.Persist.{Calm}
use stockyard.Network.Pool.Defs.{allocate}
use stockyard.Network.Pool.Results.{release_lem, release-Calm, allocate_error}
use stockyard.Daemon.World.{
  Task, VmConfig, Error, Call, allocate_ip, release_ip, delete_vm, destroy_dataset, create_dataset,
  Env, World, M, ◌>>=◌, ◌>>◌, return, call, when,
}
use stockyard.Daemon.Closing.{allocation_of}
use stockyard.Daemon.Tasks.{uses_zfs, release_task_ip, cleanup_create_task}
use stockyard.Daemon.Create.{
  or_clean_up, build_environment, find_auth_key, generate_cloud_init, find_image_source,
  resolve_task_image, allocate_address, create_workspace, get_mountpoint, make_vm, record_task,
  announce_created, start_recorded, create_with_address, create_new_task, Address, fetch_secret,
}
use stockyard.Daemon.Create.Config.{CreateTaskRequest, with_defaults, build_hostname}
use stockyard.Daemon.Create.After.{at_source, at_cloud, at_key, at_environment, at_workspace}
use stockyard.Daemon.Create.Stages.{same_pool, resolve_task_image-Quiet}

-- The backend deletes every VM that it is asked to, and the pool can always be saved.
pub record CleansUp (env : Env) : Type 0 where
  pub deletes : (vm_id : String) (h : List Call) → env.outcome (delete_vm vm_id ∷ h) ≡ none
  pub saves : (h : List Call) → Calm (env.disk_fails h)

module _ (env : Env) (clean : CleansUp env) (id : String) where
  release_task_ip-freed : (w : World) → allocation_of id (release_task_ip env id w).1 ≡ none
  unfolding release_task_ip
  release_task_ip-freed w = elim (Option-cases w.pool) [
    | inl q ↦ ground arith
    | inr (p, q) ↦
        let f = env.disk_fails (release_ip id ∷ w.history) in
        ground (
          arith,
          release_lem f id w.disk p,
          release-Calm f id w.disk p (clean.saves (release_ip id ∷ w.history)),
        )
  ]

  cleanup-freed :
      (vm_id : String) (created : Bool) (w : World)
      → allocation_of id (cleanup_create_task env id vm_id created w).1 ≡ none
  unfolding cleanup_create_task
  cleanup-freed vm_id created w =
      let w₁ = (when (env.has_backend && not (str_eq vm_id "")) (call env (delete_vm vm_id)) w).1 in
      let w₂ = (when (created && env.has_zfs) (call env (destroy_dataset id)) w₁).1 in
      ground (arith, release_task_ip-freed w₂, clean.deletes vm_id w.history)

  -- Where an error is returned, the pool holds no address for the task.
  abbrev Frees : {A : Type 0} → M A → Type 0
  Frees {A} m = (w : World) (e : Error) → (m w).0 ≡ err e → allocation_of id (m w).1 ≡ none

  -- A bind frees at a world where its parts do.
  bind-freed :
      {A B : Type 0} (m : M A) (f : A → M B) (w : World) (e : Error)
      → ((x : Error) → (m w).0 ≡ err x → allocation_of id (m w).1 ≡ none)
      → ((a : A) → Frees (f a))
      → ((m >>= f) w).0 ≡ err e
      → allocation_of id ((m >>= f) w).1 ≡ none
  bind-freed m f w e first kf = elim (Result-cases (m w).0) [
    | inl (a, q) ↦ rw (q, ◌>>=◌) (kf a (m w).1 e)
    | inr (x, q) ↦ rw (q, ◌>>=◌) (λ _. first x q)
  ]

  bind-Frees :
      {A B : Type 0} (m : M A) (f : A → M B) → Frees m → ((a : A) → Frees (f a)) → Frees (m >>= f)
  bind-Frees m f km kf w e = bind-freed m f w e (km w) kf

  or_clean_up-Frees :
      {A : Type 0} (vm_id : String) (created : Bool) (m : M A)
      → Frees (or_clean_up env id vm_id created m)
  unfolding or_clean_up
  or_clean_up-Frees vm_id created m w e h = elim (Result-cases (m w).0) [
    | inl (a, q) ↦ ground arith
    | inr (x, q) ↦ ground (arith, cleanup-freed vm_id created (m w).1)
  ]

  allocate_address-Frees : Frees (allocate_address env id)
  unfolding allocate_address
  allocate_address-Frees w e h = elim (Option-cases w.pool) [
    | inl q ↦ ground arith
    | inr (p, q) ↦
        let f = env.disk_fails (allocate_ip id ∷ w.history) in
        elim (Result-cases (allocate f id p w.disk).0) [
          | inl (a, r) ↦ ground arith
          | inr (x, r) ↦ ground (arith, allocate_error f id w.disk p r)
        ]
  ]

  create_workspace-Frees : Frees (create_workspace env id)
  unfolding create_workspace
  create_workspace-Frees w e h = elim (Bool-cases (uses_zfs env)) [
    | inr q ↦ ground arith
    | inl q ↦
        let made : Frees (or_clean_up env id "" false (call env (create_dataset id))) =
          or_clean_up-Frees "" false (call env (create_dataset id)) in
        let found : (a : Unit {0}) → Frees (or_clean_up env id "" true (get_mountpoint env id)) =
          λ a. or_clean_up-Frees "" true (get_mountpoint env id) in
        ground (
          arith,
          bind-Frees (or_clean_up env id "" false (call env (create_dataset id)))
              (λ _. or_clean_up env id "" true (get_mountpoint env id)) made found w e,
        )
  ]

  build_environment-Frees : (vars : TextMap) → Frees (build_environment env vars)
  unfolding build_environment fetch_secret
  build_environment-Frees vars w e h = ground arith

  find_auth_key-Frees : (req : CreateTaskRequest) → Frees (find_auth_key env req)
  unfolding find_auth_key fetch_secret
  find_auth_key-Frees req w e h = ground arith

  announce-Frees :
      (t : Task) (vm_id hostname : String)
      → Frees (announce_created env id vm_id hostname >> return t)
  unfolding announce_created
  announce-Frees t vm_id hostname w e h = ground arith

  start_recorded-Frees :
      (req : CreateTaskRequest) (image auth_key : String) (config : VmConfig)
      → Frees (start_recorded env req id image auth_key config)
  unfolding start_recorded
  start_recorded-Frees req image auth_key config =
      let hostname : String = if str_eq auth_key "" then "" else build_hostname id in
      bind-Frees (or_clean_up env id id (uses_zfs env) (make_vm env config))
        (λ vm.
          or_clean_up env id vm.id (uses_zfs env) (record_task env req id image hostname vm)
          >>= (λ t. announce_created env id vm.id hostname >> return t))
        (or_clean_up-Frees id (uses_zfs env) (make_vm env config))
        (λ vm.
          bind-Frees
            (or_clean_up env id vm.id (uses_zfs env) (record_task env req id image hostname vm))
            (λ t. announce_created env id vm.id hostname >> return t)
            (or_clean_up-Frees vm.id (uses_zfs env) (record_task env req id image hostname vm))
            (λ t. announce-Frees t vm.id hostname))

  create_with_address-Frees :
      (req : CreateTaskRequest) (image : String) (address : Address)
      → Frees (create_with_address env req id image address)
  unfolding create_with_address
  create_with_address-Frees req image address =
      bind-Frees (create_workspace env id) (at_workspace env id req image address)
        create_workspace-Frees
        (λ workspace.
          bind-Frees (build_environment env req.env) (at_environment env id req image address)
            (build_environment-Frees req.env)
            (λ vars.
              bind-Frees (find_auth_key env req) (at_key env id req image address vars)
                (find_auth_key-Frees req)
                (λ auth_key.
                  bind-Frees (or_clean_up env id "" (uses_zfs env) (generate_cloud_init env id))
                    (at_cloud env id req image address vars auth_key)
                    (or_clean_up-Frees "" (uses_zfs env) (generate_cloud_init env id))
                    (λ cloud.
                      bind-Frees
                        (or_clean_up env id "" (uses_zfs env) (find_image_source env image))
                        (at_source env id req image address vars auth_key cloud)
                        (or_clean_up-Frees "" (uses_zfs env) (find_image_source env image))
                        (λ source. start_recorded-Frees req image auth_key _)))))

  -- Where `CreateTask` fails for an id that had no address, the pool holds none for it afterwards, if
  -- the backend deletes what it is asked to and the pool can be saved.
  pub create_new_task-freed :
      (request : CreateTaskRequest) (w : World) {e : Error}
      → allocation_of id w ≡ none
      → (create_new_task env id request w).0 ≡ err e
      → allocation_of id (create_new_task env id request w).1 ≡ none
  unfolding create_new_task
  create_new_task-freed request w {e} fresh failed =
      let req = with_defaults request in
      let chosen = resolve_task_image env req.image in
      bind-freed chosen (λ image. allocate_address env id >>= create_with_address env req id image)
        w e
        (λ x q. same_pool w (chosen w).1 (resolve_task_image-Quiet env req.image w).1 id ∙ fresh)
        (λ image.
          bind-Frees (allocate_address env id) (create_with_address env req id image)
            allocate_address-Frees (create_with_address-Frees req image))
        failed
