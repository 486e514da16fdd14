-- ===== src/Daemon/Create/Outcome.antt =====
-- What `CreateTask` leaves in the database, on success and on failure.
use stockyard.Base.{
  ◌≡◌, ◌≢◌, ◌⊎◌, inl, inr, refl, ap, ◌∙◌, Bool, String, none, [], ◌∷◌, ◌++◌, Result, ok, err,
  Option-cases, Result-cases, Bool-cases, if◌then◌else◌, arith, str_eq, subst,
}
use stockyard.Daemon.World.{
  Task, VmConfig, VmInfo, Error, other, task_cleanup_pending, insert_task, Env, World, M, ◌>>=◌,
  ◌>>◌, return,
}
use stockyard.Daemon.State.{find_task, create_task, cleanup_pending}
use stockyard.Daemon.Keeps.{Keeps}
use stockyard.Daemon.Closing.{allocation_of}
use stockyard.Daemon.Tasks.{uses_zfs}
use stockyard.Daemon.Create.{
  or_clean_up, build_environment, find_auth_key, generate_cloud_init, find_image_source,
  resolve_task_image, allocate_address, create_workspace, make_vm, record_task, announce_created,
  start_recorded, create_with_address, create_new_task, Address,
}
use stockyard.Daemon.Create.Config.{CreateTaskRequest, with_defaults, build_hostname}
use stockyard.Daemon.Create.After.{at_source, at_cloud, at_key, at_environment, at_workspace}
use stockyard.Daemon.Create.Stages.{
  same_pool, create_workspace-Begun, Begun, Quiet-Begun, allocate_address-Begun, cleanup-Begun,
  or_clean_up-Begun, build_environment-Quiet, find_auth_key-Quiet, generate_cloud_init-Quiet,
  find_image_source-Quiet, make_vm-Quiet, resolve_task_image-Quiet,
}

-- The row that a creation adds: `running`, and the only one with its id.
abbrev pub Added : String → World → Task → World → Type 0
Added id v t w =
    (find_task id v.tasks ≡ none)
    × (t.id ≡ id)
    × (t.status ≡ "running")
    × (w.tasks ≡ v.tasks ++ (t ∷ []))
    × ((j : String) → id ≢ j → allocation_of j w ≡ allocation_of j v)

-- An error, and no row has changed; or the task, whose row has been added.
abbrev pub Creates : String → World → Result Error Task × World → Type 0
Creates id v o =
    ((e : Error) × (o.0 ≡ err e)) × Begun id v o.1 ⊎ ((t : Task) × (o.0 ≡ ok t) × Added id v t o.1)

module _ (env : Env) (id : String) (v : World) where
  abbrev Makes : M Task → Type 0
  Makes m = (w : World) → Begun id v w → Creates id v (m w)

  bind-Makes :
      {A : Type 0} (m : M A) (f : A → M Task)
      → Keeps (Begun id v) m
      → ((a : A) → Makes (f a))
      → Makes (m >>= f)
  bind-Makes m f km kf w h = elim (Result-cases (m w).0) [
    | inl (a, e) ↦ rw (e, ◌>>=◌) (kf a (m w).1 (km w h))
    | inr (x, e) ↦ rw (e, ◌>>=◌) (inl ((x, refl), km w h))
  ]

  -- The INSERT fails and changes nothing, or adds the row, whose id was free.
  create_task-cases :
      (t : Task) (w : World)
      → ((create_task env t w).1.pool ≡ w.pool)
        × (((e : Error) × ((create_task env t w).0 ≡ err e))
              × ((create_task env t w).1.tasks ≡ w.tasks)
            ⊎ ((create_task env t w).0 ≡ ok tt)
              × (find_task t.id w.tasks ≡ none)
              × ((create_task env t w).1.tasks ≡ w.tasks ++ (t ∷ [])))
  unfolding create_task
  create_task-cases t w = elim (Bool-cases (str_eq t.status cleanup_pending)) [
    | inl q ↦ (ground arith, inl ((task_cleanup_pending, ground arith), ground arith))
    | inr q ↦ elim (Option-cases (env.outcome (insert_task t.id ∷ w.history))) [
      | inr (text, e) ↦ (ground arith, inl ((other text, ground arith), ground arith))
      | inl e ↦ elim (Option-cases (find_task t.id w.tasks)) [
        | inl f ↦ (ground arith, inr (ground arith, f, ground arith))
        | inr (u, f) ↦
            (ground arith, inl ((other "failed to create task", ground arith), ground arith))
      ]
    ]
  ]

  create_task-Makes :
      (t : Task) → t.id ≡ id → t.status ≡ "running" → Makes (create_task env t >> return t)
  create_task-Makes t same running w h =
      let c = create_task-cases t w in
      let kept : ((j : String)
          → id ≢ j
          → allocation_of j (create_task env t w).1 ≡ allocation_of j v) =
        λ j ne. same_pool w (create_task env t w).1 c.0 j ∙ h.1 j ne in
      elim c.1 [
        | inl ((e, failed), rows) ↦ rw (failed, ◌>>◌) (inl ((e, refl), (rows ∙ h.0, kept)))
        | inr (fine, free, rows) ↦
            rw (fine, ◌>>◌)
              (inr (
                t,
                refl,
                (
                  subst (λ i. find_task i v.tasks ≡ none) same
                      (subst (λ ts. find_task t.id ts ≡ none) h.0 free),
                  same,
                  running,
                  rows ∙ ap (λ ts. ts ++ (t ∷ [])) h.0,
                  kept,
                ),
              ))
      ]

  or_clean_up-Makes :
      (vm_id : String) (created : Bool) (m : M Task)
      → Makes m
      → Makes (or_clean_up env id vm_id created m)
  unfolding or_clean_up
  or_clean_up-Makes vm_id created m km w h = elim (km w h) [
    | inl ((x, e), b) ↦
        rw (e, or_clean_up) (inl ((_, refl), cleanup-Begun env id v vm_id created (m w).1 b))
    | inr (t, e, a) ↦ rw (e, or_clean_up) (inr (t, refl, a))
  ]

  record_task-Makes :
      (req : CreateTaskRequest) (image hostname : String) (vm : VmInfo)
      → Makes (record_task env req id image hostname vm)
  unfolding record_task
  record_task-Makes req image hostname vm w h = create_task-Makes _ refl refl w h

  announce_created-done :
      (vm_id hostname : String) (w : World)
      → let o = announce_created env id vm_id hostname w in
        (o.0 ≡ ok tt) × (o.1.tasks ≡ w.tasks) × (o.1.pool ≡ w.pool)
  unfolding announce_created
  announce_created-done vm_id hostname w = ground arith

  announce-Makes :
      (m : M Task) (vm_id hostname : String)
      → Makes m
      → Makes (m >>= (λ t. announce_created env id vm_id hostname >> return t))
  announce-Makes m vm_id hostname km w h = elim (km w h) [
    | inl ((x, e), b) ↦ rw (e, ◌>>=◌) (inl ((_, refl), b))
    | inr (t, e, (free, same, running, rows, kept)) ↦
        let w₁ = (m w).1 in
        let c = announce_created-done vm_id hostname w₁ in
        rw (e, ◌>>=◌, ◌>>◌, c.0)
          (inr (
            t,
            refl,
            (
              free,
              same,
              running,
              c.1 ∙ rows,
              λ j ne. same_pool w₁ (announce_created env id vm_id hostname w₁).1 c.2 j ∙ kept j ne,
            ),
          ))
  ]

  start_recorded-Makes :
      (req : CreateTaskRequest) (image auth_key : String) (config : VmConfig)
      → Makes (start_recorded env req id image auth_key config)
  unfolding start_recorded
  start_recorded-Makes req image auth_key config =
      let hostname : String = if str_eq auth_key "" then "" else build_hostname id in
      bind-Makes (or_clean_up env id id (uses_zfs env) (make_vm env config))
        (λ vm.
          or_clean_up env id vm.id (uses_zfs env) (record_task env req id image hostname vm)
          >>= (λ t. announce_created env id vm.id hostname >> return t))
        (or_clean_up-Begun env id v id (uses_zfs env) (make_vm env config)
          (Quiet-Begun env id v (make_vm env config) (make_vm-Quiet env config)))
        (λ vm.
          announce-Makes
            (or_clean_up env id vm.id (uses_zfs env) (record_task env req id image hostname vm))
            vm.id hostname
            (or_clean_up-Makes vm.id (uses_zfs env) (record_task env req id image hostname vm)
              (record_task-Makes req image hostname vm)))

  module _ (req : CreateTaskRequest) (image : String) (address : Address) where
    create_with_address-Makes : Makes (create_with_address env req id image address)
    unfolding create_with_address
    create_with_address-Makes =
        bind-Makes (create_workspace env id) (at_workspace env id req image address)
          (create_workspace-Begun env id v)
          (λ workspace.
            bind-Makes (build_environment env req.env) (at_environment env id req image address)
              (Quiet-Begun env id v (build_environment env req.env)
                (build_environment-Quiet env req.env))
              (λ vars.
                bind-Makes (find_auth_key env req) (at_key env id req image address vars)
                  (Quiet-Begun env id v (find_auth_key env req) (find_auth_key-Quiet env req))
                  (λ auth_key.
                    bind-Makes (or_clean_up env id "" (uses_zfs env) (generate_cloud_init env id))
                      (at_cloud env id req image address vars auth_key)
                      (or_clean_up-Begun env id v "" (uses_zfs env) (generate_cloud_init env id) (
                        Quiet-Begun env id v (generate_cloud_init env id)
                          (generate_cloud_init-Quiet env id)))
                      (λ cloud.
                        bind-Makes
                          (or_clean_up env id "" (uses_zfs env) (find_image_source env image))
                          (at_source env id req image address vars auth_key cloud)
                          (or_clean_up-Begun env id v "" (uses_zfs env)
                            (find_image_source env image)
                            (Quiet-Begun env id v (find_image_source env image)
                              (find_image_source-Quiet env image)))
                          (λ source. start_recorded-Makes req image auth_key _)))))

create_new_task-Creates :
    (env : Env) (id : String) (request : CreateTaskRequest) (w : World)
    → Creates id w (create_new_task env id request w)
unfolding create_new_task
create_new_task-Creates env id request w =
    let req = with_defaults request in
    bind-Makes env id w (resolve_task_image env req.image)
      (λ image. allocate_address env id >>= create_with_address env req id image)
      (Quiet-Begun env id w (resolve_task_image env req.image)
        (resolve_task_image-Quiet env req.image))
      (λ image.
        bind-Makes env id w (allocate_address env id) (create_with_address env req id image)
          (allocate_address-Begun env id w)
          (λ address. create_with_address-Makes env id w req image address))
      w (refl, λ j ne. refl)

-- `CreateTask` fails and leaves all rows as they were, or it returns the task, which has the new id
-- and is `running`; then no row had that id, and the task's row is the only change. The address of
-- another task `j` stays as it was in either case.
pub create_new_task_lem :
    (env : Env) (id : String) (request : CreateTaskRequest) (w : World) (j : String)
    → id ≢ j
    → let (r, v) = create_new_task env id request w in
      (allocation_of j v ≡ allocation_of j w)
      × (((e : Error) × (r ≡ err e)) × (v.tasks ≡ w.tasks)
          ⊎ ((t : Task) × (r ≡ ok t)
              × (find_task id w.tasks ≡ none)
              × (t.id ≡ id)
              × (t.status ≡ "running")
              × (v.tasks ≡ w.tasks ++ (t ∷ []))))
create_new_task_lem env id request w j ne = elim (create_new_task-Creates env id request w) [
  | inl (failed, (rows, kept)) ↦ (kept j ne, inl (failed, rows))
  | inr (t, q, (free, same, running, rows, kept)) ↦
      (kept j ne, inr (t, q, free, same, running, rows))
]
