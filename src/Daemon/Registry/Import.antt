-- ===== src/Daemon/Registry/Import.antt =====
-- What `Import` of pkg/daemon/image_registry.go leaves in the table `images`.
use stockyard.Base.{
  ◌≡◌, ◌≢◌, ◌⊎◌, inl, inr, refl, String, Option, none, some, Result, ok, err, subst, Result-cases,
  Bool-cases, arith, not, str_eq, ℕ,
}
use stockyard.Daemon.World.{
  ImageRecord, Error, other, Env, World, M, ◌>>=◌, ◌>>◌, when, call, import_rootfs,
  destroy_image_dataset,
}
use stockyard.Daemon.Keeps.{Keeps, then-Keeps, call-Keeps}
use stockyard.Daemon.Tasks.{destroy_tasks_by_image}
use stockyard.Daemon.Images.{
  find_image, create_image, delete_image, get_image, get_image_by_dataset,
}
use stockyard.Daemon.Registry.{
  attempt, check_collision, clear_existing, register, write_image_data, replace_image, import_image,
  dataset_of, stat, require_file, dataset_path_for,
}
use stockyard.Daemon.Images.Distinct.{create_image_lem}
use stockyard.Daemon.Registry.Rows.{
  OtherImages, others-Closed, others-delete, others-create, destroy_tasks-others,
}

module _ (env : Env) (name kernel_path : String) (v : World) where
  -- The row that an import writes is there.
  abbrev pub Registered : World → Type 0
  Registered w =
      (r : ImageRecord) × (find_image name w.images ≡ some r)
      × (r.dataset ≡ dataset_of env name)
      × (r.kernel_path ≡ kernel_path)

  abbrev pub Ends : Result Error (Unit {0}) × World → Type 0
  Ends o = OtherImages name v o.1 × (((e : Error) × (o.0 ≡ err e)) ⊎ (o.0 ≡ ok tt) × Registered o.1)

  abbrev Registers : M (Unit {0}) → Type 0
  Registers m = (w : World) → OtherImages name v w → Ends (m w)

  bind-Registers :
      {A : Type 0} (m : M A) (f : A → M (Unit {0}))
      → Keeps (OtherImages name v) m
      → ((a : A) → Registers (f a))
      → Registers (m >>= f)
  bind-Registers m f km kf w h = elim (Result-cases (m w).0) [
    | inl (a, e) ↦ rw (e, ◌>>=◌) (kf a (m w).1 (km w h))
    | inr (x, e) ↦ rw (e, ◌>>=◌) (km w h, inl (x, refl))
  ]

  module _ (rec : ImageRecord) (same : rec.name ≡ name)
      (dataset : rec.dataset ≡ dataset_of env name) (kernel : rec.kernel_path ≡ kernel_path) where
    create_image-Registers : Registers (create_image env rec)
    create_image-Registers w h = (
      others-create env name v rec same w h,
      elim (create_image_lem env rec w) [
        | inl (fine, _, _, found, _, _) ↦ inr (
          fine,
          (
            rec,
            subst (λ n. find_image n (create_image env rec w).1.images ≡ some rec) same found,
            dataset,
            kernel,
          ),
        )
        | inr ((e, failed), _) ↦ inl (e, failed)
      ],
    )

    register-Registers : Registers (register env rec)
    unfolding register
    register-Registers w h =
        let w₁ = (create_image env rec w).1 in
        let c = create_image-Registers w h in
        elim c.1 [
          | inr (fine, there) ↦ rw (fine, register) (c.0, inr (refl, there))
          | inl (e, failed) ↦
              rw (failed, register)
                (
                  call-Keeps (OtherImages name v) (others-Closed env name v) env
                      (destroy_image_dataset (dataset_path_for env rec.dataset)) w₁ c.0,
                  inl (e, refl),
                )
        ]

  abbrev row_at : ℕ → World → ImageRecord
  row_at size w = record {
    name = name;
    dataset = dataset_of env name;
    kernel_path = kernel_path;
    size_bytes = size;
    created_at = env.now w.history;
  }

  write_image_data-Registers :
      (size : ℕ) → Registers (write_image_data env name (dataset_of env name) kernel_path size)
  unfolding write_image_data
  write_image_data-Registers size =
      let path = dataset_path_for env (dataset_of env name) in
      bind-Registers (call env (import_rootfs path)) (λ _ w. register env (row_at size w) w)
        (call-Keeps (OtherImages name v) (others-Closed env name v) env (import_rootfs path))
        (λ _ w h. register-Registers (row_at size w) refl refl refl w h)

  clear_existing-others :
      (found : Option ImageRecord) → Keeps (OtherImages name v) (clear_existing env name found)
  unfolding clear_existing
  clear_existing-others none w h = h
  clear_existing-others (some r) w h =
      let path = dataset_path_for env r.dataset in
      then-Keeps (OtherImages name v) (destroy_tasks_by_image env name)
        (call env (destroy_image_dataset path) >> delete_image env name)
        (destroy_tasks-others env name v name)
        (then-Keeps (OtherImages name v) (call env (destroy_image_dataset path))
          (delete_image env name)
          (call-Keeps (OtherImages name v) (others-Closed env name v) env
            (destroy_image_dataset path))
          (others-delete env name v))
        w h

  look-others : (n : String) → Keeps (OtherImages name v) (attempt env (get_image env n))
  unfolding attempt get_image
  look-others n w h m ne = ground (arith, h m ne)

  look_by_dataset-others :
      (d : String) → Keeps (OtherImages name v) (attempt env (get_image_by_dataset env d))
  unfolding attempt get_image_by_dataset
  look_by_dataset-others d w h m ne = ground (arith, h m ne)

  check_collision-others :
      (found : Option ImageRecord) → Keeps (OtherImages name v) (check_collision env name found)
  unfolding check_collision
  check_collision-others none w h m ne = h m ne
  check_collision-others (some r) w h m ne = ground (arith, h m ne)

  stats-others : (path : String) → Keeps (OtherImages name v) (stat env path)
  unfolding stat
  stats-others path w h m ne = ground (arith, h m ne)

  kernel-others :
      Keeps (OtherImages name v) (when (not (str_eq kernel_path "")) (require_file env kernel_path))
  unfolding stat require_file
  kernel-others w h m ne = ground (arith, h m ne)

  abbrev cleared : ℕ → Option ImageRecord → M (Unit {0})
  cleared size existing =
      clear_existing env name existing
      >> write_image_data env name (dataset_of env name) kernel_path size

  abbrev checked : ℕ → Option ImageRecord → M (Unit {0})
  checked size owner =
      check_collision env name owner >> (attempt env (get_image env name) >>= cleared size)

  replace_image-Registers :
      (size : ℕ) → Registers (replace_image env name (dataset_of env name) kernel_path size)
  unfolding replace_image
  replace_image-Registers size =
      bind-Registers (attempt env (get_image_by_dataset env (dataset_of env name))) (checked size)
        (look_by_dataset-others (dataset_of env name))
        (λ owner.
          bind-Registers (check_collision env name owner)
            (λ _. attempt env (get_image env name) >>= cleared size) (check_collision-others owner)
            (λ _.
              bind-Registers (attempt env (get_image env name)) (cleared size) (look-others name)
                (λ existing.
                  bind-Registers (clear_existing env name existing)
                    (λ _. write_image_data env name (dataset_of env name) kernel_path size)
                    (clear_existing-others existing) (λ _. write_image_data-Registers size))))

  import-Registers :
      (rootfs_path : String) → Registers (import_image env name rootfs_path kernel_path)
  unfolding import_image
  import-Registers rootfs_path w h = elim (Bool-cases (str_eq name "")) [
    | inl e ↦ rw (e, import_image) (h, inl (other "image name is required", refl))
    | inr e ↦
        rw (e, import_image)
          (bind-Registers (stat env rootfs_path)
            (λ size.
              when (not (str_eq kernel_path "")) (require_file env kernel_path)
              >> replace_image env name (dataset_of env name) kernel_path size)
            (stats-others rootfs_path)
            (λ size.
              bind-Registers (when (not (str_eq kernel_path "")) (require_file env kernel_path))
                (λ _. replace_image env name (dataset_of env name) kernel_path size) kernel-others
                (λ _. replace_image-Registers size))
            w h)
  ]

-- `Import` leaves the row of any other image `other_name` as it was, whether it fails or not. Where it
-- returns no error, the image's row is there, with the dataset of its name and the given kernel.
pub import_image_lem :
    (env : Env) (name rootfs_path kernel_path : String) (w : World) (other_name : String)
    → name ≢ other_name
    → let (r, v) = import_image env name rootfs_path kernel_path w in
      (find_image other_name v.images ≡ find_image other_name w.images)
      × (((e : Error) × (r ≡ err e)) ⊎ (r ≡ ok tt) × Registered env name kernel_path w v)
import_image_lem env name rootfs_path kernel_path w other_name ne =
    let ends = import-Registers env name kernel_path w rootfs_path w (λ m ne. refl) in
    (ends.0 other_name ne, ends.1)
