-- ===== src/Daemon/Registry.antt =====
-- The image registry, pkg/daemon/image_registry.go: image rows and base datasets. Its mutex makes
-- each method one step.
pub mod Rows
pub mod Import
use Prim.Native.Char.{Char, code}
use stockyard.Base.{
  leb, ◌||◌, ◌==◌, ℕ, Bool, true, false, not, ◌&&◌, String, str_append, Option, none, some, List,
  [], ◌∷◌, Result, ok, err, str_eq, if◌then◌else◌,
}
use stockyard.Daemon.World.{
  ImageRecord, Error, other, stat_file, import_rootfs, destroy_image_dataset, snapshot_there, Env,
  World, M, ◌>>=◌, ◌>>◌, done, return, throw, when, ignore, call,
}
use stockyard.Daemon.Images.{
  create_image, get_image, get_image_by_dataset, list_images, update_image_size, delete_image,
}
use stockyard.Daemon.Tasks.{destroy_tasks_by_image}

abbrev dash : Char
dash = "-"

abbrev pub is_dataset_char : ℕ → Bool
is_dataset_char c =
    (leb 97 c && leb c 122)
    || (leb 65 c && leb c 90)
    || (leb 48 c && leb c 57)
    || c == 45
    || c == 95
    || c == 46

-- `SanitizeDatasetComponent` of pkg/zfs/zfs.go
unfoldable pub sanitize_dataset_component : String → String
sanitize_dataset_component String.[] = String.[]
sanitize_dataset_component (String.◌∷◌ c s) =
    String.◌∷◌ (if is_dataset_char (code c) then c else dash) (sanitize_dataset_component s)

module _ (env : Env) where
  unfoldable pub dataset_path_for : String → String
  dataset_path_for dataset =
      str_append env.pool_name
        (str_append "/" (str_append env.images_path (str_append "/" dataset)))

  unfoldable pub snapshot_path_for : String → String
  unfolding dataset_path_for
  snapshot_path_for dataset = str_append (dataset_path_for dataset) "@base"

  -- The result of a look-up whose error is not passed on: `if x, err := …; err == nil`.
  unfoldable pub attempt : {A : Type 0} → M A → M (Option A)
  attempt m w = let (r, w') = m w in elim r [ ok a ↦ (ok (some a), w') | err e ↦ (ok none, w') ]

  -- `ValidateImage`; a miss lists the names for its error text.
  unfoldable pub validate_registered : String → M (Unit {0})
  unfolding attempt
  validate_registered ref = do
    found ← attempt (get_image env ref)
    elim found [
      | some r ↦ done
      | none ↦ do attempt (list_images env); throw (other "image not found on host")
    ]

  -- `os.Stat`, with the size of the file
  unfoldable pub stat : String → M ℕ
  stat path = do call env (stat_file path); λ w. (ok (env.file_size w.history), w)

  unfoldable pub require_file : String → M (Unit {0})
  unfolding stat
  require_file path = do stat path; done

  -- The name is free for the dataset, or the dataset is the name's own.
  unfoldable pub check_collision : String → Option ImageRecord → M (Unit {0})
  check_collision name none = done
  check_collision name (some r) =
      if str_eq r.name name then done else throw (other "dataset already used by another image")

  -- What is left of the image that the import replaces goes first.
  unfoldable pub clear_existing : String → Option ImageRecord → M (Unit {0})
  clear_existing name none = done
  clear_existing name (some r) = do
    destroy_tasks_by_image env name
    call env (destroy_image_dataset (dataset_path_for r.dataset))
    delete_image env name

  -- The row; where it cannot be written, the new dataset is destroyed again.
  unfoldable pub register : ImageRecord → M (Unit {0})
  register rec w =
      let (r, w') = create_image env rec w in
      elim r [
        | ok _ ↦ (ok tt, w')
        | err e ↦
            let (_, w'') = call env (destroy_image_dataset (dataset_path_for rec.dataset)) w' in
            (err e, w'')
      ]

  unfoldable pub dataset_of : String → String
  unfolding sanitize_dataset_component
  dataset_of name = if str_eq name "default" then "rootfs" else sanitize_dataset_component name

  unfoldable pub write_image_data : String → String → String → ℕ → M (Unit {0})
  unfolding register
  write_image_data name dataset kernel_path size = do
    call env (import_rootfs (dataset_path_for dataset))
    λ w.
        register
          (record {
            name = name;
            dataset = dataset;
            kernel_path = kernel_path;
            size_bytes = size;
            created_at = env.now w.history;
          })
          w

  -- From the collision check on.
  unfoldable pub replace_image : String → String → String → ℕ → M (Unit {0})
  unfolding attempt check_collision clear_existing write_image_data
  replace_image name dataset kernel_path size = do
    owner ← attempt (get_image_by_dataset env dataset)
    check_collision name owner
    existing ← attempt (get_image env name)
    clear_existing name existing
    write_image_data name dataset kernel_path size

  unfoldable pub import_image : String → String → String → M (Unit {0})
  unfolding stat require_file dataset_of replace_image
  import_image name rootfs_path kernel_path =
      if str_eq name "" then throw (other "image name is required") else (do
        size ← stat rootfs_path
        when (not (str_eq kernel_path "")) (require_file kernel_path)
        replace_image name (dataset_of name) kernel_path size)

  -- A miss is answered by `ValidateImage`, which looks again.
  unfoldable pub remove_found : String → Option ImageRecord → M (Unit {0})
  unfolding validate_registered
  remove_found name none = validate_registered name
  remove_found name (some r) = do
    destroy_tasks_by_image env name
    call env (destroy_image_dataset (dataset_path_for r.dataset))
    delete_image env name

  unfoldable pub remove_image : String → M (Unit {0})
  unfolding attempt remove_found
  remove_image name =
      if str_eq name "default"
      then throw (other "the default image cannot be removed")
      else (do found ← attempt (get_image env name); remove_found name found)

  -- The size of the configured file, where it can be read.
  unfoldable pub size_or_zero : Option ℕ → ℕ
  size_or_zero none = 0
  size_or_zero (some n) = n

  unfoldable pub seed_default : String → Option ImageRecord → M ImageRecord
  unfolding attempt stat size_or_zero
  seed_default rootfs_path (some r) = return r
  seed_default rootfs_path none = do
    now ← (λ w. (ok (env.now w.history), w))
    size ← attempt (stat rootfs_path)
    let rec : ImageRecord = record {
      name = "default";
      dataset = "rootfs";
      kernel_path = "";
      size_bytes = size_or_zero size;
      created_at = now;
    }
    create_image env rec
    return rec

  -- `SnapshotExists` answers by the outcome of its command.
  unfoldable pub heal_default : String → ImageRecord → M (Unit {0})
  unfolding attempt stat
  heal_default rootfs_path rec w =
      let (r, w') = call env (snapshot_there (snapshot_path_for rec.dataset)) w in
      elim r [
        | ok _ ↦ (ok tt, w')
        | err _ ↦
            (do
              call env (import_rootfs (dataset_path_for rec.dataset))
              size ← attempt (stat rootfs_path)
              elim size [ none ↦ done | some n ↦ ignore (update_image_size env "default" n) ])
              w'
      ]

  unfoldable pub ensure_default : String → M (Unit {0})
  unfolding attempt seed_default heal_default
  ensure_default rootfs_path = do
    found ← attempt (get_image env "default")
    rec ← seed_default rootfs_path found
    heal_default rootfs_path rec
