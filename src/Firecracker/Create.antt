-- ===== src/Firecracker/Create.antt =====
-- `CreateVM` of pkg/firecracker/client.go.
pub mod Failure
pub mod Outcome
use stockyard.Base.{
  ℕ, Text, codes, text_eq, Bool, true, false, String, [], ◌∷◌, ◌++◌, ok, err, trim_space, decimal,
  if◌then◌else◌,
}
use stockyard.Base.Steps.{◌>>=◌, ◌>>◌, return, done, ignore, outcome_of, map_err}
use stockyard.Firecracker.Host.{
  mkdir_all, random_bytes, zfs, stat, read_file, write_file, kill, wait_child, Fault, wrapped,
  is_not_exist, Env, M, effect, call, ask,
}
use stockyard.Firecracker.Network.{tap_name_for_vm, create_tap, delete_tap}
use stockyard.Firecracker.Config.{VmConfig, VmInfo, validate, mac_of}
use stockyard.Firecracker.Processes.{join_fault}
use stockyard.Firecracker.Delete.{
  default_namespace, vm_dir, api_socket_path, vm_dataset_path, delete_vm,
}
use stockyard.Firecracker.Boot.{file, or_release, write_process_metadata, start_process, boot}

-- A rootfs and the clone that holds it, which has no name where there is none.
pub record Rootfs : Type 0 where
  pub path : Text
  pub dataset : Text

module _ (env : Env) where
  abbrev pub or_default : Text → Text → Text
  or_default given default = if text_eq given [] then default else given

  abbrev pub with_client_defaults : VmConfig → VmConfig
  with_client_defaults c = record c {
    kernel_path = or_default c.kernel_path env.kernel_path;
    rootfs_path = or_default c.rootfs_path env.rootfs_path;
  }

  abbrev pub check : VmConfig → M (Unit {0})
  check c w = elim (validate c) [
    | ok _ ↦ (ok tt, w)
    | err e ↦ (err (wrapped "invalid VM config" e), w)
  ]

  abbrev pub generate_mac : M Text
  generate_mac w =
      let h = random_bytes ∷ w.history in (ok (mac_of (env.text h)), record w { history = h })

  -- The tap of a VM; one of that name that is left is deleted first.
  unfoldable pub make_tap : Text → M (Unit {0})
  make_tap tap = do
    ignore (delete_tap env tap)
    map_err (wrapped "failed to create tap device") (create_tap env tap)

  abbrev pub parent_dataset : Text
  parent_dataset = env.pool_name ++ codes "/" ++ env.vms_path

  abbrev pub base_snapshot : Text
  base_snapshot = env.pool_name ++ codes "/" ++ env.images_path ++ codes "/rootfs@base"

  abbrev pub clone_mountpoint : Text → M Text
  clone_mountpoint dataset = do
    answer ← ask env env.text (
        zfs (
          codes "get"
          ∷ codes "-H"
          ∷ codes "-o"
          ∷ codes "value"
          ∷ codes "mountpoint"
          ∷ dataset
          ∷ []))
    return (trim_space answer)

  -- The clone of a snapshot.
  unfoldable pub clone_rootfs : VmConfig → Text → M Rootfs
  clone_rootfs config tap = do
    let dataset : Text = vm_dataset_path env config.id
    effect (zfs (codes "create" ∷ codes "-p" ∷ parent_dataset ∷ []))
    or_release env "failed to clone rootfs" [] tap (
        call env
          (zfs (codes "clone" ∷ or_default config.rootfs_snapshot base_snapshot ∷ dataset ∷ [])))
    mountpoint ←
        or_release env "failed to get clone mountpoint" dataset tap (clone_mountpoint dataset)
    return (record { path = file env mountpoint "rootfs.ext4"; dataset = dataset })

  -- `copyFile`
  unfoldable pub copy_file : Text → Text → M (Unit {0})
  copy_file from to = do
    content ← ask env env.text (read_file from)
    call env (write_file to content)

  -- The copy of a file, unless there is one.
  unfoldable pub copy_rootfs : VmConfig → Text → Text → M Rootfs
  unfolding copy_file
  copy_rootfs config dir tap = do
    let path : Text = file env dir "rootfs.ext4"
    seen ← outcome_of (call env (stat path))
    (elim seen [
      | ok _ ↦ done
      | err e ↦
          if is_not_exist e
          then or_release env "failed to copy rootfs" [] tap (copy_file config.rootfs_path path)
          else done
    ])
    return (record { path = path; dataset = [] })

  unfoldable pub make_rootfs : VmConfig → Text → Text → M Rootfs
  unfolding clone_rootfs copy_rootfs
  make_rootfs config dir tap =
      if env.has_zfs then clone_rootfs config tap else copy_rootfs config dir tap

  -- The files that tell a later daemon of the process. Their failure deletes the VM.
  unfoldable pub record_process : Text → String → Text → ℕ → M (Unit {0})
  record_process namespace id dir pid w =
      let (r, w') = write_process_metadata env dir pid (decimal pid) (api_socket_path env dir) w in
      elim r [
        | ok _ ↦ (ok tt, w')
        | err e ↦
            let (s, w'') =
              delete_vm env namespace id
                (record w' { history = wait_child pid ∷ kill pid ∷ w'.history }) in
            (err (join_fault e s), w'')
      ]

  -- From the tap on.
  unfoldable pub create_with_tap : VmConfig → Text → Text → Text → M VmInfo
  create_with_tap config namespace dir tap = do
    mac ← generate_mac
    rootfs ← make_rootfs config dir tap
    effect (write_file (file env dir "tap_name") tap)
    effect (write_file (file env dir "mac_addr") mac)
    pid ← start_process env dir rootfs.dataset tap
    record_process namespace config.id dir pid
    boot env config dir pid rootfs.dataset tap namespace mac rootfs.path

  unfoldable pub create_vm : VmConfig → M VmInfo
  unfolding make_tap create_with_tap
  create_vm given = do
    let config : VmConfig = with_client_defaults given
    let namespace : Text = default_namespace config.namespace
    let dir : Text = vm_dir env namespace config.id
    let tap : Text = tap_name_for_vm config.id
    check config
    map_err (wrapped "failed to create VM directory") (call env (mkdir_all dir))
    make_tap tap
    create_with_tap config namespace dir tap
