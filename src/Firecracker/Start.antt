-- ===== src/Firecracker/Start.antt =====
-- `StartVM` of pkg/firecracker/client.go: a VM that was stopped gets a new process, with the rootfs
-- and the MAC address that it had.
use stockyard.Base.{ℕ, Text, text_eq, String, [], ◌∷◌, ok, err, trim_space, decimal, if◌then◌else◌}
use stockyard.Base.Steps.{◌>>=◌, ◌>>◌, return, map_err}
use stockyard.Firecracker.Host.{
  stat, read_file, write_file, remove, kill, wait_child, wrapped, Env, M, effect, call, ask,
}
use stockyard.Firecracker.Network.{tap_name_for_vm, delete_tap}
use stockyard.Firecracker.Config.{VmConfig, VmInfo}
use stockyard.Firecracker.Delete.{default_namespace, vm_dir, api_socket_path, vm_dataset_path}
use stockyard.Firecracker.Boot.{file, write_process_metadata, start_process, boot}
use stockyard.Firecracker.Create.{or_default, check, generate_mac, make_tap, clone_mountpoint}

module _ (env : Env) where
  -- The rootfs that the VM has.
  unfoldable pub find_rootfs : String → Text → M Text
  find_rootfs id dir =
      if env.has_zfs
      then (do
        mountpoint ←
            map_err (wrapped "failed to get VM rootfs mountpoint")
              (clone_mountpoint env (vm_dataset_path env id))
        return (file env mountpoint "rootfs.ext4"))
      else return (file env dir "rootfs.ext4")

  -- The MAC address that is recorded, or a new one, which is then recorded.
  unfoldable pub recall_mac : Text → M Text
  recall_mac dir w =
      let (r, w') = ask env env.text (read_file (file env dir "mac_addr")) w in
      let mac : Text = elim r [ ok content ↦ trim_space content | err e ↦ [] ] in
      (if text_eq mac []
          then (do
            fresh ← generate_mac env
            effect (write_file (file env dir "mac_addr") fresh)
            return fresh)
          else return mac)
        w'

  -- The files that tell a later daemon of the process. Their failure ends the process.
  unfoldable pub record_restart : Text → ℕ → Text → M (Unit {0})
  record_restart dir pid tap w =
      let (r, w') = write_process_metadata env dir pid (decimal pid) (api_socket_path env dir) w in
      elim r [
        | ok _ ↦ (ok tt, w')
        | err e ↦
            let (s, w'') =
              delete_tap env tap (record w' { history = wait_child pid ∷ kill pid ∷ w'.history }) in
            (err e, w'')
      ]

  -- From the tap on.
  unfoldable pub start_with_tap : VmConfig → Text → Text → Text → M VmInfo
  start_with_tap config namespace dir tap = do
    mac ← recall_mac dir
    effect (write_file (file env dir "tap_name") tap)
    effect (remove (api_socket_path env dir))
    pid ← start_process env dir [] tap
    record_restart dir pid tap
    boot env config dir pid [] tap namespace mac config.rootfs_path

  unfoldable pub start_vm : VmConfig → M VmInfo
  unfolding find_rootfs start_with_tap
  start_vm given = do
    let namespace : Text = default_namespace given.namespace
    let dir : Text = vm_dir env namespace given.id
    let tap : Text = tap_name_for_vm given.id
    rootfs ← find_rootfs given.id dir
    map_err (wrapped "VM rootfs not found") (call env (stat rootfs))
    let config : VmConfig = record given {
      kernel_path = or_default env given.kernel_path env.kernel_path;
      rootfs_path = rootfs;
    }
    check env config
    make_tap env tap
    start_with_tap config namespace dir tap
