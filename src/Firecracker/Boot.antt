-- ===== src/Firecracker/Boot.antt =====
-- What CreateVM and StartVM of pkg/firecracker/client.go do with a VM whose process has been
-- started: they configure it by its API socket and start the instance. A failure kills the process
-- and releases what the VM holds; StartVM has no clone of its own to release.
pub mod Release
pub mod Abandon
pub mod Running
use stockyard.Base.{
  ℕ, ◌+◌, ◌%◌, ◌^◌, Text, codes, text_eq, Bool, true, false, String, [], ◌∷◌, ◌++◌, ok, err, insert,
  if◌then◌else◌,
}
use stockyard.Base.Steps.{◌>>=◌, ◌>>◌, return, done, ignore, map_err}
use stockyard.Firecracker.Host.{
  Call, zfs, kill, wait_socket, read_file, write_file, make_fifo, open_fifo, put, boot_source,
  drive, network_interface, machine_config, vsock, mmds_config, mmds_data, metrics, start_instance,
  Fault, wrapped, other, is_exist, is_process_death, Env, TrackedProc, M, effect, call, start,
}
use stockyard.Firecracker.Network.{delete_tap}
use stockyard.Firecracker.Config.{VmConfig, VmInfo, build_mmds_data}
use stockyard.Firecracker.Delete.{api_socket_path}

-- `allocateCID`: a uint32 counter
unfoldable pub allocate_cid : M ℕ
allocate_cid w = (ok w.cid_counter, record w { cid_counter = (w.cid_counter + 1) % 2 ^ 32 })

-- `destroyZFSDataset`
unfoldable pub destroy_zfs_dataset : Text → M (Unit {0})
destroy_zfs_dataset dataset =
    if text_eq dataset [] then done else effect (zfs (codes "destroy" ∷ codes "-r" ∷ dataset ∷ []))

-- `c.procs[id] = proc`
unfoldable pub track : String → ℕ → M (Unit {0})
track id pid w = (
  ok tt,
  record w {
    procs = insert id (record { serial = w.next_serial; pid = pid }) w.procs;
    next_serial = w.next_serial + 1;
  },
)

-- The kernel's command line.
unfoldable pub boot_args : Text → Text
boot_args static_ip_args =
    codes "console=ttyS0 reboot=k panic=1 pci=off root=/dev/vda rw"
    ++ (if text_eq static_ip_args [] then [] else codes " " ++ static_ip_args)

module _ (env : Env) where
  abbrev pub file : Text → String → Text
  file dir name = env.join (dir ∷ codes name ∷ [])

  -- The clone and the tap of a VM that could not be created; their errors are dropped.
  unfoldable pub release_vm : Text → Text → M (Unit {0})
  unfolding destroy_zfs_dataset
  release_vm dataset tap = do destroy_zfs_dataset dataset; ignore (delete_tap env tap)

  unfoldable pub or_release : {A : Type 0} → String → Text → Text → M A → M A
  or_release what dataset tap m w =
      let (r, w') = m w in
      elim r [
        | ok a ↦ (ok a, w')
        | err e ↦ let (s, w'') = release_vm dataset tap w' in (err (wrapped what e), w'')
      ]

  -- The same, once there is a process.
  unfoldable pub or_abandon : {A : Type 0} → String → ℕ → Text → Text → M A → M A
  or_abandon what pid dataset tap m w =
      let (r, w') = m w in
      elim r [
        | ok a ↦ (ok a, w')
        | err e ↦
            let (s, w'') = release_vm dataset tap (record w' { history = kill pid ∷ w'.history }) in
            (err (wrapped what e), w'')
      ]

  unfoldable pub write_process_metadata : Text → ℕ → Text → Text → M (Unit {0})
  write_process_metadata dir pid pid_text socket = do
    map_err (wrapped "write Firecracker PID")
        (call env (write_file (file dir "firecracker.pid") pid_text))
    map_err (wrapped "write Firecracker API socket path")
        (call env (write_file (file dir "api.sock.path") socket))

  -- The files for the output, and the process.
  unfoldable pub start_process : Text → Text → Text → M ℕ
  start_process dir dataset tap = do
    effect (write_file (file dir "stdout.log") [])
    effect (write_file (file dir "stderr.log") [])
    or_release "failed to start firecracker" dataset tap
        (call env (start env.firecracker_bin (codes "--api-sock" ∷ api_socket_path env dir ∷ [])))
    λ w. (ok (env.pid w.history), w)

  -- `WaitForSocketOrDeath` and what follows its error.
  unfoldable pub await_socket : Text → ℕ → Text → Text → M (Unit {0})
  await_socket dir pid dataset tap w =
      let (r, w') = call env (wait_socket (api_socket_path env dir)) w in
      elim r [
        | ok _ ↦ (ok tt, w')
        | err e ↦
            let (s, w'') = release_vm dataset tap (record w' { history = kill pid ∷ w'.history }) in
            if is_process_death e
            then (
              err (other "firecracker exited immediately"),
              record w'' { history = read_file (file dir "stderr.log") ∷ w''.history },
            )
            else (err (wrapped "wait for API socket" e), w'')
      ]

  -- The FIFO that the metrics are written to. One that exists is used.
  unfoldable pub make_metrics_fifo : Text → M (Unit {0})
  make_metrics_fifo path w =
      let (r, w') = call env (make_fifo path) w in
      elim r [ ok _ ↦ (ok tt, w') | err e ↦ if is_exist e then (ok tt, w') else (err e, w') ]

  module _ (config : VmConfig) (dir : Text) (pid : ℕ) (dataset tap : Text) where
    abbrev request : String → Call → M (Unit {0})
    request what c = or_abandon what pid dataset tap (call env c)

    abbrev socket : Text
    socket = api_socket_path env dir

    -- Up to the machine's size.
    unfoldable pub configure_machine : Text → Text → M (Unit {0})
    unfolding boot_args
    configure_machine mac rootfs = do
      request "set boot source"
          (put socket (boot_source config.kernel_path (boot_args config.static_ip_args)))
      request "set drive" (put socket (drive (codes "rootfs") rootfs true false))
      request "set network interface" (put socket (network_interface (codes "eth0") mac tap))
      request "set machine config" (put socket (machine_config config.vcpu config.memory_mb))

    -- The vsock device and the metadata; the result is the context id.
    unfoldable pub configure_guest : M ℕ
    configure_guest = do
      cid ← allocate_cid
      request "set vsock" (put socket (vsock cid (file dir "vsock.sock")))
      request "set MMDS config" (put socket (mmds_config (codes "eth0" ∷ [])))
      request "set MMDS data" (put socket (mmds_data (build_mmds_data env.base64 config)))
      return cid

    unfoldable pub start_with_metrics : M (Unit {0})
    unfolding make_metrics_fifo
    start_with_metrics = do
      or_abandon "create metrics fifo" pid dataset tap (make_metrics_fifo (file dir "metrics.fifo"))
      request "open metrics fifo" (open_fifo (file dir "metrics.fifo"))
      effect (put socket (metrics (file dir "metrics.fifo")))
      request "start instance" (put socket start_instance)

    abbrev pub info : Text → Text → ℕ → ℕ → VmInfo
    info namespace rootfs cid now = record {
      id = config.id;
      namespace = namespace;
      pid = pid;
      api_socket_path = socket;
      rootfs_path = rootfs;
      metrics_path = file dir "metrics.fifo";
      cid = cid;
      vsock_path = file dir "vsock.sock";
      state = codes "running";
      created_at = now;
    }

    -- From the tracking of the process to the result.
    unfoldable pub boot : Text → Text → Text → M VmInfo
    unfolding await_socket configure_machine configure_guest start_with_metrics
    boot namespace mac rootfs = do
      track config.id pid
      await_socket dir pid dataset tap
      configure_machine mac rootfs
      cid ← configure_guest
      start_with_metrics
      λ w. (ok (info namespace rootfs cid (env.now w.history)), w)
