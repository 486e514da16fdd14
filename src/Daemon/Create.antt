-- ===== src/Daemon/Create.antt =====
-- `CreateTask` of pkg/daemon/tasks.go. The id that GenerateVMID draws is an argument.
pub mod Config
pub mod DotEnv
pub mod Environment
pub mod Stages
pub mod After
pub mod Outcome
pub mod Frees
use stockyard.Base.{
  ℕ, Bool, true, false, not, ◌&&◌, ◌||◌, String, str_append, Option, none, some, List, [], ◌∷◌,
  Result, ok, err, Text, codes, TextMap, put_text, str_eq, if◌then◌else◌,
}
use stockyard.Network.Pool.Defs.{
  IpPool, StaticNetworkConfig, allocate, kernel_ip_args, network_config,
}
use stockyard.Daemon.World.{
  Task, VmConfig, VmInfo, Error, not_allocated, other, joined, allocate_ip, create_dataset,
  mountpoint, get_secret, cloud_init, validate_image, create_vm, vm_started, tail_logs,
  wait_for_peer, Env, World, M, ◌>>=◌, ◌>>◌, done, return, throw, when, ignore, effect, call,
}
use stockyard.Daemon.State.{create_task}
use stockyard.Daemon.Images.{get_image}
use stockyard.Daemon.Tasks.{uses_zfs, cleanup_create_task}
use stockyard.Daemon.Registry.{validate_registered, snapshot_path_for}
use stockyard.Daemon.Create.Config.{
  CreateTaskRequest, with_defaults, is_firecracker, is_apple, default_image, join_words,
  is_valid_auth_key, build_hostname, build_vm_env, build_vm_metadata,
}

-- errors.Join
unfoldable pub join_errors : Error → List Error → Error
join_errors e [] = e
join_errors e (d ∷ ds) = joined e (join_errors d ds)

-- What the allocation of an address hands on: the kernel's arguments and the network of the VM.
pub record Address : Type 0 where
  pub static_ip_args : Text
  pub network : Option StaticNetworkConfig

-- The source of the root file system, and a kernel of the image's own.
pub record ImageSource : Type 0 where
  pub rootfs_snapshot : String
  pub kernel_path : String

module _ (env : Env) where
  -- `resolveTaskImage`; the registry validates where there is one, and else the backend.
  unfoldable pub resolve_task_image : String → M String
  resolve_task_image requested =
      if str_eq requested ""
      then return (default_image env)
      else if env.has_images
      then (do validate_registered env requested; return requested)
      else if env.has_backend && env.backend_validates
      then (do call env (validate_image requested); return requested)
      else throw (other "backend does not support per-task images yet")

  unfoldable pub allocate_address : String → M Address
  allocate_address id w = elim w.pool [
    | none ↦ (ok (record { static_ip_args = []; network = none }), w)
    | some p ↦
        let h = allocate_ip id ∷ w.history in
        let (r, p', d') = allocate (env.disk_fails h) id p w.disk in
        let w' = record w { pool = some p'; disk = d'; history = h } in
        elim r [
          | ok ip ↦ (
            ok (record { static_ip_args = kernel_ip_args id p'; network = network_config id p' }),
            w',
          )
          | err e ↦ (err (not_allocated e), w')
        ]
  ]

  -- An error from here on undoes what has been created, and reports what could not be undone.
  unfoldable pub or_clean_up : {A : Type 0} → String → String → Bool → M A → M A
  or_clean_up id vm_id dataset_created m w =
      let (r, w') = m w in
      elim r [
        | ok a ↦ (ok a, w')
        | err e ↦
            let (es, w'') = cleanup_create_task env id vm_id dataset_created w' in
            (err (join_errors e es), w'')
      ]

  unfoldable pub get_mountpoint : String → M String
  get_mountpoint id = do call env (mountpoint id); λ w. (ok (env.text w.history), w)

  -- The workspace; its path is empty where there is none.
  unfoldable pub create_workspace : String → M String
  unfolding get_mountpoint or_clean_up
  create_workspace id =
      if uses_zfs env
      then (do
        or_clean_up id "" false (call env (create_dataset id))
        or_clean_up id "" true (get_mountpoint id))
      else return ""

  -- `secrets.GetSecret`, whose error is dropped or only logged.
  unfoldable pub fetch_secret : String → M (Option String)
  fetch_secret name w =
      let (r, w') = call env (get_secret name) w in
      elim r [ ok _ ↦ (ok (some (env.text w'.history)), w') | err e ↦ (ok none, w') ]

  abbrev pub put_secret : Text → Option String → TextMap → TextMap
  put_secret key none m = m
  put_secret key (some secret) m = put_text key (codes secret) m

  unfoldable pub build_environment : TextMap → M TextMap
  unfolding fetch_secret
  build_environment env_vars = do
    api_key ← fetch_secret "anthropic-api-key"
    token ← fetch_secret "github-token"
    return (
        put_secret (codes "GITHUB_TOKEN") token
          (put_secret (codes "ANTHROPIC_API_KEY") api_key env_vars))

  abbrev pub valid_or_empty : Option String → String
  valid_or_empty none = ""
  valid_or_empty (some key) = if is_valid_auth_key key then key else ""

  -- The key to use, empty where Tailscale is not used.
  unfoldable pub find_auth_key : CreateTaskRequest → M String
  unfolding fetch_secret
  find_auth_key req =
      if req.no_tailscale
      then return ""
      else if not (str_eq req.tailscale_auth_key "")
      then return (valid_or_empty (some req.tailscale_auth_key))
      else (do key ← fetch_secret "tailscale-auth-key"; return (valid_or_empty key))

  unfoldable pub generate_cloud_init : String → M String
  generate_cloud_init id =
      if is_firecracker env
      then (do call env (cloud_init id); λ w. (ok (env.text w.history), w))
      else return ""

  unfoldable pub find_image_source : String → M ImageSource
  find_image_source image =
      if env.has_images
      then (do
        rec ← get_image env image
        return (record {
          rootfs_snapshot = snapshot_path_for env rec.dataset;
          kernel_path = rec.kernel_path;
        }))
      else return (record { rootfs_snapshot = ""; kernel_path = "" })

  -- The VM, or the zero values where there is no backend.
  unfoldable pub make_vm : VmConfig → M VmInfo
  make_vm config =
      if env.has_backend
      then (do call env (create_vm config); λ w. (ok (env.vm_info w.history), w))
      else return (record { id = ""; cid = 0; vsock_path = ""; ip = "" })

  -- The dashboard's feeds and the wait for the peer, none of which fails the creation.
  unfoldable pub announce_created : String → String → String → M (Unit {0})
  announce_created id vm_id tailscale_hostname = do
    when env.has_activity_feed (effect (vm_started id))
    when (env.has_log_tailer && not (str_eq vm_id "")) (effect (tail_logs id))
    when (not (str_eq tailscale_hostname "")) (ignore (call env (wait_for_peer tailscale_hostname)))

  -- The row of the new task, written last.
  unfoldable pub record_task : CreateTaskRequest → String → String → String → VmInfo → M Task
  record_task req id image tailscale_hostname vm w =
      let task : Task = record {
        id = id;
        name = req.name;
        command = join_words req.command;
        status = "running";
        vmid = vm.id;
        cid = vm.cid;
        vsock_path = vm.vsock_path;
        ip = vm.ip;
        owner = "";
        tailscale_hostname = tailscale_hostname;
        image = image;
        created_at = env.now w.history;
        stopped_at = none;
      } in
      (do create_task env task; return task) w

  module _ (req : CreateTaskRequest) (id : String) where
    abbrev pub vm_config : String → Address → TextMap → String → String → ImageSource → VmConfig
    vm_config image address vars auth_key data_text source = record {
      id = id;
      vcpu = req.cpus;
      memory_mb = req.memory_mb;
      kernel_path = source.kernel_path;
      rootfs_snapshot = source.rootfs_snapshot;
      image = image;
      cloud_init_data = data_text;
      ssh_authorized_keys = req.ssh_authorized_keys;
      dot_env = req.dot_env;
      env =
          build_vm_env (is_apple env) vars (codes auth_key) (codes (build_hostname id))
            address.static_ip_args req.dot_env;
      metadata = build_vm_metadata (is_apple env) id req.name address.network;
    }

    -- The VM and the row.
    unfoldable pub start_recorded : String → String → VmConfig → M Task
    unfolding or_clean_up make_vm record_task announce_created
    start_recorded image auth_key config = do
      vm ← or_clean_up id id (uses_zfs env) (make_vm config)
      let hostname : String = if str_eq auth_key "" then "" else build_hostname id
      task ← or_clean_up id vm.id (uses_zfs env) (record_task req id image hostname vm)
      announce_created id vm.id hostname
      return task

    -- From the address on.
    unfoldable pub create_with_address : String → Address → M Task
    unfolding create_workspace build_environment find_auth_key generate_cloud_init find_image_source
        start_recorded or_clean_up
    create_with_address image address = do
      workspace ← create_workspace id
      vars ← build_environment req.env
      auth_key ← find_auth_key req
      cloud ← or_clean_up id "" (uses_zfs env) (generate_cloud_init id)
      source ← or_clean_up id "" (uses_zfs env) (find_image_source image)
      start_recorded image auth_key (vm_config image address vars auth_key cloud source)

  unfoldable pub create_new_task : String → CreateTaskRequest → M Task
  unfolding resolve_task_image allocate_address create_with_address
  create_new_task id request = do
    let req : CreateTaskRequest = with_defaults request
    image ← resolve_task_image req.image
    address ← allocate_address id
    create_with_address req id image address
