-- ===== src/Backend/Firecracker.antt =====
-- pkg/vmbackend/firecracker.go: what the daemon asks of a VM, in the words of the Firecracker client.
pub mod Handover
use stockyard.Base.{
  ℕ, ℤ, pos, ◌≡◌, refl, Text, codes, String, Option, none, some, List, [], ◌∷◌, map, TextMap,
  find_text, text_eq, false, arith, true,
}
use stockyard.Base.Steps.{◌>>=◌, ◌>>◌, return}
use stockyard.Daemon.World.{VmConfig as DaemonConfig}
use stockyard.Firecracker.Host.{Env, Client, M, MmdsNetworkConfig}
use stockyard.Firecracker.Config.{VmConfig, VmInfo}
use stockyard.Firecracker.Create.{create_vm}
use stockyard.Firecracker.Start.{start_vm}
use stockyard.Firecracker.Vms.{
  VmStatus, pending, running, stopped, failed, unknown, Vm, get_vm, list_vms, stop_vm,
}
use stockyard.Firecracker.Delete.{delete_vm}

-- `m[key]`: empty where there is no such key
unfoldable pub text_at : Text → TextMap → Text
text_at key m = elim (find_text key m) [ none ↦ [] | some value ↦ value ]

-- The network for the metadata, where there is an address for it.
unfoldable pub network_mmds : TextMap → Option MmdsNetworkConfig
unfolding text_at
network_mmds m = elim (find_text (codes "_network_ip") m) [
  | none ↦ none
  | some ip ↦ some (record {
    ip = ip;
    netmask = text_at (codes "_network_netmask") m;
    gateway = text_at (codes "_network_gateway") m;
    dns = text_at (codes "_network_dns") m;
  })
]

abbrev pub stockyard_namespace : Text
stockyard_namespace = codes "stockyard"

-- The configuration that `CreateVM` makes.
unfoldable pub firecracker_config : DaemonConfig → VmConfig
unfolding text_at network_mmds
firecracker_config cfg = record {
  id = cfg.id;
  namespace = stockyard_namespace;
  vcpu = cfg.vcpu;
  memory_mb = cfg.memory_mb;
  rootfs_path = [];
  rootfs_snapshot = codes cfg.rootfs_snapshot;
  kernel_path = codes cfg.kernel_path;
  cloud_init_data = codes cfg.cloud_init_data;
  tailscale_auth_key = text_at (codes "_tailscale_auth_key") cfg.env;
  ssh_authorized_keys = map codes cfg.ssh_authorized_keys;
  static_ip_args = text_at (codes "_static_ip_args") cfg.env;
  network_mmds = network_mmds cfg.metadata;
  dot_env = cfg.dot_env;
}

-- The configuration that `StartVM` makes: the id and the size, and nothing else.
abbrev pub restart_config : DaemonConfig → VmConfig
restart_config cfg = record {
  id = cfg.id;
  namespace = stockyard_namespace;
  vcpu = cfg.vcpu;
  memory_mb = cfg.memory_mb;
  rootfs_path = [];
  rootfs_snapshot = [];
  kernel_path = [];
  cloud_init_data = [];
  tailscale_auth_key = [];
  ssh_authorized_keys = [];
  static_ip_args = [];
  network_mmds = none;
  dot_env = [];
}

-- VMInfo of pkg/vmbackend; the address is not known here.
pub record BackendVmInfo : Type 0 where
  pub id : String
  pub pid : ℕ
  pub cid : ℕ
  pub vsock_path : Text
  pub state : Text
  pub created_at : ℕ

abbrev pub backend_info : VmInfo → BackendVmInfo
backend_info vm = record {
  id = vm.id;
  pid = vm.pid;
  cid = vm.cid;
  vsock_path = vm.vsock_path;
  state = vm.state;
  created_at = vm.created_at;
}

-- `VMStatus.String`
unfoldable pub status_text : VmStatus → Text
status_text pending = codes "pending"
status_text running = codes "running"
status_text stopped = codes "stopped"
status_text failed = codes "failed"
status_text unknown = codes "unknown"

-- VMState of pkg/vmbackend
pub record VmState : Type 0 where
  pub id : String
  pub pid : ℤ
  pub status : Text

abbrev pub state_of : Vm → VmState
state_of vm = record { id = vm.id; pid = vm.pid; status = status_text vm.status }

module _ (env : Env) where
  unfoldable pub backend_create : DaemonConfig → M BackendVmInfo
  backend_create cfg = do vm ← create_vm env (firecracker_config cfg); return (backend_info vm)

  unfoldable pub backend_start : DaemonConfig → M BackendVmInfo
  backend_start cfg = do vm ← start_vm env (restart_config cfg); return (backend_info vm)

  abbrev pub backend_stop : String → M (Unit {0})
  backend_stop id = stop_vm env stockyard_namespace id

  abbrev pub backend_delete : String → M (Unit {0})
  backend_delete id = delete_vm env stockyard_namespace id

  unfoldable pub backend_get : String → M VmState
  backend_get id = do vm ← get_vm env stockyard_namespace id; return (state_of vm)

  unfoldable pub backend_list : M (List VmState)
  backend_list = do vms ← list_vms env stockyard_namespace; return (map state_of vms)
