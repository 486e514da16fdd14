-- ===== src/Backend/Firecracker/Handover.antt =====
-- What a task's creation (pkg/daemon/tasks.go) says of a VM, and what reaches its Firecracker process.
use stockyard.Base.{
  ◌≡◌, refl, Text, codes, String, Option, none, some, [], ◌∷◌, TextMap, find_text, text_eq, false,
  arith,
}
use stockyard.Network.Pool.Defs.{StaticNetworkConfig}
use stockyard.Daemon.World.{Env}
use stockyard.Daemon.Create.{vm_config, Address, ImageSource}
use stockyard.Daemon.Create.Config.{
  CreateTaskRequest, build_vm_env, build_vm_metadata, is_apple, build_hostname,
}
use stockyard.Firecracker.Host.{MmdsNetworkConfig}
use stockyard.Backend.Firecracker.{text_at, network_mmds, firecracker_config, stockyard_namespace}

abbrev pub mmds_of : StaticNetworkConfig → MmdsNetworkConfig
mmds_of c = record { ip = c.ip; netmask = c.netmask; gateway = c.gateway; dns = c.dns }

abbrev pub mmds_option : Option StaticNetworkConfig → Option MmdsNetworkConfig
mmds_option none = none
mmds_option (some c) = some (mmds_of c)

env_args :
    (vars : TextMap) (auth_key hostname args dot_env : Text)
    → let m = build_vm_env false vars auth_key hostname args dot_env in
      (text_at (codes "_static_ip_args") m ≡ args)
      × (text_at (codes "_tailscale_auth_key") m ≡ auth_key)
unfolding build_vm_env text_at find_text text_eq
env_args vars [] hostname [] dot_env = (refl, refl)
env_args vars [] hostname (a ∷ args) dot_env = (ground arith, ground arith)
env_args vars (k ∷ key) hostname [] dot_env = (ground arith, ground arith)
env_args vars (k ∷ key) hostname (a ∷ args) dot_env = (ground arith, ground arith)

metadata_network :
    (id name : String) (network : Option StaticNetworkConfig)
    → network_mmds (build_vm_metadata false id name network) ≡ mmds_option network
unfolding build_vm_metadata network_mmds text_at find_text text_eq
metadata_network id name none = refl
metadata_network id name (some c) = refl

-- With a backend other than apple-container, the configuration that the Firecracker client is given
-- for a task has the task's id in the daemon's namespace, the kernel arguments and the network of
-- its address, the Tailscale key, and the .env file.
pub handover :
    (env : Env) (req : CreateTaskRequest) (id image : String) (address : Address) (vars : TextMap)
    (auth_key cloud : String) (source : ImageSource)
    → is_apple env ≡ false
    → let c = firecracker_config (vm_config env req id image address vars auth_key cloud source) in
      (c.id ≡ id)
      × (c.namespace ≡ stockyard_namespace)
      × (c.static_ip_args ≡ address.static_ip_args)
      × (c.network_mmds ≡ mmds_option address.network)
      × (c.tailscale_auth_key ≡ codes auth_key)
      × (c.dot_env ≡ req.dot_env)
unfolding firecracker_config
handover env req id image address vars auth_key cloud source e =
    let a =
      env_args vars (codes auth_key) (codes (build_hostname id)) address.static_ip_args
        req.dot_env in
    ground (arith, a, metadata_network id req.name address.network)
