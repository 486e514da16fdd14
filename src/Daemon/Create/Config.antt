-- ===== src/Daemon/Create/Config.antt =====
-- What CreateTask (pkg/daemon/tasks.go) works out before it calls anything: defaults, names, and the
-- environment and metadata that a backend is given.
use stockyard.Base.{
  ℤ, pos, is_positive, ltb, ◌||◌, ◌&&◌, Bool, not, String, str_append, starts_with, Option, none,
  some, List, [], ◌∷◌, Text, codes, length, TextMap, put_text, put_all, str_eq, if◌then◌else◌,
}
use stockyard.Network.Pool.Defs.{StaticNetworkConfig}
use stockyard.Daemon.World.{Env}
use stockyard.Daemon.Create.DotEnv.{parse_dot_env}

pub record CreateTaskRequest : Type 0 where
  pub name : String
  pub command : List String
  pub env : TextMap
  pub cpus : ℤ
  pub memory_mb : ℤ
  pub no_tailscale : Bool
  pub tailscale_auth_key : String
  pub ssh_authorized_keys : List String
  pub dot_env : Text
  pub image : String

unfoldable pub with_defaults : CreateTaskRequest → CreateTaskRequest
with_defaults req = record req {
  cpus = if is_positive req.cpus then req.cpus else pos 2;
  memory_mb = if is_positive req.memory_mb then req.memory_mb else pos 1024;
}

abbrev pub is_firecracker : Env → Bool
is_firecracker env = str_eq env.backend "" || str_eq env.backend "firecracker"

abbrev pub is_apple : Env → Bool
is_apple env = str_eq env.backend "apple-container"

abbrev pub default_image : Env → String
default_image env = if is_apple env then env.apple_image else "default"

-- `strings.Join(command, " ")`
unfoldable pub join_words : List String → String
join_words [] = ""
join_words (w ∷ []) = w
join_words (w ∷ v ∷ ws) = str_append w (str_append " " (join_words (v ∷ ws)))

-- `tailscale.ValidateAuthKey`
unfoldable pub is_valid_auth_key : String → Bool
is_valid_auth_key key = not (str_eq key "") && starts_with key "tskey-"

-- `tailscale.BuildHostname`, and the host name of the VM
unfoldable pub build_hostname : String → String
build_hostname task_id = str_append "stockyard-" task_id

abbrev pub unless_empty : Text → Text → TextMap → TextMap
unless_empty key value m = if ltb 0 (length value) then put_text key value m else m

-- The entries of the .env file, applied first.
unfoldable pub dot_env_entries : Text → TextMap
dot_env_entries dot_env = if ltb 0 (length dot_env) then put_all (parse_dot_env dot_env) [] else []

-- `buildVMEnvMetadata`, in two parts
unfoldable pub build_vm_env : Bool → TextMap → Text → Text → Text → Text → TextMap
build_vm_env apple env auth_key hostname static_ip_args dot_env =
    if apple
    then put_text (codes "STOCKYARD_HOSTNAME") hostname
        (unless_empty (codes "TAILSCALE_AUTH_KEY") auth_key (put_all env (dot_env_entries dot_env)))
    else unless_empty (codes "_static_ip_args") static_ip_args
        (unless_empty (codes "_tailscale_auth_key") auth_key [])

abbrev pub network_metadata : StaticNetworkConfig → TextMap → TextMap
network_metadata c m = put_text (codes "_network_dns") c.dns (
    put_text (codes "_network_gateway") c.gateway
      (put_text (codes "_network_netmask") c.netmask (put_text (codes "_network_ip") c.ip m)))

unfoldable pub build_vm_metadata : Bool → String → String → Option StaticNetworkConfig → TextMap
build_vm_metadata apple task_id task_name network =
    let base_map =
      put_text (codes "task-name") (codes task_name)
        (put_text (codes "task-id") (codes task_id) []) in
    if apple
    then base_map
    else elim network [ none ↦ base_map | some c ↦ network_metadata c base_map ]
