-- ===== src/Firecracker/Config.antt =====
-- The configuration of a VM (types.go of pkg/firecracker), the metadata that its guest reads
-- (BuildMMDSData of cloudinit.go), and its MAC address (GenerateMAC of network.go).
use stockyard.Base.{
  ℕ, ◌/◌, ◌%◌, ◌+◌, ℤ, is_positive, Text, codes, text_eq, not, String, Option, List, [], ◌∷◌, ◌++◌,
  Result, ok, err, str_eq, if◌then◌else◌, ltb,
}
use stockyard.Firecracker.Host.{Fault, other, MmdsNetworkConfig, MmdsData}

pub record VmConfig : Type 0 where
  pub id : String
  pub namespace : Text
  pub vcpu : ℤ
  pub memory_mb : ℤ
  pub rootfs_path : Text
  pub rootfs_snapshot : Text
  pub kernel_path : Text
  pub cloud_init_data : Text
  pub tailscale_auth_key : Text
  pub ssh_authorized_keys : List Text
  pub static_ip_args : Text
  pub network_mmds : Option MmdsNetworkConfig
  pub dot_env : Text

-- `Validate`
unfoldable pub validate : VmConfig → Result Fault (Unit {0})
validate c =
    if str_eq c.id ""
    then err (other "VM ID is required")
    else if not (is_positive c.vcpu)
    then err (other "VCPU must be greater than zero")
    else if not (is_positive c.memory_mb)
    then err (other "MemoryMB must be greater than zero")
    else if text_eq c.rootfs_path []
    then err (other "RootfsPath is required")
    else if text_eq c.kernel_path []
    then err (other "KernelPath is required")
    else ok tt

-- VMInfo
pub record VmInfo : Type 0 where
  pub id : String
  pub namespace : Text
  pub pid : ℕ
  pub api_socket_path : Text
  pub rootfs_path : Text
  pub metrics_path : Text
  pub cid : ℕ
  pub vsock_path : Text
  pub state : Text
  pub created_at : ℕ

-- `strings.Join(keys, "\n")`
unfoldable pub join_lines : List Text → Text
join_lines [] = []
join_lines (t ∷ []) = t
join_lines (t ∷ u ∷ ts) = t ++ 10 ∷ join_lines (u ∷ ts)

-- A field that is left out where it would be empty.
abbrev field_unless_empty : Text → Text → Text → List (Text × Text)
field_unless_empty key raw shown = if text_eq raw [] then [] else (key, shown) ∷ []

abbrev keys_field : List Text → List (Text × Text)
keys_field [] = []
keys_field (k ∷ ks) = (codes "ssh-authorized-keys", join_lines (k ∷ ks)) ∷ []

-- `BuildMMDSData` of the metadata that a client makes of a configuration
unfoldable pub build_mmds_data : (Text → Text) → VmConfig → MmdsData
build_mmds_data base64 c = record {
  meta_data =
      (codes "instance-id", codes "i-" ++ codes c.id)
      ∷ (codes "local-hostname", codes "stockyard-" ++ codes c.id)
      ∷ (field_unless_empty (codes "tailscale-auth-key") c.tailscale_auth_key c.tailscale_auth_key
          ++ keys_field c.ssh_authorized_keys
          ++ field_unless_empty (codes "dotenv") c.dot_env (base64 c.dot_env));
  network_config = c.network_mmds;
  user_data = c.cloud_init_data;
}

abbrev hex_digit : ℕ → ℕ
hex_digit n = if ltb n 10 then 48 + n else 87 + n

abbrev hex_bytes : Text → Text
hex_bytes [] = []
hex_bytes (b ∷ bs) = 58 ∷ hex_digit (b / 16) ∷ hex_digit (b % 16) ∷ hex_bytes bs

-- `GenerateMAC` of its random bytes
unfoldable pub mac_of : Text → Text
mac_of bytes = codes "02" ++ hex_bytes bytes
