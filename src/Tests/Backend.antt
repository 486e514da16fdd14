-- ===== src/Tests/Backend.antt =====
-- The theorems on pkg/vmbackend at a task and at a file of two leases.
use stockyard.Base.{
  String, lacks, cut_at, true, ◌≡◌, refl, List, [], ◌∷◌, none, some, Text, codes, text_eq,
  trim_space, trim_front, strip_first, has_prefix, cut_prefix,
}
use stockyard.Daemon.Create.{vm_config, Address, ImageSource}
use stockyard.Backend.Firecracker.{firecracker_config, stockyard_namespace}
use stockyard.Backend.Firecracker.Handover.{handover}
use stockyard.Backend.Leases.{field_value, find_ip_in_leases}
use stockyard.Backend.Leases.Newest.{
  Field, no_fields, one_field, File, no_leases, lease, field_of, newest_ip, is_held, address_of,
  find_ip-newest,
}
use stockyard.Tests.Tasks.{calm_env}
use stockyard.Tests.Create.{a_request}

abbrev address_a : Address
address_a = record { static_ip_args = codes "ip=10.0.1.2"; network = none }

abbrev source_a : ImageSource
source_a = record { rootfs_snapshot = "tank/images/rootfs@base"; kernel_path = "" }

handover_example :
    let c =
      firecracker_config
        (vm_config calm_env a_request "a1" "" address_a [] "tskey-auth-1" "" source_a) in
    (c.id ≡ "a1")
    × (c.namespace ≡ stockyard_namespace)
    × (c.static_ip_args ≡ codes "ip=10.0.1.2")
    × (c.network_mmds ≡ none)
    × (c.tailscale_auth_key ≡ codes "tskey-auth-1")
    × (c.dot_env ≡ a_request.dot_env)
handover_example = handover calm_env a_request "a1" "" address_a [] "tskey-auth-1" "" source_a refl

abbrev same_case : Text → Text
same_case t = t

abbrev field : String → String → Field
field key content = record { key = codes key; content = codes content }

-- A lease of `vm-one`, one of it without an address, and one of `vm-two`.
abbrev first_lease : List Field
first_lease =
    field "name" "vm-one" ∷ field "ip_address" "192.168.64.2" ∷ field "hw_address" "1,02:01" ∷ []

abbrev later_lease : List Field
later_lease = field "name" "vm-two" ∷ field "hw_address" "1,02:02" ∷ []

abbrev lease_lines : List Text
lease_lines =
    codes "{"
    ∷ codes "\tname=vm-one"
    ∷ codes "\tip_address=192.168.64.2"
    ∷ codes "\thw_address=1,02:01"
    ∷ codes "}"
    ∷ codes "{"
    ∷ codes "\tname=vm-two"
    ∷ codes "\thw_address=1,02:02"
    ∷ codes "}"
    ∷ []

two_leases : File (first_lease ∷ later_lease ∷ []) lease_lines
unfolding lacks trim_space trim_front strip_first has_prefix cut_prefix
two_leases =
    lease first_lease
      (codes "\tname=vm-one"
        ∷ codes "\tip_address=192.168.64.2"
        ∷ codes "\thw_address=1,02:01"
        ∷ [])
      (codes "{") (codes "}") refl
      (one_field (field "name" "vm-one") (codes "\tname=vm-one") refl refl (
        one_field (field "ip_address" "192.168.64.2") (codes "\tip_address=192.168.64.2") refl refl
          (one_field (field "hw_address" "1,02:01") (codes "\thw_address=1,02:01") refl refl
            no_fields)))
      refl
      (lease later_lease (codes "\tname=vm-two" ∷ codes "\thw_address=1,02:02" ∷ []) (codes "{")
        (codes "}") refl
        (one_field (field "name" "vm-two") (codes "\tname=vm-two") refl refl (
          one_field (field "hw_address" "1,02:02") (codes "\thw_address=1,02:02") refl refl
            no_fields))
        refl no_leases)

find_ip-newest_example :
    find_ip_in_leases same_case (field_of true) (codes "02:01") lease_lines
    ≡ some (codes "192.168.64.2")
unfolding newest_ip is_held address_of field_value text_eq cut_at
find_ip-newest_example =
    find_ip-newest same_case (codes "02:01") true (first_lease ∷ later_lease ∷ []) lease_lines
      two_leases
