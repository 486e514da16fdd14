-- ===== src/Network/Pool/Defs.antt =====
-- The operations of pkg/network/ip_pool.go. A method returns its result and the new pool and disk.
-- The mutex makes each method one step; ParseCIDR and ParseIP are the library's, so their results
-- are arguments here.
use stockyard.Base.{
  ℕ, zero, suc, ◌+◌, ◌-◌, ◌*◌, ◌/◌, ◌%◌, ◌^◌, Bool, not, String, Option, none, some, List, [], ◌∷◌,
  ◌++◌, Text, codes, text_eq, Dict, lookup, insert, erase, if◌then◌else◌, leb, ◌==◌, str_eq, length,
  Result, ok, err,
}
use stockyard.Network.Address.{Ip, increment, to_u32, of_u32, u32_mod, dotted}
use stockyard.Network.Pool.Disk.{
  PersistStep, Disk, missing, unreadable, malformed, saved, persist_locked,
}

pub record IpPool : Type 0 where
  pub network : Ip
  pub ones : ℕ
  pub gateway : Text
  pub allocated : Dict Text
  pub available : List Text
  pub persist_path : String

abbrev pub host_bits : ℕ → ℕ
host_bits ones = 32 - ones

-- net.IPNet.Contains: the same prefix.
abbrev pub contains : Ip → ℕ → Ip → Bool
contains network bits ip = to_u32 ip / 2 ^ bits == to_u32 network / 2 ^ bits

-- The loop of `generateAvailableIPs`; the fuel counts its rounds.
unfoldable pub generate_from : ℕ → Ip → ℕ → Text → Ip → List Text
generate_from zero network bits gateway ip = []
generate_from (suc fuel) network bits gateway ip =
    let next = increment ip in
    let rest = generate_from fuel network bits gateway next in
    if not (contains network bits next)
    then []
    else if leb ((2 ^ bits - 1) % u32_mod) ((to_u32 next + u32_mod - to_u32 network) % u32_mod)
    then []
    else if text_eq (dotted next) gateway
    then rest
    else dotted next ∷ rest

unfoldable pub generate_available_ips : Ip → ℕ → Text → List Text
unfolding generate_from
generate_available_ips network bits gateway = generate_from (2 ^ bits) network bits gateway network

-- `NewIPPool`, given what ParseCIDR makes of the string: the network address and prefix length.
unfoldable pub new_ip_pool : Option (Ip × ℕ) → Text → Option IpPool
unfolding generate_available_ips
new_ip_pool none gateway = none
new_ip_pool (some (network, ones)) gateway = some (record {
  network = network;
  ones = ones;
  gateway = gateway;
  allocated = [];
  available = generate_available_ips network (host_bits ones) gateway;
  persist_path = "";
})

-- `gwIP.Mask(mask)`: the host bits are cleared.
abbrev pub mask_ip : Ip → ℕ → Ip
mask_ip ip ones = of_u32 (to_u32 ip / 2 ^ host_bits ones * 2 ^ host_bits ones)

-- `NewIPPoolFromGateway`, given the address that the gateway's text parses to.
unfoldable pub new_ip_pool_from_gateway : Option Ip → Text → ℕ → Option IpPool
unfolding new_ip_pool
new_ip_pool_from_gateway none gateway prefix_len = none
new_ip_pool_from_gateway (some ip) gateway prefix_len =
    new_ip_pool (some (mask_ip ip prefix_len, prefix_len)) gateway

pub data PoolError : Type 0 where
  exhausted : PoolError
  not_persisted : PersistStep → PoolError
  unreadable_state unparsable_state : PoolError

unfoldable pub copy_allocations : Dict Text → Dict Text
copy_allocations [] = []
copy_allocations ((vm_id, ip) ∷ m) = (vm_id, ip) ∷ copy_allocations m

-- The part of `Allocate` below the test for an allocation at hand.
allocate_new :
    (PersistStep → Bool)
    → String
    → List Text
    → IpPool
    → Disk
    → Result PoolError Text × IpPool × Disk
allocate_new fails vm_id [] p d = (err exhausted, p, d)
allocate_new fails vm_id (ip ∷ rest) p d =
    let allocations = insert vm_id ip (copy_allocations p.allocated) in
    let (e, d') = persist_locked p.persist_path fails allocations d in
    elim e [
      | none ↦ (ok ip, record p { allocated = allocations; available = rest }, d')
      | some step ↦ (err (not_persisted step), p, d')
    ]

unfoldable pub allocate :
    (PersistStep → Bool) → String → IpPool → Disk → Result PoolError Text × IpPool × Disk
unfolding allocate_new
allocate fails vm_id p d = elim (lookup vm_id p.allocated) [
  | some ip ↦ (ok ip, p, d)
  | none ↦ allocate_new fails vm_id p.available p d
]

unfoldable pub release :
    (PersistStep → Bool) → String → IpPool → Disk → Option PoolError × IpPool × Disk
release fails vm_id p d = elim (lookup vm_id p.allocated) [
  | none ↦ (none, p, d)
  | some ip ↦
      let allocations = erase vm_id (copy_allocations p.allocated) in
      let (e, d') = persist_locked p.persist_path fails allocations d in
      elim e [
        | none ↦
            (none, record p { allocated = allocations; available = p.available ++ (ip ∷ []) }, d')
        | some step ↦ (some (not_persisted step), p, d')
      ]
]

-- The inner loop of `LoadState`: the first equal entry is cut out.
unfoldable pub take_out : Text → List Text → List Text
take_out ip [] = []
take_out ip (x ∷ xs) = if text_eq x ip then xs else x ∷ take_out ip xs

-- The outer loop, over the saved map in the order in which it is walked.
unfoldable pub restore : Dict Text → IpPool → IpPool
unfolding take_out
restore [] p = p
restore ((vm_id, ip) ∷ m) p =
    restore m
      (record p { allocated = insert vm_id ip p.allocated; available = take_out ip p.available })

unfoldable pub load_state : IpPool → Disk → Option PoolError × IpPool
unfolding restore
load_state p d = if str_eq p.persist_path "" then (none, p) else elim d.state_file [
  | missing ↦ (none, p)
  | unreadable ↦ (some unreadable_state, p)
  | malformed ↦ (some unparsable_state, p)
  | saved m ↦ (none, restore m p)
]

unfoldable pub available_count : IpPool → ℕ
available_count p = length p.available

unfoldable pub get_allocation : String → IpPool → Text
get_allocation vm_id p = elim (lookup vm_id p.allocated) [ none ↦ [] | some ip ↦ ip ]

unfoldable pub netmask : IpPool → Text
netmask p = dotted (of_u32 (u32_mod - 2 ^ host_bits p.ones))

unfoldable pub prefix_len : IpPool → ℕ
prefix_len p = p.ones

unfoldable pub set_persist_path : String → IpPool → IpPool
set_persist_path path p = record p { persist_path = path }

pub record StaticNetworkConfig : Type 0 where
  pub ip : Text
  pub netmask : Text
  pub gateway : Text
  pub dns : Text

unfoldable pub network_config : String → IpPool → Option StaticNetworkConfig
network_config vm_id p = elim (lookup vm_id p.allocated) [
  | none ↦ none
  | some ip ↦
      some (record { ip = ip; netmask = netmask p; gateway = p.gateway; dns = codes "8.8.8.8" })
]

unfoldable pub kernel_ip_args : String → IpPool → Text
kernel_ip_args vm_id p = elim (lookup vm_id p.allocated) [
  | none ↦ []
  | some ip ↦
      codes "ip="
      ++ (ip ++ (codes "::" ++ (p.gateway ++ (codes ":" ++ (netmask p ++ codes "::eth0:off")))))
]
