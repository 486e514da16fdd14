-- ===== src/Tests/Pool.antt =====
-- The theorems on the address pool (pkg/network/ip_pool.go) at concrete pools.
use stockyard.Base.{
  ℕ, ◌≡◌, ◌≢◌, ◌⊎◌, refl, Bool, true, false, List, [], ◌∷◌, Mem, Nodup, Perm, none, some, String,
  Text, lookup, insert, erase, eq_iff, text_eq, ◌-◌, ◌*◌, ◌/◌, ◌^◌, ok, err, arith, codes,
}
use stockyard.Network.Address.{Ip, IsBytes, dotted, to_u32, of_u32, increment}
use stockyard.Network.Pool.Disk.{PersistStep, sync_dir, remove_temp, Disk, saved, persist_locked}
use stockyard.Network.Pool.Defs.{
  IpPool, not_persisted, allocate, release, load_state, new_ip_pool_from_gateway, copy_allocations,
}
use stockyard.Network.Pool.Persist.{AfterRename, persist_locked_lem}
use stockyard.Network.Pool.Hosts.{hosts_from, new_ip_pool_from_gateway_lem}
use stockyard.Network.Pool.Ownership.{
  PoolCall, allocates, releases, pool_step, pool_run, IsValid, pool_run-exclusive,
}
use stockyard.Network.Pool.Reload.{load_state-restores}
use stockyard.Network.Pool.Sync.{InStep, calls-InStep}

abbrev ten_zero_one : ℕ → Ip
ten_zero_one n = record { a = 10; b = 0; c = 1; d = n }

abbrev first_ip : Text
first_ip = codes "10.0.1.2"

abbrev task_c : String
task_c = "c"

abbrev no_fault : PersistStep → Bool
no_fault s = false

abbrev late_fault : PersistStep → Bool
late_fault sync_dir = true
late_fault _ = false

abbrev fresh_pool : IpPool
fresh_pool = record {
  network = ten_zero_one 0;
  ones = 30;
  gateway = codes "10.0.1.1";
  allocated = [];
  available = first_ip ∷ [];
  persist_path = "ip_pool.json";
}

abbrev empty_disk : Disk
empty_disk = record { state_file = saved []; temp_files = 0 }

abbrev script : List PoolCall
script =
    allocates no_fault "a"
    ∷ allocates late_fault "b"
    ∷ releases no_fault "a"
    ∷ allocates no_fault "c"
    ∷ []

fresh_pool-IsBytes : IsBytes (ten_zero_one 1)
fresh_pool-IsBytes = record {
  a_byte = ground arith;
  b_byte = ground arith;
  c_byte = ground arith;
  d_byte = ground arith;
}

fresh_pool-made :
    new_ip_pool_from_gateway (some (ten_zero_one 1)) (codes "10.0.1.1") 30
    ≡ some (record fresh_pool { persist_path = "" })
unfolding new_ip_pool_from_gateway of_u32 to_u32 increment text_eq dotted
fresh_pool-made = refl

new_ip_pool_from_gateway_lem_example :
    ((first_ip ∷ [])
      ≡ hosts_from
          (to_u32 (ten_zero_one 1) / 2 ^ (32 - 30) * 2 ^ (32 - 30))
          (codes "10.0.1.1")
          1
          (2 ^ (32 - 30) - 2))
    × Nodup (first_ip ∷ [])
    × (¬ Mem (codes "10.0.1.1") (first_ip ∷ []))
    × ((record fresh_pool { persist_path = "" }).allocated ≡ [])
unfolding dotted
new_ip_pool_from_gateway_lem_example =
    new_ip_pool_from_gateway_lem (ten_zero_one 1) 30 {p = record fresh_pool { persist_path = "" }}
      fresh_pool-IsBytes (ground arith) fresh_pool-made

fresh_pool-IsValid : IsValid fresh_pool
fresh_pool-IsValid = record { unique = tt; distinct = new_ip_pool_from_gateway_lem_example.1 }

abbrev pool_path : String
pool_path = "ip_pool.json"

a_path : pool_path ≢ ""
a_path = ground (arith, eq_iff pool_path "")

persist_locked_lem_example :
    (((persist_locked "ip_pool.json" late_fault [] empty_disk).0 ≡ none)
        × ((persist_locked "ip_pool.json" late_fault [] empty_disk).1.state_file ≡ saved [])
      ⊎ ((s : PersistStep) × ((persist_locked "ip_pool.json" late_fault [] empty_disk).0 ≡ some s)
          × (((persist_locked "ip_pool.json" late_fault [] empty_disk).1.state_file
                ≡ empty_disk.state_file)
              ⊎ (AfterRename s
                  × ((persist_locked "ip_pool.json" late_fault [] empty_disk).1.state_file
                      ≡ saved [])))))
    × (((persist_locked "ip_pool.json" late_fault [] empty_disk).1.temp_files
          ≡ empty_disk.temp_files)
        ⊎ (late_fault remove_temp ≡ true))
persist_locked_lem_example = persist_locked_lem "ip_pool.json" late_fault [] empty_disk a_path

script-gives : lookup "c" (pool_run script (fresh_pool, empty_disk)).0.allocated ≡ some first_ip
unfolding pool_run pool_step allocate release persist_locked copy_allocations lookup insert erase
script-gives = refl

pool_run-exclusive_example :
    (task_c ≡ task_c) × (¬ Mem first_ip (pool_run script (fresh_pool, empty_disk)).0.available)
pool_run-exclusive_example =
    pool_run-exclusive script fresh_pool empty_disk "c" "c" first_ip fresh_pool-IsValid script-gives
      script-gives

allocate-first : (allocate no_fault "a" fresh_pool empty_disk).0 ≡ ok first_ip
unfolding allocate persist_locked copy_allocations lookup insert
allocate-first = refl

allocate-fails : (allocate late_fault "a" fresh_pool empty_disk).0 ≡ err (not_persisted sync_dir)
unfolding allocate persist_locked copy_allocations lookup insert
allocate-fails = refl

abbrev last_pool : IpPool
last_pool = (pool_run script (fresh_pool, empty_disk)).0

abbrev last_disk : Disk
last_disk = (pool_run script (fresh_pool, empty_disk)).1

calls-InStep_example :
    (InStep
        (allocate late_fault "a" fresh_pool empty_disk).1
        (allocate late_fault "a" fresh_pool empty_disk).2
      ⊎ ((s : PersistStep) × AfterRename s
          × ((allocate late_fault "a" fresh_pool empty_disk).0 ≡ err (not_persisted s))))
    × (InStep
          (release late_fault "a" fresh_pool empty_disk).1
          (release late_fault "a" fresh_pool empty_disk).2
        ⊎ ((s : PersistStep) × AfterRename s
            × ((release late_fault "a" fresh_pool empty_disk).0 ≡ some (not_persisted s))))
calls-InStep_example = calls-InStep late_fault "a" empty_disk fresh_pool a_path refl

script-saved : last_disk.state_file ≡ saved last_pool.allocated
unfolding pool_run pool_step allocate release persist_locked copy_allocations lookup insert erase
script-saved = refl

load_state-restores_example :
    ((load_state fresh_pool last_disk).0 ≡ none)
    × ((k : String)
        → lookup k (load_state fresh_pool last_disk).1.allocated ≡ lookup k last_pool.allocated)
    × Perm (load_state fresh_pool last_disk).1.available last_pool.available
load_state-restores_example =
    load_state-restores script fresh_pool empty_disk last_disk refl a_path (script-saved)
