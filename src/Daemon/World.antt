-- ===== src/Daemon/World.antt =====
-- What the daemon's methods work on: the rows of the SQLite database (pkg/daemon/state.go), the
-- address pool, and the record of every call that leaves the daemon. The outcome of such a call is
-- the environment's, which may choose it by all the calls made so far.
use stockyard.Base.{
  ℕ, ℤ, Text, TextMap, Bool, true, false, String, Option, none, some, List, ◌∷◌, Result, ok, err,
}
use stockyard.Network.Pool.Disk.{PersistStep, Disk}
use stockyard.Network.Pool.Defs.{IpPool, PoolError}

-- A row of the table `tasks`. NULL columns read as empty, as GetTask makes them.
pub record Task : Type 0 where
  pub id : String
  pub name : String
  pub command : String
  pub status : String
  pub vmid : String
  pub cid : ℕ  -- uint32
  pub vsock_path : String
  pub ip : String
  pub owner : String
  pub tailscale_hostname : String
  pub image : String
  pub created_at : ℕ
  pub stopped_at : Option ℕ

pub record SnapshotRow : Type 0 where
  pub task_id : String
  pub snapshot_name : String
  pub created_at : ℕ

pub record ImageRecord : Type 0 where
  pub name : String
  pub dataset : String
  pub kernel_path : String
  pub size_bytes : ℕ
  pub created_at : ℕ

pub data Error : Type 0 where
  task_not_found : String → Error
  task_cleanup_pending : Error
  task_not_stopped : String → String → Error
  canceled : Error
  not_allocated not_released : PoolError → Error
  other : String → Error
  joined : Error → Error → Error

-- What VM backends report of a VM.
pub record VmInfo : Type 0 where
  pub id : String
  pub cid : ℕ
  pub vsock_path : String
  pub ip : String

-- What a backend is told of a VM (pkg/vmbackend/backend.go). The maps are keyed by text.
pub record VmConfig : Type 0 where
  pub id : String
  pub vcpu : ℤ
  pub memory_mb : ℤ
  pub kernel_path : String
  pub rootfs_snapshot : String
  pub image : String
  pub cloud_init_data : String
  pub ssh_authorized_keys : List String
  pub dot_env : Text
  pub env : TextMap
  pub metadata : TextMap

-- A call that leaves the daemon's own memory: SQL statements, the VM backend, ZFS, the dashboard's
-- feeds, Tailscale, and a look at the context.
pub data Call : Type 0 where
  check_context list_vms : Call
  select_task insert_task read_status delete_row : String → Call
  select_tasks select_snapshots select_image select_images : Call
  write_status write_column : String → String → Call
  insert_snapshot insert_image write_image delete_image_row : String → Call
  notify : String → String → String → Call
  stop_tailing tail_logs stop_metrics : String → Call
  create_vm : VmConfig → Call
  start_vm stop_vm delete_vm : String → Call
  create_dataset mountpoint destroy_dataset dataset_exists : String → Call
  sync_workspace create_snapshot restore_snapshot list_snapshots : String → Call
  vm_started vm_stopped vm_failed : String → Call
  remove_device wait_for_peer ensure_log_follower : String → Call
  get_secret : String → Call
  cloud_init validate_image stat_file import_rootfs destroy_image_dataset : String → Call
  snapshot_there : String → Call
  allocate_ip release_ip : String → Call

-- What stands outside the daemon, and how the daemon is set up. A call's outcome may depend on all
-- the calls before it; the list given has the call itself at its head.
pub record Env : Type 0 where
  pub outcome : List Call → Option String
  pub disk_fails : List Call → PersistStep → Bool
  pub now : List Call → ℕ
  pub dataset_there : List Call → Bool
  pub vm_info : List Call → VmInfo
  pub names : List Call → List String
  pub text : List Call → String
  pub has_backend : Bool
  pub has_zfs : Bool
  pub has_log_tailer : Bool
  pub has_metrics_poller : Bool
  pub has_activity_feed : Bool
  pub has_callback : Bool
  pub backend : String
  pub has_images : Bool  -- `tm.daemon.images != nil`
  pub backend_validates : Bool  -- the backend is an ImageValidator
  pub apple_image : String
  pub pool_name : String
  pub images_path : String
  pub file_size : List Call → ℕ

pub record World : Type 0 where
  pub tasks : List Task
  pub snapshots : List SnapshotRow
  pub images : List ImageRecord
  pub pool : Option IpPool
  pub disk : Disk
  pub history : List Call

-- A method: it changes the world, also where it returns an error.
abbrev pub M : Type 0 → Type 0
M A = World → Result Error A × World

infixl 5 ◌>>=◌ ◌>>◌
abbrev pub ◌>>=◌ : {A B : Type 0} → M A → (A → M B) → M B
◌>>=◌ m f w = let (r, w') = m w in elim r [ ok a ↦ f a w' | err e ↦ (err e, w') ]

abbrev pub ◌>>◌ : {A B : Type 0} → M A → M B → M B
◌>>◌ m k w = let (r, w') = m w in elim r [ ok a ↦ k w' | err e ↦ (err e, w') ]

abbrev pub return : {A : Type 0} → A → M A
return a w = (ok a, w)

abbrev pub throw : {A : Type 0} → Error → M A
throw e w = (err e, w)

abbrev pub done : M (Unit {0})
done w = (ok tt, w)

abbrev pub when : Bool → M (Unit {0}) → M (Unit {0})
when true m w = m w
when false m w = (ok tt, w)

-- A call whose error the code drops or only logs.
abbrev pub ignore : M (Unit {0}) → M (Unit {0})
ignore m w = let (r, w') = m w in (ok tt, w')

-- A call that cannot fail.
abbrev pub effect : Call → M (Unit {0})
effect c w = (ok tt, record w { history = c ∷ w.history })

module _ (env : Env) where
  -- A call with an outcome.
  abbrev pub call : Call → M (Unit {0})
  call c w = elim (env.outcome (c ∷ w.history)) [
    | none ↦ (ok tt, record w { history = c ∷ w.history })
    | some text ↦ (err (other text), record w { history = c ∷ w.history })
  ]

  -- `ctx.Err()`
  abbrev pub check_ctx : M (Unit {0})
  check_ctx w = elim (env.outcome (check_context ∷ w.history)) [
    | none ↦ (ok tt, record w { history = check_context ∷ w.history })
    | some text ↦ (err canceled, record w { history = check_context ∷ w.history })
  ]
