-- ===== src/Network/Pool/Disk.antt =====
-- The persistence of pkg/network/ip_pool.go: `persistenceOps`, the state file and `persistLocked`.
-- The file system is met through `persistenceOps`; a run is told which of its steps fail.
use stockyard.Base.{
  ℕ, suc, ◌-◌, Bool, String, Option, none, some, Text, Dict, if◌then◌else◌, str_eq,
}

-- What `persistLocked` asks of the JSON encoder and of the file system, in its order.
pub data PersistStep : Type 0 where
  marshal mkdir_all create_temp write_temp short_write sync_temp close_temp : PersistStep
  rename open_dir sync_dir remove_temp : PersistStep

-- What a read of the state file finds.
pub data StateFile : Type 0 where
  missing unreadable malformed : StateFile
  saved : Dict Text → StateFile

-- The state file at `persistPath`, and the temporary files left beside it.
pub record Disk : Type 0 where
  pub state_file : StateFile
  pub temp_files : ℕ

-- The deferred removal of the temporary file, whose error is ignored.
remove : (PersistStep → Bool) → Disk → Disk
remove fails d = if fails remove_temp then d else record d { temp_files = d.temp_files - 1 }

-- From the rename on: the new state is in place, and only its durability is in question.
commit : (PersistStep → Bool) → Dict Text → Disk → Option PersistStep × Disk
unfolding remove
commit fails allocations d =
    if fails rename
    then (some rename, remove fails d)
    else let r = record d { state_file = saved allocations; temp_files = d.temp_files - 1 } in
      if fails open_dir
      then (some open_dir, r)
      else if fails sync_dir
      then (some sync_dir, r)
      else (none, r)

-- From the creation of the temporary file on.
write_state : (PersistStep → Bool) → Dict Text → Disk → Option PersistStep × Disk
unfolding commit
write_state fails allocations d =
    if fails create_temp
    then (some create_temp, d)
    else let t = record d { temp_files = suc d.temp_files } in
      if fails write_temp
      then (some write_temp, remove fails t)
      else if fails short_write
      then (some short_write, remove fails t)
      else if fails sync_temp
      then (some sync_temp, remove fails t)
      else if fails close_temp
      then (some close_temp, remove fails t)
      else commit fails allocations t

-- `persistLocked`; the result names the step that failed.
unfoldable pub persist_locked :
    String → (PersistStep → Bool) → Dict Text → Disk → Option PersistStep × Disk
unfolding write_state
persist_locked path fails allocations d =
    if str_eq path ""
    then (none, d)
    else if fails marshal
    then (some marshal, d)
    else if fails mkdir_all
    then (some mkdir_all, d)
    else write_state fails allocations d
