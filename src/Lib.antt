-- ===== src/Lib.antt =====
-- Verification of stockyard, a daemon that keeps development tasks in virtual machines.
--
-- The daemon (pkg/daemon) has one row per task in a SQLite database, one VM and one workspace
-- dataset per task in a backend, and one IPv4 address per task in a pool (pkg/network). The methods
-- of TaskManager change all of these in an order that an interrupted or failed call must not break;
-- a lock per task keeps two methods for one task apart.
--
-- Parts and files:
-- - Network/Address, Network/Pool: pkg/network/ip_pool.go. Defs holds the operations, Disk the
--   persistence (`persistLocked`) with one failure point for every step that can fail; Hosts says
--   what the generator of addresses makes, Ownership who owns an address after a run of calls,
--   Persist, Results, Sync and Reload what the disk and the results are.
-- - Daemon/World: what a method works on. The error monad `M` passes the world along and keeps it
--   where an error is returned. Every call that leaves the daemon's memory (SQL, VM backend, ZFS,
--   dashboard, Tailscale, context) is written to `history`; its outcome is a function of the calls made
--   so far, so each theorem holds for every such environment.
-- - Daemon/State, Daemon/Snapshots: the tables of pkg/daemon/state.go; Daemon/Tasks: the methods of
--   pkg/daemon/tasks.go under the lock; Daemon/Access: those of pkg/daemon/task_lifecycle.go.
--   TearDown, Closing, Settle, Destroy and Retry are about `destroyTaskLocked`, Bodies and Methods about
--   stopping, failing and restarting, Guards about tasks marked `cleanup_pending`, Status about
--   `UpdateTaskStatus`; Rows and Keeps are lemmas on rows and on what a method keeps.
-- - Daemon/Create: `CreateTask`. Config and DotEnv hold what is worked out before any call (defaults,
--   the .env file, a VM's environment and metadata), the parent the stages that call; the id that
--   GenerateVMID draws is an argument. Stages, After, Outcome and Frees say what a creation leaves in
--   the rows and in the pool, Environment what a container finds in its environment.
-- - Daemon/Registry: pkg/daemon/image_registry.go over the table `images` and the base datasets; Rows
--   and Import are about what is registered afterwards.
-- - Daemon/Reconcile: `reconcileRunningVMs` of pkg/daemon/daemon.go, which brings the rows in line with
--   the processes when the daemon starts; what the host says is a record, Vms.
-- - Daemon/Locks: `withTaskLock` as steps of its callers: arriving (the entry is found or made, and
--   counted), entering, finishing (the count goes down, the entry leaves the map at 0) and unlocking.
--   Entries are objects in a store, since a caller can hold one that has left the map.
-- - Dashboard: the bounded logs of pkg/dashboard. Activity (activity.go) numbers events and is
--   compared in Activity/Recent with the log of all events; History (log_history.go) is searched;
--   Buffer is the shared list that keeps the newest entries.
-- - Console: pkg/consolearchive. Names says what an archive entry is called, Prune is the retention,
--   with Bounds and Safety on what it leaves and spares, Truncate the copy of a large console.
-- - Protocol: the frames of pkg/vsock/protocol.go and pkg/shell/protocol.go over byte strings.
-- - Daemon/Images: the table `images` of pkg/daemon/state.go.
-- - Client: pkg/client/url.go and pkg/client/resolve.go.
-- - Gc: Audit and Owners are the audit of cmd/stockyard/gc_audit.go, which compares the rows with the
--   resources of the host; below Audit, Processes compares the processes, Readers lists datasets and
--   taps, Run is the whole audit, Clean what it means that it finds nothing; Collect, Clean, Spares
--   and Runs are the collector of cmd/stockyard/gc.go, whose run is the list of the commands that it
--   gives.
-- - Firecracker: pkg/firecracker. Host lists the calls of the host, their errors, and the client's
--   state, and Base/Steps has the error monad that passes the state along; each call goes to a
--   `history`, and its outcome is a function of it. Network and Processes are network.go and
--   process_handle.go, Delete, Create, Start and Vms the operations of client.go, Boot what Create and
--   Start share, Config types.go and the metadata of cloudinit.go, Wait the polling of a pidfd.
--   Below them Verified, Order and Handles are about `DeleteVM`, Release, Abandon, Running, Failure
--   and Outcome about VMs that start or do not, Kept and Reaper about stopping.
-- - Backend: pkg/vmbackend. Firecracker translates between the daemon's records and the client's, with
--   Handover on what reaches the client; Leases reads the lease file of macOS.
-- - Zfs: pkg/zfs/zfs.go, with the commands it runs as a history; Imports is the import of an
--   image, Datasets is about looks and destructions, Snapshots about the names of snapshots.
-- - Daemon/LogTailer: pkg/daemon/logtailer.go, with Channels on its stop channels.
-- - Network/Dhcp: pkg/network/dhcp.go.
-- - Base: lists, texts, association lists for Go's maps, results. Tests: the theorems at concrete
--   inputs.
--
-- Go maps are association lists; where the order of a walk shows in a result, the theorem speaks of
-- the result up to order. Addresses and identifiers that are compared byte by byte are lists of
-- character codes or strings. A uint32 is a natural number with its wrap-around written out. The
-- loop of `generateAvailableIPs` runs on fuel: 2 ^ (32 - prefix) rounds, one for each address of the
-- network, after which the code's own test has ended it (Network/Pool/Hosts proves the outcome).
-- `trim_front` takes the length of the text as fuel, as each round drops a byte at least, and
-- `decimal_from` the number, which is divided by ten in each round; `fields_from` takes a length too.
-- The polling of Firecracker/Wait has one round more than the timeout has nanoseconds, which is
-- enough for a clock that goes on between two polls.
--
-- Not modelled: ParseIP, ParseCIDR, encoding/json, SQLite, and the commands and system calls that the
-- code runs, whose outcomes are arguments or the environment's; the goroutines of a start beside the
-- reaper; the text of cloud-init documents; the audit's readers of /proc, of directories and of the
-- address file; the backends for apple-container and flintlock; the dashboard's handlers and alerts,
-- the metrics, the gRPC service, the command line's output and the configuration. The lower case of a
-- text (strings.ToLower) is a parameter, since its table is Unicode's.
pub mod Base
pub mod Network
pub mod Daemon
pub mod Dashboard
pub mod Console
pub mod Protocol
pub mod Client
pub mod Backend
pub mod Firecracker
pub mod Zfs
pub mod Gc
pub mod Tests
