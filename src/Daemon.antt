-- ===== src/Daemon.antt =====
-- pkg/daemon: the task rows and the life cycle of tasks.
pub mod LogTailer
pub mod World
pub mod Locks
pub mod State
pub mod Rows
pub mod Keeps
pub mod Tasks
pub mod TearDown
pub mod Closing
pub mod Settle
pub mod Destroy
pub mod Status
pub mod Bodies
pub mod Methods
pub mod Retry
pub mod Snapshots
pub mod Access
pub mod Guards
pub mod Images
pub mod Registry
pub mod Create
pub mod Reconcile
