-- ===== src/Tests.antt =====
-- The theorems at concrete inputs, component by component.
mod Pool
mod Tasks
mod Locks
mod Frames
mod Urls
mod Audit
mod Create
mod Dashboard
mod Console
mod Collect
mod Reconcile
mod Firecracker
mod Backend
mod Zfs
mod LogTailer
