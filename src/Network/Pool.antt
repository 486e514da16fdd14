-- ===== src/Network/Pool.antt =====
-- pkg/network/ip_pool.go: the pool of static addresses.
pub mod Disk
pub mod Defs
pub mod Hosts
pub mod Persist
pub mod Ownership
pub mod Results
pub mod Reload
pub mod Sync
