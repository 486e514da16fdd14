-- ===== src/Backend.antt =====
-- pkg/vmbackend: what adapts a hypervisor to the daemon.
pub mod Leases
pub mod Firecracker
