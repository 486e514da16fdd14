-- ===== src/Firecracker.antt =====
-- pkg/firecracker: the client that runs Firecracker processes, with the taps, the rootfs clones and
-- the directories of their VMs.
pub mod Host
pub mod Network
pub mod Processes
pub mod Config
pub mod Delete
pub mod Boot
pub mod Create
pub mod Start
pub mod Vms
pub mod Wait
