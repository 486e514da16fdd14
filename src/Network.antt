-- ===== src/Network.antt =====
-- pkg/network: addresses and the pool of static addresses.
pub mod Dhcp
pub mod Address
pub mod Pool
