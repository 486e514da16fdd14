-- ===== src/Console.antt =====
-- pkg/consolearchive: what is kept of VM consoles, and for how long.
pub mod Names
pub mod Prune
pub mod Bounds
pub mod Safety
pub mod Truncate
