-- ===== src/Gc.antt =====
-- The garbage collector of the command line (cmd/stockyard).
pub mod Audit
pub mod Owners
pub mod Collect
pub mod Clean
pub mod Spares
pub mod Runs
