-- ===== src/Protocol.antt =====
-- The framings that go over vsock: pkg/vsock/protocol.go and pkg/shell/protocol.go.
pub mod Word
pub mod Snapshot
pub mod Shell
pub mod Laws
