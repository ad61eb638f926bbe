-- ===== src/Transport.antt =====
-- apps/xfs-server/src/host-transport: how the host is reached from outside.
pub mod Framing
pub mod Chunks
pub mod Manager
mod Tests
