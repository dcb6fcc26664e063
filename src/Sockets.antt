-- ===== src/Sockets.antt =====
-- pkg/api/sockets: the sockets of the connected probes.
pub mod Refresh
pub mod Events
pub mod Cache
pub mod Register
