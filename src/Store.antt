-- ===== src/Store.antt =====
-- pkg/services/sqlstore: the tables that hold the checks, and the transactions over them.
pub mod Session
pub mod Joined
pub mod Probes
pub mod Routing
pub mod Migrator
pub mod Endpoint
pub mod CheckState
