-- ===== src/Store/Endpoint.antt =====
-- pkg/services/sqlstore/endpoint.go, updateEndpoint and updateCheck: the differences that are made
-- between what is stored and what is given, and what they make of the tables.
pub mod Tags
pub mod Reads
pub mod Checks
pub mod Columns
mod Samples
pub mod Routes
