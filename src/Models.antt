-- ===== src/Models.antt =====
-- pkg/models: the data that the other packages share.
pub mod Check
pub mod Settings
pub mod Route
pub mod Monitors
