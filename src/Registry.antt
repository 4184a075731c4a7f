-- ===== src/Registry.antt =====
-- The two live registries of the daemon, which the UI follows over broadcast streams:
-- tagsyd/src/connections.rs and tagsyd/src/operations.rs.
pub mod Connections
pub mod Operations
