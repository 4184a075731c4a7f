-- ===== src/Watch.antt =====
-- tagsyd/src/sync_directories: what the daemon makes of the events of its watched directories.
pub mod Debounce
pub mod SelfWrites
