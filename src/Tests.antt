-- ===== src/Tests.antt =====
-- Runs at concrete inputs.
mod Registries
mod Stores
mod Plans
mod Relays
mod Watches
mod Writers
mod Clocks
mod Catalogs
mod Tags
mod Queries
