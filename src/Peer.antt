-- ===== src/Peer.antt =====
-- The peer session's decisions: tagsyd/src/peer.
pub mod Plan
pub mod Relay
pub mod Pulls
