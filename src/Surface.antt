-- ===== src/Surface.antt =====
-- extensions/swarm/src/surface: which messages of the root mailbox are shown to the root.
pub mod Keys
pub mod Rank
pub mod Actionable
pub mod Staleness
pub mod Coalesce
pub mod Session
pub mod Decision
