-- ===== src/Scope.antt =====
-- extensions/swarm/src/taskgraph/scope.ts.
pub mod Resolve
pub mod Pattern
pub mod Overlap
pub mod Lease
pub mod Path
