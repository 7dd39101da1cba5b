-- ===== src/Attention.antt =====
-- extensions/swarm/src/taskgraph/attention.ts.
pub mod Evidence
pub mod Derive
pub mod Fence
