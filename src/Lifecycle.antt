-- ===== src/Lifecycle.antt =====
-- extensions/swarm/src/taskgraph/lifecycle.ts.
pub mod Transition
pub mod Status
pub mod Attempt
