-- ===== src/Graph.antt =====
-- extensions/swarm/src/taskgraph/graph.ts.
pub mod Activation
pub mod Rework
pub mod Readiness
pub mod Cycle
pub mod Validate
pub mod Default
