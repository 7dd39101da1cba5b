-- ===== src/Agents.antt =====
-- extensions/swarm/src/utils.ts: what it says of agents.
pub mod Role
