-- ===== src/Examples.antt =====
-- Runs of the modelled code on small inputs, and the theorems at those inputs.
mod Samples
mod Graphs
mod Scopes
mod Attempts
mod Notices
mod Closures
mod Commits
mod Pools
mod Streaks
mod Scans
mod Surfaces
mod Mails
