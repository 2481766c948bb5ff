-- ===== src/Examples.antt =====
-- The theorems at concrete inputs, by the part of retinue/ that they are about.
pub mod Labels
pub mod Scheduling
pub mod Budgets
pub mod Blockers
pub mod Drains
pub mod Levels
pub mod Crons
pub mod Heartbeats
pub mod Flights
pub mod Locks
pub mod Builds
pub mod Pipelines
pub mod Lanes
pub mod Stores
