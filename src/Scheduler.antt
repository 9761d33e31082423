-- ===== src/Scheduler.antt =====
-- The scheduler.
pub mod Settings
pub mod Failure
pub mod Tables
pub mod Repository
pub mod Invariant
pub mod Worker
pub mod Admin
pub mod Outbox
pub mod Pending
pub mod Stuck
pub mod Requested
pub mod Tick
mod Tests
