-- ===== src/Effects.antt =====
-- What each request and each message does to the database, on every branch.
pub mod Creation
pub mod Release
pub mod Returns
pub mod Unstored
pub mod Versions
pub mod RequestVersions
pub mod SnapshotVersions
pub mod Ordering
pub mod Refusal
pub mod Idempotence
pub mod Declared
pub mod Limits
pub mod Replaced
pub mod Booked
pub mod Freed
pub mod Restored
pub mod Settling
pub mod Recorded
pub mod Known
pub mod Recording
pub mod CapacityUpdate
pub mod Snapshot
pub mod Reconciliation
pub mod Redelivery
