-- ===== src/Treasury.antt =====
-- treasury/: the messages of the treasury system, and how the service consumes them.
pub mod Events
pub mod Messages
pub mod Runs
pub mod CapacityUpdate
pub mod Snapshot
pub mod Reconciliation
pub mod Schemas
pub mod RoundTrip
pub mod Accepted
pub mod Consumer
