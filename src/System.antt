-- ===== src/System.antt =====
-- The whole service over its database: requests and messages, one transaction after another.
pub mod Statements
pub mod Requests
pub mod Messages
pub mod Frames
pub mod Invariants
pub mod Reach
pub mod Safety
pub mod Bounds
