-- ===== src/Reservations.antt =====
-- reservations/: the repository of reservations, and the service that creates and releases them.
pub mod Repository
pub mod Updates
pub mod Uniqueness
pub mod Service
pub mod Creation
pub mod Release
