-- ===== src/Programs.antt =====
-- programs/: the repository of programs, and the availability service.
pub mod Repository
pub mod Service
pub mod Balance
pub mod Updates
pub mod Consistency
pub mod Uniqueness
pub mod Lookup
