-- ===== src/Auth.antt =====
-- auth/: the guards that every request passes before its handler runs.
pub mod Guards
pub mod Bearer
pub mod Granted
