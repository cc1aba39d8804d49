-- ===== src/Logger.antt =====
-- logger/: the id of a request, the access log, what is redacted, and the logger's configuration.
pub mod RequestId
pub mod AccessLog
pub mod Redaction
pub mod Config
pub mod Ignored
pub mod Logged
