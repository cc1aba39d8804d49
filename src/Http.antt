-- ===== src/Http.antt =====
-- HTTP: the requests, the controllers behind the guards, and the answers.
pub mod Request
pub mod Controllers
pub mod Server
pub mod Access
pub mod Answers
pub mod Soundness
