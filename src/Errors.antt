-- ===== src/Errors.antt =====
-- common/errors: the service's error codes with their HTTP status, the exceptions that code running
-- for a request or a message can throw, and the filter that turns them into responses.
mod Codes
pub mod Filter
pub mod Laws
unfoldable pub use Codes.*
