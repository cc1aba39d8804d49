-- ===== src/Store.antt =====
-- The database as the service uses it: the rows of its tables, and transactions over them.
mod Schema
mod Transaction
pub mod Keeps
pub mod Inversion
unfoldable pub use Schema.*
unfoldable pub use Transaction.*
