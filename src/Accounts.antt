-- ===== src/Accounts.antt =====
-- What the reservations of a program add up to, and how that stands to its reserved amount.
pub mod Totals
pub mod Held
pub mod Items
pub mod Walk
pub mod Steps
pub mod Loop
pub mod Missing
pub mod Snapshot
pub mod Requests
pub mod Amounts
pub mod Updates
pub mod Messages
pub mod Coverage
