-- ===== src/Tests.antt =====
-- Runs of the model at concrete inputs, and the theorems at inputs that meet their hypotheses.
mod Fixtures
mod Requests
mod Messages
mod Conversion
mod Access
mod Logging
mod Accounts
mod Releases
