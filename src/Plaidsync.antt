-- ===== src/Plaidsync.antt =====
-- The sync service: plaid-backend-golang.
pub mod Civil
pub mod Money
pub mod Types
pub mod Errors
pub mod Jobs
pub mod Paginate
pub mod World
pub mod Runs
pub mod Callback
pub mod Engine
pub mod Runner
pub mod Rows
pub mod Items
pub mod Crypto
