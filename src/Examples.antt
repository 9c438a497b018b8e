-- ===== src/Examples.antt =====
-- Runs of the definitions on concrete inputs, and the theorems at such inputs.
pub mod Topper
pub mod Plaidsync
pub mod Cache
pub mod Jobs
pub mod Money
pub mod Runner
pub mod Engine
pub mod Crypto
pub mod Items
pub mod Rows
pub mod Upsert
pub mod Auth
pub mod Load
