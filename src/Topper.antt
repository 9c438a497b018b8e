-- ===== src/Topper.antt =====
-- The read-mostly HTTP front of the database: postgres-topper.
pub mod Catalog
pub mod Query
pub mod Cache
pub mod Auth
pub mod Introspect
pub mod Views
pub mod Load
