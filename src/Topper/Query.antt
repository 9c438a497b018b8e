-- ===== src/Topper/Query.antt =====
-- From a request to SQL: postgres-topper/internal/query.
pub mod Types
pub mod Filter
pub mod Grammar
pub mod Json
pub mod Projection
pub mod Select
pub mod Values
pub mod Literals
pub mod Reread
pub mod Upsert
