-- ===== src/Query.antt =====
-- services/query-api: the read-only HTTP interface to the daily reliability figures.
pub mod Models
pub mod Cursor
pub mod Repository
pub mod Api
