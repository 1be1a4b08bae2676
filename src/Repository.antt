-- ===== src/Repository.antt =====
-- The quotes table: internal/repository/quote_repo.go over the schema of
-- internal/repository/migrations/001_init.sql. A statement is a function on the rows of the
-- table, which PostgreSQL runs as one atomic step; the rows stand in the order of insertion.
pub mod Connection
pub mod Table
pub mod Methods
pub mod Invariant
pub mod Steps
pub mod History
pub mod Calls
pub mod Latest
pub mod Newest
pub mod Prices
pub mod Found
pub mod Dedup
pub mod Updates
pub mod View
pub mod Spec
pub mod Refinement
