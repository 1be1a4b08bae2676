-- ===== src/Repository/Refinement.antt =====
-- The methods of `PostgresQuoteRepository` over the table, and over the map that is seen of it.
mod Statements
mod Index
mod Methods
pub use Statements.{flying}
pub use Index.*
pub use Methods.*
