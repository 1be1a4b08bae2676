-- ===== src/Service.antt =====
-- The quote service of internal/service: the result type, the cache of latest prices and the four
-- operations, with their laws.
pub mod QuoteResult
pub mod Cache
pub mod Operations
pub mod Runs
pub mod Latest
