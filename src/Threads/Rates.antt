-- ===== src/Threads/Rates.antt =====
-- The providers as threads: alone, beside others, and how long.
mod Facade
mod Cached
mod Configured
pub use Facade.*
pub use Configured.*
pub use Cached.*
