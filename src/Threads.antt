-- ===== src/Threads.antt =====
-- The operations of internal/service as threads: between any two of their outside calls, other
-- threads may run.
pub mod Program
pub mod Operations
pub mod Alone
pub mod Writes
pub mod Keeps
pub mod Ensures
pub mod Safe
pub mod Pool
pub mod Schedule
pub mod Ends
pub mod Idle
pub mod Bounds
pub mod Providers
pub mod Rates
pub mod Progress
pub mod Service
