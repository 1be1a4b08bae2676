-- ===== src/System.antt =====
-- The service as it is put together in cmd/app: the operations with the queue's enqueuer, what
-- they leave behind, and runs of many of them.
pub mod Codes
pub mod Requests
pub mod Processing
pub mod Outcomes
pub mod Stores
pub mod Held
pub mod Idle
pub mod Tasks
pub mod Schedule
