-- ===== src/Threads/Safe.antt =====
-- Each operation as a thread, and the table and the queue that it shares with the others.
mod Calls
mod Requests
mod Lookups
mod Updates
pub use Requests.{request_thread-IsSafe}
pub use Lookups.{result_thread-IsSafe, latest_thread-IsSafe}
pub use Updates.{process_thread-IsSafe}
