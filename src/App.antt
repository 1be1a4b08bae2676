-- ===== src/App.antt =====
-- cmd/app/app.go: the providers, and what the application opens and closes.
pub mod Providers
pub mod Lifecycle
pub mod Balance
pub mod Run
pub mod Ordered
pub mod Over
pub mod Finishing
pub mod Routes
pub mod Documented
pub mod Main
