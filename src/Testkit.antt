-- ===== src/Testkit.antt =====
-- internal/testkit: the containers that the integration tests run against.
pub mod Settings
pub mod Modules
pub mod Suite
pub mod Balance
