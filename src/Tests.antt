-- ===== src/Tests.antt =====
-- Runs of the definitions on concrete inputs, and the theorems at such inputs.
mod Fixtures
mod Currencies
mod Rows
mod Requesting
mod Serving
mod Starting
mod Kit
mod Migrating
mod Threading
