-- ===== src/Api.antt =====
-- The HTTP side: internal/api and internal/api/middleware.
pub mod Response
pub mod Quotes
pub mod Health
pub mod Middleware
pub mod Logging
pub mod Endpoints
pub mod Lookups
pub mod ById
pub mod Document
